-- ===== src/Sync.antt =====
-- src/lib/target/src/sync.c: the client of the mesh agent's socket, and the messages both ways.
-- Of src/lib/target/src/radio.c the cloud mode and the request of a re-sync, and of
-- src/lib/target/src/cloud_config.c the callback that runs on a connection.
pub mod Types
pub mod Messages
pub mod Connection
pub mod Retries
pub mod Filter
mod Tests
use opensync_platform_rdk.Common.{
  ℕ, ◌+◌, ◌≡◌, Bool, true, false, not, ◌&&◌, List, [], ◌∷◌, ◌++◌, Option, none, some, ite,
  if◌then◌else◌, CString, bytes, str_dec, strscpy, ltb, leb, map, take, ℕ_discrete,
}
use Types.{
  Mgr, wm, nm, cm, CloudMode, unknown, monitor, full, MsgType, MsgData, Outgoing, Effect, Env,
  State, ssid_update, security_update, acl_update, managers_restart, device_mode, resync_scheduled,
  sent, ssid_name, ap_security, wifi_status, radio_channel, ssid_advertise, radio_channel_bw,
  Mgr-discrete, CloudMode-discrete,
}

abbrev pub emit : Effect → State → State
emit e s = record s { effects = s.effects ++ e ∷ [] }

-- close
close : ℕ → List ℕ → List ℕ
close fd [] = []
close fd (x ∷ xs) = ite (ℕ_discrete x fd) (close fd xs) (x ∷ close fd xs)

pub sync_send_msg : Env → Outgoing → State → State × Bool
sync_send_msg env msg s = elim s.fd [
  | none ↦ (s, false)
  | some fd ↦ if env.send_ok then (emit (sent msg) s, true) else (s, false)
]

-- The senders: none sends before the client is initialised.
pub send_if_initialized : Env → Outgoing → State → State × Bool
unfolding sync_send_msg
send_if_initialized env msg s = if not s.initialized then (s, false) else sync_send_msg env msg s

-- `size` is that of the message's field.
pub sync_send_ssid_change : Env → ℕ → ℕ → CString → State → State × Bool
unfolding send_if_initialized
sync_send_ssid_change env size index ssid =
    send_if_initialized env (ssid_name index (strscpy size ssid))

-- `sec` are the bytes of the structure that is copied, but for the index.
pub sync_send_security_change : Env → ℕ → CString → State → State × Bool
unfolding send_if_initialized
sync_send_security_change env index sec = send_if_initialized env (ap_security index sec)

pub sync_send_channel_change : Env → ℕ → ℕ → State → State × Bool
unfolding send_if_initialized
sync_send_channel_change env index channel = send_if_initialized env (radio_channel index channel)

pub sync_send_ssid_broadcast_change : Env → ℕ → Bool → State → State × Bool
unfolding send_if_initialized
sync_send_ssid_broadcast_change env index on = send_if_initialized env (ssid_advertise index on)

pub sync_send_channel_bw_change : Env → ℕ → ℕ → State → State × Bool
unfolding send_if_initialized
sync_send_channel_bw_change env index bw = send_if_initialized env (radio_channel_bw index bw)

-- The mode unknown is not sent, which is no failure.
pub sync_send_status : Env → CloudMode → State → State × Bool
unfolding sync_send_msg
sync_send_status env mode s = if not s.initialized then (s, false) else (elim mode [
  | unknown ↦ (s, true)
  | monitor ↦ sync_send_msg env (wifi_status monitor) s
  | full ↦ sync_send_msg env (wifi_status full) s
])

-- `disable_sync` is CONFIG_RDK_DISABLE_SYNC.
pub radio_cloud_mode_set : Env → CloudMode → State → State × Bool
unfolding sync_send_status
radio_cloud_mode_set env mode s =
    let t = record s { cloud_mode = mode } in
    (if env.disable_sync then (t, true) else sync_send_status env mode t)

pub radio_trigger_resync : State → State
radio_trigger_resync s =
    if s.resync_ongoing then s else emit resync_scheduled (record s { resync_ongoing = true })

abbrev to_lower : ℕ → ℕ
to_lower c = if leb b'A' c && leb c b'Z' then c + 32 else c

-- strncasecmp(buf, "Full", 128) == 0
abbrev is_full : CString → Bool
is_full s = ite (str_dec (map to_lower (take 128 s)) (bytes "full")) true false

-- The callback of the connection manager.
pub cloud_config_mode_init : Env → State → State
unfolding radio_cloud_mode_set
cloud_config_mode_init env s = elim env.mesh_state [
  | none ↦ s
  | some buf ↦ (radio_cloud_mode_set env (if is_full buf then full else monitor) s).0
]

pub sync_disconnect : State → State
unfolding close
sync_disconnect s = elim s.fd [
  | none ↦ record s { timer = false }
  | some fd ↦ record s { timer = false; io = false; sockets = close fd s.sockets; fd = none }
]

pub sync_reconnect : State → State
unfolding sync_disconnect
sync_reconnect s = record (sync_disconnect s) { timer = true }

-- `socket` is the answer of socket(), `none` below zero, and `accepted` whether connect() succeeds.
pub sync_task_connect : Env → Option ℕ → Bool → State → State
unfolding cloud_config_mode_init close
sync_task_connect env none accepted s = s
sync_task_connect env (some fd) accepted s =
    if accepted
    then (let s' = record s { io = true; fd = some fd; sockets = fd ∷ s.sockets } in
        let s'' = if s.has_callback then cloud_config_mode_init env s' else s' in
        record s'' { timer = false })
    else record s { sockets = close fd (fd ∷ s.sockets) }

pub sync_init : Mgr → Bool → State → State
unfolding sync_reconnect
sync_init mgr callback s =
    if s.initialized then s else record (sync_reconnect (record s { has_callback = callback })) {
      initialized = true;
      mgr = mgr;
    }

pub sync_cleanup : State → State × Bool
unfolding sync_disconnect
sync_cleanup s =
    if not s.initialized
    then (s, true)
    else (record (sync_disconnect s) { initialized = false }, true)
