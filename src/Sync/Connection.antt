-- ===== src/Sync/Connection.antt =====
-- The connection of sync.c as a state machine: one descriptor at most, watched while it is open,
-- and a timer that tries again whenever there is none.
use opensync_platform_rdk.Common.{
  ℕ, ◌≡◌, ◌⊎◌, inl, inr, Bool, true, false, if◌then◌else◌, List, [], ◌∷◌, Option, none, some, arith,
  Option-cases, ◌∙◌,
}
use opensync_platform_rdk.Sync.Types.{
  Mgr, CloudMode, unknown, monitor, full, MsgType, MsgData, Outgoing, device_mode, Env, State,
}
use opensync_platform_rdk.Sync.Messages.{
  sync_process_msg, sync_evio_cb, Received, handle, resync_if,
}
use opensync_platform_rdk.Sync.{
  emit, send_if_initialized, sync_send_msg, cloud_config_mode_init, sync_disconnect, sync_reconnect,
  radio_trigger_resync, sync_task_connect, sync_init, sync_cleanup, radio_cloud_mode_set,
}

-- The part of the state that the connection is.
pub record Link : Type 0 where
  pub initialized : Bool
  pub fd : Option ℕ
  pub timer : Bool
  pub io : Bool
  pub sockets : List ℕ

abbrev pub link : State → Link
link s = record {
  initialized = s.initialized;
  fd = s.fd;
  timer = s.timer;
  io = s.io;
  sockets = s.sockets;
}

-- Without a descriptor nothing is open and nothing watched, and the timer runs exactly while the
-- client is initialised; with one it is the only one open, it is watched, and no timer runs.
abbrev pub Sound : Link → Type 0
Sound l =
    ((l.fd ≡ none) × (l.io ≡ false) × (l.sockets ≡ []) × (l.timer ≡ l.initialized))
    ⊎ ((fd : ℕ) × (l.fd ≡ some fd)
        × (l.io ≡ true)
        × (l.sockets ≡ fd ∷ [])
        × (l.timer ≡ false)
        × (l.initialized ≡ true))

-- What happens to the client. The timer's callback runs while the timer is active, the socket's
-- while it is watched.
pub data Step (s : State) : State → Type 0 where
  starts : (mgr : Mgr) (callback : Bool) → Step s (sync_init mgr callback s)
  stops : Step s (sync_cleanup s).0
  connects :
      (env : Env) (socket : Option ℕ) (accepted : Bool)
      → s.timer ≡ true
      → Step s (sync_task_connect env socket accepted s)
  receives :
      (env : Env) (total : ℕ) (msg_type : ℕ → MsgType) (ev_error : Bool) (received : Received)
      → s.io ≡ true
      → Step s (sync_evio_cb env total msg_type ev_error received s)
  sends : (env : Env) (msg : Outgoing) → Step s (send_if_initialized env msg s).0
  reports : (env : Env) (mode : CloudMode) → Step s (radio_cloud_mode_set env mode s).0

pub data Reach (s : State) : State → Type 0 where
  here : Reach s s
  next : {t u : State} → Reach s t → Step t u → Reach s u

-- The messages leave the connection alone.
send-link : (env : Env) (msg : Outgoing) (s : State) → link (sync_send_msg env msg s).0 ≡ link s
unfolding sync_send_msg
send-link env msg s = ground arith

send_if-link :
    (env : Env) (msg : Outgoing) (s : State) → link (send_if_initialized env msg s).0 ≡ link s
unfolding send_if_initialized
send_if-link env msg s = ground arith

mode_set-link :
    (env : Env) (mode : CloudMode) (s : State) → link (radio_cloud_mode_set env mode s).0 ≡ link s
unfolding radio_cloud_mode_set
mode_set-link env unknown s = ground arith
mode_set-link env monitor s = ground arith
mode_set-link env full s = ground arith

pub callback-link : (env : Env) (s : State) → link (cloud_config_mode_init env s) ≡ link s
unfolding cloud_config_mode_init
callback-link env s = elim (Option-cases env.mesh_state) [
  | inl e ↦ rw (e, cloud_config_mode_init)
  | inr (buf, e) ↦ rw (e, cloud_config_mode_init) (mode_set-link env _ s)
]

resync-link : (s : State) (resync : Bool) → link (resync_if (s, resync)) ≡ link s
unfolding resync_if radio_trigger_resync
resync-link s resync = ground arith

handle-link :
    (env : Env) (d : MsgData) (msg : MsgType) (s : State) → link (handle env d s msg).0 ≡ link s
unfolding handle
handle-link env d MsgType.wifi_ssid_name s = ground arith
handle-link env d MsgType.state_change s = ground (
  arith,
  mode_set-link env (if d.state_is_full then full else monitor)
      (emit (device_mode (if d.state_is_full then full else monitor)) s),
)
handle-link env d _ s = ground arith

process-link :
    (env : Env) (d : MsgData) (msg : MsgType) (s : State)
    → link (sync_process_msg env msg d s) ≡ link s
unfolding sync_process_msg
process-link env d msg s = resync-link _ _ ∙ handle-link env d msg s

-- Closing the one descriptor that is open leaves none, and the client is off.
pub disconnect-down :
    (s : State)
    → Sound (link s)
    → let t = sync_disconnect s in
      (t.fd ≡ none)
      × (t.io ≡ false)
      × (t.sockets ≡ [])
      × (t.timer ≡ false)
      × (t.initialized ≡ s.initialized)
unfolding sync_disconnect
disconnect-down s v = ground arith

-- After a cleanup the client is off, whether it was initialised or not.
pub cleanup-down :
    (s : State)
    → Sound (link s)
    → let t = (sync_cleanup s).0 in
      (t.fd ≡ none)
      × (t.io ≡ false)
      × (t.sockets ≡ [])
      × (t.timer ≡ false)
      × (t.initialized ≡ false)
unfolding sync_cleanup
cleanup-down s v = ground (arith, disconnect-down s v)

reconnect-Sound :
    (s : State) → s.initialized ≡ true → Sound (link s) → Sound (link (sync_reconnect s))
unfolding sync_reconnect
reconnect-Sound s on v = ground (arith, disconnect-down s v)

connect-Sound :
    (env : Env) (socket : Option ℕ) (accepted : Bool) (s : State)
    → s.timer ≡ true
    → Sound (link s)
    → Sound (link (sync_task_connect env socket accepted s))
unfolding sync_task_connect
connect-Sound env none accepted s on v = v
connect-Sound env (some fd) accepted s on v =
    ground
      (arith, callback-link env (record s { io = true; fd = some fd; sockets = fd ∷ s.sockets }))

init-Sound :
    (mgr : Mgr) (callback : Bool) (s : State)
    → Sound (link s)
    → Sound (link (sync_init mgr callback s))
unfolding sync_init
init-Sound mgr callback s v =
    ground (arith, disconnect-down (record s { has_callback = callback }) v)

cleanup-Sound : (s : State) → Sound (link s) → Sound (link (sync_cleanup s).0)
unfolding sync_cleanup
cleanup-Sound s v = ground (arith, disconnect-down s v)

evio-Sound :
    (env : Env) (total : ℕ) (msg_type : ℕ → MsgType) (ev_error : Bool) (received : Received)
    (s : State)
    → s.io ≡ true
    → Sound (link s)
    → Sound (link (sync_evio_cb env total msg_type ev_error received s))
unfolding sync_evio_cb
evio-Sound env total msg_type true received s on v = reconnect-Sound s (ground arith) v
evio-Sound env total msg_type false Received.lost s on v = reconnect-Sound s (ground arith) v
evio-Sound env total msg_type false Received.malformed s on v = v
evio-Sound env total msg_type false (Received.message n d) s on v =
    ground (arith, process-link env d (msg_type n) s)

-- Every step keeps the connection sound.
Step-Sound : {s t : State} → Step s t → Sound (link s) → Sound (link t)
Step-Sound {s} (starts mgr callback) v = init-Sound mgr callback s v
Step-Sound {s} stops v = cleanup-Sound s v
Step-Sound {s} (connects env socket accepted on) v = connect-Sound env socket accepted s on v
Step-Sound {s} (receives env total msg_type ev_error received on) v =
    evio-Sound env total msg_type ev_error received s on v
Step-Sound {s} (sends env msg) v = rw send_if-link v
Step-Sound {s} (reports env mode) v = rw mode_set-link v

-- Whatever steps the client takes (it starts or stops, its timer tries to connect, its descriptor
-- has input or an error, it sends), from a state whose connection is sound: at most one descriptor
-- is open, it is the one in use and is watched, and while there is none the timer that tries to
-- connect runs exactly if the client is initialised. So no descriptor leaks, and an initialised
-- client never waits without a retry.
pub Reach-Sound : {s t : State} → Sound (link s) → Reach s t → Sound (link t)
Reach-Sound v here = v
Reach-Sound v (next r st) = Step-Sound st (Reach-Sound v r)
