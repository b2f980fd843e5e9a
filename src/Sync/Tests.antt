-- ===== src/Sync/Tests.antt =====
-- Tests of sync.c, and its theorems at concrete inputs.
use opensync_platform_rdk.Common.{
  ℕ, List, Option, ◌≡◌, ◌||◌, refl, true, false, [], ◌∷◌, none, some, bytes, inl, inr,
  if◌then◌else◌, ◌==◌, str_dec,
}
use opensync_platform_rdk.Sync.Types.{
  Mgr, wm, nm, cm, unknown, full, MsgType, MsgData, Env, State, sent, wifi_status, resync_scheduled,
  ssid_update, Mgr-discrete,
}
use opensync_platform_rdk.Sync.Messages.{sync_process_msg, sync_evio_cb, Received}
use opensync_platform_rdk.Sync.Retries.{expires, fail, connect-lost}
use opensync_platform_rdk.Sync.Connection.{Sound, link, Reach, Step, Reach-Sound}
use opensync_platform_rdk.Sync.Filter.{
  addressee, wants_resync, process-ignored, process-resync, process-no_resync, state_change_settles,
}
use opensync_platform_rdk.Sync.{sync_init, sync_cleanup, sync_task_connect, radio_trigger_resync}

abbrev env : Env
env = record {
  get_ap_name = λ i. if i == 0 then some (bytes "wl0") else none;
  get_radio_if_name = λ i. none;
  is_home_ap = λ n. true;
  sync_ext_home_acls = true;
  mesh_state = some (bytes "FULL");
  send_ok = true;
  disable_sync = false;
}

-- The statics before any call.
abbrev boot : State
boot = record {
  initialized = false;
  mgr = wm;
  has_callback = false;
  fd = none;
  timer = false;
  io = false;
  sockets = [];
  cloud_mode = unknown;
  resync_ongoing = false;
  effects = [];
}

abbrev up : Mgr → State
up mgr = record boot { initialized = true; mgr = mgr; fd = some 7; io = true; sockets = 7 ∷ [] }

abbrev body : MsgData
body = record {
  ssid_name_index = 0;
  ssid_name_ssid = bytes "home";
  ap_security_index = 0;
  add_acl_index = 0;
  del_acl_index = 0;
  mac_mode_index = 0;
  advertise_index = 3;
  kick_all_index = 0;
  kick_index = 0;
  channel_index = 0;
  channel_mode_index = 0;
  state_is_full = true;
}

-- The connection manager connects, and reports the mode that the data model has.
connects : sync_task_connect env (some 7) true (sync_init cm true boot) ≡ record (up cm) {
  has_callback = true;
  cloud_mode = full;
  effects = sent (wifi_status full) ∷ [];
}
unfolding sync_init sync_task_connect str_dec
connects = refl

boot-Sound : Sound (link boot)
boot-Sound = inl (refl, refl, refl, refl)

up-Sound : Sound (link (up wm))
up-Sound = inr (7, refl, refl, refl, refl, refl)

Reach-Sound_example : Sound (link (sync_cleanup (sync_init wm false boot)).0)
Reach-Sound_example =
    Reach-Sound boot-Sound (Reach.next (Reach.next Reach.here (Step.starts wm false)) Step.stops)

abbrev refusals : List (Env × Option ℕ)
refusals = (env, none) ∷ (env, some 8) ∷ []

connect-lost_example :
    let t =
      fail refusals (sync_evio_cb env 20 (λ n. MsgType.unsupported) true Received.lost (up wm)) in
    let u = expires env (some 9) true t in
    (t.sockets ≡ [])
    × (t.timer ≡ true)
    × (u.fd ≡ some 9)
    × (u.io ≡ true)
    × (u.timer ≡ false)
    × (u.sockets ≡ 9 ∷ [])
connect-lost_example =
    connect-lost env env 20 (λ n. MsgType.unsupported) true (up wm) refusals 9 up-Sound

process-ignored_example : sync_process_msg env MsgType.wifi_reset body (up nm) ≡ up nm
unfolding addressee Mgr-discrete
process-ignored_example = process-ignored env MsgType.wifi_reset body (up nm) refl

process-resync_example :
    (sync_process_msg env MsgType.wifi_ssid_name body (up wm)).resync_ongoing
    ≡ ((up wm).resync_ongoing || wants_resync env body MsgType.wifi_ssid_name)
process-resync_example = process-resync env MsgType.wifi_ssid_name body (up wm) refl

process-no_resync_example :
    (sync_process_msg env MsgType.state_change body (up cm)).resync_ongoing ≡ (up cm).resync_ongoing
process-no_resync_example = process-no_resync env MsgType.state_change body (up cm) (λ e. cc)

state_change_settles_example :
    let t = sync_process_msg env MsgType.state_change body (up cm) in
    (t.cloud_mode ≡ full) × (sync_process_msg env MsgType.state_change body t ≡ t)
state_change_settles_example = state_change_settles env body (up cm) refl

-- A new name on the access point is written to the configuration, and the radios re-sync.
renames :
    (sync_process_msg env MsgType.wifi_ssid_name body (up wm)).effects
    ≡ ssid_update (bytes "home") 0 ∷ resync_scheduled ∷ []
unfolding sync_process_msg radio_trigger_resync Mgr-discrete
renames = refl

-- An access point without a name breaks off.
nameless : sync_process_msg env MsgType.wifi_ssid_advertise body (up wm) ≡ up wm
unfolding sync_process_msg Mgr-discrete
nameless = refl
