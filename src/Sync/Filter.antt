-- ===== src/Sync/Filter.antt =====
-- Which messages of the mesh agent concern which manager, and what they set off.
use opensync_platform_rdk.Common.{
  ◌≡◌, ◌≢◌, Bool, true, false, ◌&&◌, ◌||◌, Option, none, some, ite, if◌then◌else◌, CString, arith,
}
use opensync_platform_rdk.Sync.Types.{
  Mgr, wm, nm, cm, CloudMode, unknown, monitor, full, MsgType, MsgData, Env, State, device_mode,
  Mgr-discrete,
}
use opensync_platform_rdk.Sync.Messages.{sync_process_msg}
use opensync_platform_rdk.Sync.{emit, radio_trigger_resync, radio_cloud_mode_set}

-- The manager that a message is for, if it has any effect.
unfoldable pub addressee : MsgType → Option Mgr
addressee MsgType.url_change = some cm
addressee MsgType.state_change = some cm
addressee MsgType.subnet_change = some nm
addressee MsgType.client_connect = none
addressee MsgType.dhcp_resync_leases = none
addressee MsgType.dhcp_update_lease = none
addressee MsgType.dhcp_add_lease = none
addressee MsgType.dhcp_remove_lease = none
addressee MsgType.unsupported = none
addressee _ = some wm

abbrev concerns : Option Mgr → Mgr → Bool
concerns none m = false
concerns (some a) m = ite (Mgr-discrete m a) true false

-- A message that is not for the manager of this process changes nothing at all.
pub process-ignored :
    (env : Env) (msg : MsgType) (d : MsgData) (s : State)
    → concerns (addressee msg) s.mgr ≡ false
    → sync_process_msg env msg d s ≡ s
unfolding sync_process_msg addressee
process-ignored env MsgType.wifi_ssid_name d s h = ground arith
process-ignored env _ d s h = ground arith

abbrev known : Option CString → Bool
known none = false
known (some n) = true

-- Whether a message asks for a re-sync of the radios: all that are for the Wi-Fi manager do whose
-- access point or radio has a name, those on access lists only if such lists are kept in step.
pub wants_resync : Env → MsgData → MsgType → Bool
wants_resync env d MsgType.wifi_ssid_name = known (env.get_ap_name d.ssid_name_index)
wants_resync env d MsgType.wifi_ap_security = known (env.get_ap_name d.ap_security_index)
wants_resync env d MsgType.wifi_ap_add_acl_device =
    env.sync_ext_home_acls && known (env.get_ap_name d.add_acl_index)
wants_resync env d MsgType.wifi_ap_del_acl_device =
    env.sync_ext_home_acls && known (env.get_ap_name d.del_acl_index)
wants_resync env d MsgType.wifi_mac_addr_control_mode =
    env.sync_ext_home_acls && known (env.get_ap_name d.mac_mode_index)
wants_resync env d MsgType.wifi_ssid_advertise = known (env.get_ap_name d.advertise_index)
wants_resync env d MsgType.wifi_reset = true
wants_resync env d MsgType.wifi_ap_kick_all_assoc_devices = known (env.get_ap_name d.kick_all_index)
wants_resync env d MsgType.wifi_ap_kick_assoc_device = known (env.get_ap_name d.kick_index)
wants_resync env d MsgType.wifi_radio_channel = known (env.get_radio_if_name d.channel_index)
wants_resync env d MsgType.wifi_radio_channel_mode =
    known (env.get_radio_if_name d.channel_mode_index)
wants_resync env d _ = false

-- In the Wi-Fi manager a re-sync is under way after a message exactly if it was before or the
-- message asks for one.
pub process-resync :
    (env : Env) (msg : MsgType) (d : MsgData) (s : State)
    → s.mgr ≡ wm
    → (sync_process_msg env msg d s).resync_ongoing ≡ (s.resync_ongoing || wants_resync env d msg)
unfolding sync_process_msg wants_resync radio_trigger_resync
process-resync env MsgType.wifi_ssid_name d s h = ground arith
process-resync env _ d s h = ground arith

mode_set-fields :
    (env : Env) (mode : CloudMode) (s : State)
    → let t = (radio_cloud_mode_set env mode s).0 in
      (t.cloud_mode ≡ mode) × (t.mgr ≡ s.mgr) × (t.resync_ongoing ≡ s.resync_ongoing)
unfolding radio_cloud_mode_set
mode_set-fields env unknown s = ground arith
mode_set-fields env monitor s = ground arith
mode_set-fields env full s = ground arith

abbrev requested : MsgData → CloudMode
requested d = if d.state_is_full then full else monitor

-- Only the Wi-Fi manager ever asks for a re-sync.
pub process-no_resync :
    (env : Env) (msg : MsgType) (d : MsgData) (s : State)
    → s.mgr ≢ wm
    → (sync_process_msg env msg d s).resync_ongoing ≡ s.resync_ongoing
unfolding sync_process_msg
process-no_resync env MsgType.wifi_ssid_name d s h = ground arith
process-no_resync env MsgType.state_change d s h =
    ground (arith, mode_set-fields env (requested d) (emit (device_mode (requested d)) s))
process-no_resync env _ d s h = ground arith

-- In the connection manager a change of the mesh state sets the cloud mode that it asks for, and
-- the same message again changes nothing.
pub state_change_settles :
    (env : Env) (d : MsgData) (s : State)
    → s.mgr ≡ cm
    → let t = sync_process_msg env MsgType.state_change d s in
      (t.cloud_mode ≡ requested d) × (sync_process_msg env MsgType.state_change d t ≡ t)
unfolding sync_process_msg
state_change_settles env d s h =
    ground (arith, mode_set-fields env (requested d) (emit (device_mode (requested d)) s))
