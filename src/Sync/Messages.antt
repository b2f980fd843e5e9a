-- ===== src/Sync/Messages.antt =====
-- The messages that the mesh agent sends: sync_process_msg and sync_evio_cb of sync.c.
use opensync_platform_rdk.Common.{
  ℕ, Bool, true, false, Option, none, some, ite, if◌then◌else◌, leb, CString,
}
use opensync_platform_rdk.Sync.Types.{
  Mgr, wm, nm, cm, monitor, full, MsgType, MsgData, Env, State, ssid_update, security_update,
  acl_update, managers_restart, device_mode, Mgr-discrete, CloudMode-discrete,
}
use opensync_platform_rdk.Sync.{emit, radio_cloud_mode_set, radio_trigger_resync, sync_reconnect}

-- A case of the switch gives the state and the flag `resync`. BREAK_IF_NOT_MGR:
unfoldable pub if_mgr : Mgr → State → State × Bool → State × Bool
if_mgr mgr s handled = ite (Mgr-discrete s.mgr mgr) handled (s, false)

-- The name of the access point or radio is looked up; without it the case breaks.
unfoldable pub if_named : Option CString → State → (CString → State × Bool) → State × Bool
if_named none s handled = (s, false)
if_named (some name) s handled = handled name

-- The three messages on an access list, each with its own index for the name.
unfoldable pub acl_case : Env → MsgData → ℕ → State → State × Bool
unfolding if_named
acl_case env d index s = if_named (env.get_ap_name index) s λ name.
    if env.sync_ext_home_acls
    then ((if env.is_home_ap name then emit (acl_update d.add_acl_index) s else s), true)
    else (s, false)

-- The case MESH_STATE_CHANGE.
unfoldable pub state_change : Env → MsgData → State → State
state_change env d s =
    let mode = if d.state_is_full then full else monitor in
    ite (CloudMode-discrete s.cloud_mode mode) s
      (radio_cloud_mode_set env mode (emit (device_mode mode) s)).0

-- The switch over the message type.
unfoldable pub handle : Env → MsgData → State → MsgType → State × Bool
unfolding if_mgr if_named acl_case state_change
handle env d s MsgType.wifi_ssid_name = if_mgr wm s (
    if_named (env.get_ap_name d.ssid_name_index) s
      λ name. (emit (ssid_update d.ssid_name_ssid d.ssid_name_index) s, true))
handle env d s MsgType.wifi_ap_security = if_mgr wm s (
    if_named (env.get_ap_name d.ap_security_index) s
      λ name. (emit (security_update d.ssid_name_index) s, true))
handle env d s MsgType.wifi_ap_add_acl_device = if_mgr wm s (acl_case env d d.add_acl_index s)
handle env d s MsgType.wifi_ap_del_acl_device = if_mgr wm s (acl_case env d d.del_acl_index s)
handle env d s MsgType.wifi_mac_addr_control_mode = if_mgr wm s (acl_case env d d.mac_mode_index s)
handle env d s MsgType.wifi_ssid_advertise =
    if_mgr wm s (if_named (env.get_ap_name d.advertise_index) s λ name. (s, true))
handle env d s MsgType.url_change = if_mgr cm s (emit managers_restart s, false)
handle env d s MsgType.wifi_reset = if_mgr wm s (s, true)
handle env d s MsgType.subnet_change = if_mgr nm s (emit managers_restart s, false)
handle env d s MsgType.wifi_ap_kick_all_assoc_devices =
    if_mgr wm s (if_named (env.get_ap_name d.kick_all_index) s λ name. (s, true))
handle env d s MsgType.wifi_ap_kick_assoc_device =
    if_mgr wm s (if_named (env.get_ap_name d.kick_index) s λ name. (s, true))
handle env d s MsgType.wifi_radio_channel =
    if_mgr wm s (if_named (env.get_radio_if_name d.channel_index) s λ name. (s, true))
handle env d s MsgType.wifi_radio_channel_mode =
    if_mgr wm s (if_named (env.get_radio_if_name d.channel_mode_index) s λ name. (s, true))
handle env d s MsgType.state_change = if_mgr cm s (state_change env d s, false)
handle env d s MsgType.client_connect = if_mgr nm s (s, false)
handle env d s MsgType.dhcp_resync_leases = if_mgr nm s (s, false)
handle env d s MsgType.dhcp_update_lease = if_mgr nm s (s, false)
handle env d s MsgType.dhcp_add_lease = if_mgr nm s (s, false)
handle env d s MsgType.dhcp_remove_lease = if_mgr nm s (s, false)
handle env d s MsgType.unsupported = if_mgr wm s (s, false)

-- The tail of sync_process_msg.
unfoldable pub resync_if : State × Bool → State
resync_if (s, resync) = if resync then ite (Mgr-discrete s.mgr wm) (radio_trigger_resync s) s else s

unfoldable pub sync_process_msg : Env → MsgType → MsgData → State → State
unfolding handle resync_if
sync_process_msg env msg d s = resync_if (handle env d s msg)

-- What recv gives: nothing or an error, a packet of another size, or a message.
pub data Received : Type 0 where
  lost malformed : Received
  message : ℕ → MsgData → Received

-- `total` is MESH_SYNC_MSG_TOTAL, and `msg_type` reads a number below it as a type.
unfoldable pub sync_evio_cb : Env → ℕ → (ℕ → MsgType) → Bool → Received → State → State
unfolding sync_process_msg
sync_evio_cb env total msg_type ev_error received s =
    if ev_error then sync_reconnect s else (elim received [
      | lost ↦ sync_reconnect s
      | malformed ↦ s
      | message n d ↦ if leb total n then s else sync_process_msg env (msg_type n) d s
    ])
