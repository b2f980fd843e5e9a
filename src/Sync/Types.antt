-- ===== src/Sync/Types.antt =====
-- The data of src/lib/target/src/sync.c: the messages of the mesh agent, the state of the client
-- of its socket, and what the code does to the rest of the system.
use opensync_platform_rdk.Common.{ℕ, Bool, List, Option, CString}

-- sync_mgr_t
pub data Mgr : Type 0 where
  wm nm cm : Mgr

-- radio_cloud_mode_t
pub data CloudMode : Type 0 where
  unknown monitor full : CloudMode

-- The message types that sync_process_msg names; `unsupported` stands for the others.
pub data MsgType : Type 0 where
  wifi_ssid_name wifi_ap_security wifi_ap_add_acl_device wifi_ap_del_acl_device : MsgType
  wifi_mac_addr_control_mode wifi_ssid_advertise url_change wifi_reset subnet_change : MsgType
  wifi_ap_kick_all_assoc_devices wifi_ap_kick_assoc_device : MsgType
  wifi_radio_channel wifi_radio_channel_mode state_change client_connect : MsgType
  dhcp_resync_leases dhcp_update_lease dhcp_add_lease dhcp_remove_lease unsupported : MsgType

-- The union of a received message: what the code reads through each of its members. The layout
-- of the union is the vendor's (mesh/meshsync_msgs.h).
pub record MsgData : Type 0 where
  pub ssid_name_index : ℕ
  pub ssid_name_ssid : CString
  pub ap_security_index : ℕ
  pub add_acl_index : ℕ
  pub del_acl_index : ℕ
  pub mac_mode_index : ℕ
  pub advertise_index : ℕ
  pub kick_all_index : ℕ
  pub kick_index : ℕ
  pub channel_index : ℕ
  pub channel_mode_index : ℕ
  pub state_is_full : Bool

-- A message that the client sends, with the fields that it sets.
pub data Outgoing : Type 0 where
  ssid_name : ℕ → CString → Outgoing
  ap_security : ℕ → CString → Outgoing
  wifi_status : CloudMode → Outgoing
  radio_channel : ℕ → ℕ → Outgoing
  ssid_advertise : ℕ → Bool → Outgoing
  radio_channel_bw : ℕ → ℕ → Outgoing

-- A call of another part of the system.
pub data Effect : Type 0 where
  ssid_update : CString → ℕ → Effect
  security_update : ℕ → Effect
  acl_update : ℕ → Effect
  managers_restart : Effect
  device_mode : CloudMode → Effect
  resync_scheduled : Effect
  sent : Outgoing → Effect

-- What the code asks of others while it runs one handler: the HAL's names (`none` is an answer
-- other than RETURN_OK), the build's configuration, the data model's mesh state, and whether a
-- send of one message succeeds.
pub record Env : Type 0 where
  pub get_ap_name : ℕ → Option CString
  pub get_radio_if_name : ℕ → Option CString
  pub is_home_ap : CString → Bool
  pub sync_ext_home_acls : Bool
  pub mesh_state : Option CString
  pub send_ok : Bool
  pub disable_sync : Bool

-- The statics of sync.c, and of radio.c the cloud mode and the mark of a scheduled re-sync.
-- `fd` is `none` below zero; `timer` and `io` are whether the watchers are active; `sockets` are
-- the descriptors that are open.
pub record State : Type 0 where
  pub initialized : Bool
  pub mgr : Mgr
  pub has_callback : Bool
  pub fd : Option ℕ
  pub timer : Bool
  pub io : Bool
  pub sockets : List ℕ
  pub cloud_mode : CloudMode
  pub resync_ongoing : Bool
  pub effects : List Effect

unfoldable pub Mgr-discrete : Discrete Mgr
Mgr-discrete = hlevel

unfoldable pub CloudMode-discrete : Discrete CloudMode
CloudMode-discrete = hlevel
