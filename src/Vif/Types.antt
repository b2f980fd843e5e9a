-- ===== src/Vif/Types.antt =====
-- The data of src/lib/target/src/vif.c: what the code reads and writes of the HAL's interface and of
-- the rows of the tables Wifi_VIF_State and Wifi_VIF_Config. The arrays of these hold their strings.
use opensync_platform_rdk.Common.{ℕ, Bool, false, List, [], Option, none, CString}
use opensync_platform_rdk.Wps.{Hal, Call}
use opensync_platform_rdk.MultiAp.{DeviceType}

-- wifi_security_modes_t, as far as the code names its values.
pub data SecurityModes : Type 0 where
  mode_none wpa_personal wpa_wpa2_personal wpa2_personal wpa2_enterprise : SecurityModes
  wpa3_transition wpa3_personal mode_other : SecurityModes

-- wifi_mfp_cfg_t
pub data Mfp : Type 0 where
  mfp_disabled mfp_optional mfp_required : Mfp

-- wifi_mac_filter_mode_t
pub data FilterMode : Type 0 where
  white_list black_list filter_other : FilterMode

-- wifi_vap_mode_t
pub data VapMode : Type 0 where
  vap_ap vap_sta vap_other : VapMode

-- u.bss_info. The union of key and RADIUS settings in its security is three fields, of which the
-- mode says which the code uses.
pub record BssInfo : Type 0 where
  pub enabled : Bool
  pub ssid : CString
  pub isolation : Bool
  pub show_ssid : Bool
  pub nbr_report : Bool
  pub bss_transition : Bool
  pub uapsd : Bool
  pub mcast2ucast : Bool
  pub mode : SecurityModes
  pub mfp : Mfp
  pub key : CString
  pub radius_ip : CString
  pub radius_port : ℕ
  pub radius_key : CString
  pub filter_enable : Bool
  pub filter_mode : FilterMode
  pub bssid : CString

-- u.sta_info; addresses as the text that the code prints of them.
pub record StaInfo : Type 0 where
  pub enabled : Bool
  pub ssid : CString
  pub bssid : CString
  pub mac : CString
  pub channel : ℕ
  pub mode : SecurityModes
  pub key : CString

-- wifi_vap_info_t
pub record VapInfo : Type 0 where
  pub vap_index : ℕ
  pub vap_name : CString
  pub radio_index : ℕ
  pub bridge_name : CString
  pub vap_mode : VapMode
  pub bss : BssInfo
  pub sta : StaInfo

-- The fields of security that the two tables share; a column without value is `none` or empty.
pub record Security : Type 0 where
  pub wpa : Option Bool
  pub wpa_key_mgmt : List CString
  pub wpa_psks : List (CString × CString)
  pub wpa_pairwise_tkip : Option Bool
  pub wpa_pairwise_ccmp : Option Bool
  pub rsn_pairwise_tkip : Option Bool
  pub rsn_pairwise_ccmp : Option Bool
  pub pmf : Option CString
  pub radius_srv_addr : Option CString
  pub radius_srv_port : Option ℕ
  pub radius_srv_secret : Option CString

-- The other fields that both have.
pub record Row : Type 0 where
  pub if_name : Option CString
  pub mode : Option CString
  pub enabled : Option Bool
  pub bridge : Option CString
  pub ap_bridge : Option Bool
  pub wds : Option Bool
  pub ssid_broadcast : Option CString
  pub ssid : Option CString
  pub rrm : Option Bool
  pub btm : Option Bool
  pub uapsd_enable : Option Bool
  pub wps : Option Bool
  pub wps_pbc : Option Bool
  pub wps_pbc_key_id : Option CString
  pub mac_list_type : Option CString
  pub mac_list_present : Bool
  pub mac_list : List CString
  pub multi_ap : Option CString
  pub mcast2ucast : Option Bool
  pub parent : Option CString
  pub sec : Security

-- struct schema_Wifi_VIF_Config
abbrev pub VifConfig : Type 0
VifConfig = Row

-- struct schema_Wifi_VIF_State, with the fields that the configuration does not have.
pub record VifState : Type 0 where
  pub row : Row
  pub mac : Option CString
  pub channel : Option ℕ
  pub vif_radio_idx : Option ℕ
  pub ap_vlan_sta_addr : Option CString
  pub sta_security : List (CString × CString)

abbrev pub no_security : Security
no_security = record {
  wpa = none;
  wpa_key_mgmt = [];
  wpa_psks = [];
  wpa_pairwise_tkip = none;
  wpa_pairwise_ccmp = none;
  rsn_pairwise_tkip = none;
  rsn_pairwise_ccmp = none;
  pmf = none;
  radius_srv_addr = none;
  radius_srv_port = none;
  radius_srv_secret = none;
}

-- A struct after memset.
abbrev pub no_row : Row
no_row = record {
  if_name = none;
  mode = none;
  enabled = none;
  bridge = none;
  ap_bridge = none;
  wds = none;
  ssid_broadcast = none;
  ssid = none;
  rrm = none;
  btm = none;
  uapsd_enable = none;
  wps = none;
  wps_pbc = none;
  wps_pbc_key_id = none;
  mac_list_type = none;
  mac_list_present = false;
  mac_list = [];
  multi_ap = none;
  mcast2ucast = none;
  parent = none;
  sec = no_security;
}

-- struct schema_Wifi_VIF_Config_flags: which columns changed; `pairwise` is that one of the four
-- columns of pairwise ciphers did.
pub record Flags : Type 0 where
  pub enabled : Bool
  pub wpa : Bool
  pub wpa_key_mgmt : Bool
  pub pairwise : Bool
  pub pmf : Bool
  pub wpa_psks : Bool
  pub ap_bridge : Bool
  pub rrm : Bool
  pub btm : Bool
  pub uapsd_enable : Bool
  pub ssid_broadcast : Bool
  pub ssid : Bool
  pub bridge : Bool
  pub mac_list_type : Bool
  pub mac_list : Bool
  pub wps : Bool
  pub multi_ap : Bool
  pub mcast2ucast : Bool

-- The build's options, and the names of the home interfaces.
pub record Kconfig : Type 0 where
  pub multi_psk : Bool
  pub disable_sync : Bool
  pub sync_ext_home_acls : Bool
  pub wps_support : Bool
  pub multi_ap_support : Bool
  pub update_delay : ℕ
  pub home_ifnames : List CString

-- The calls that change the HAL or go to the mesh agent.
pub data VifCall : Type 0 where
  create_vap : ℕ → VapInfo → VifCall
  del_acl add_acl : ℕ → CString → VifCall
  push_psks : ℕ → List (CString × CString) → VifCall
  sync_security : ℕ → CString → CString → VifCall
  sync_ssid : ℕ → CString → VifCall
  sync_broadcast : ℕ → Bool → VifCall
  set_device_type : ℕ → DeviceType → VifCall
  wps_call : Call → VifCall

-- The answers of the HAL, `none` for one that is not RETURN_OK: capabilities are the radios' indices
-- with mcast2ucastSupported.
pub record VifHal : Type 0 where
  pub ssid_radio_index : ℕ → Option ℕ
  pub radio_if_name : ℕ → Option CString
  pub vap_info_map : ℕ → Option (List VapInfo)
  pub radio_channel : ℕ → Option ℕ
  pub acl_device_num : ℕ → Option ℕ
  pub acl_devices : ℕ → Option CString
  pub multi_psk_keys : ℕ → Option (List (CString × CString))
  pub accepts : VifCall → Bool
  pub interface_map : Option (List (CString × ℕ))
  pub radio_caps : Option (List (ℕ × Bool))
  pub unmap_ifname : CString → CString
  pub wps : Hal
  pub multi_ap : opensync_platform_rdk.MultiAp.Hal

-- cached_key_ids, and the calls so far.
pub record VifStatics : Type 0 where
  pub key_ids : ℕ → CString
  pub calls : List VifCall
