-- ===== src/Bsal/Types.antt =====
-- The data of src/lib/target/src/bsal.c, its statics, and what it asks of others.
use opensync_platform_rdk.Common.{ℕ, ℕ_discrete, Bool, false, List, [], Option, CString}

-- bsal_band_t, and what a variable that was not written may hold beside its values.
pub data Band : Type 0 where
  uninitialized band_24g band_5g band_6g : Band
  band_junk : ℕ → Band

unfoldable pub Band-discrete : Discrete Band
Band-discrete = hlevel ℕ_discrete

-- The bands of the HAL that the code tells apart.
pub data RadioBand : Type 0 where
  freq_2_4 freq_5 freq_5l freq_5h freq_6 freq_60 freq_other : RadioBand

-- The fields of bsal_ifconfig_t that the code reads.
pub record IfConfig : Type 0 where
  pub ifname : CString
  pub chan_util_check_sec : ℕ
  pub chan_util_avg_count : ℕ
  pub inact_check_sec : ℕ
  pub inact_tmout_sec_normal : ℕ

-- wifi_steering_apConfig_t
pub record ApConfig : Type 0 where
  pub ap_index : ℕ
  pub util_check_interval_sec : ℕ
  pub util_avg_count : ℕ
  pub inact_check_interval_sec : ℕ
  pub inact_check_threshold_sec : ℕ

-- iface_t
pub record Iface : Type 0 where
  pub band : Band
  pub bsal_cfg : IfConfig
  pub wifihal_cfg : ApConfig

-- The fields that bsal_client_config_t and wifi_steering_clientConfig_t share, in the order of
-- bsal_client_to_wifi_steering_client.
pub record ClientConfig : Type 0 where
  pub rssi_probe_hwm : ℕ
  pub rssi_probe_lwm : ℕ
  pub rssi_auth_hwm : ℕ
  pub rssi_auth_lwm : ℕ
  pub rssi_inact_xing : ℕ
  pub rssi_high_xing : ℕ
  pub rssi_low_xing : ℕ
  pub auth_reject_reason : ℕ

-- The fields of bsal_neigh_info_t, which are those of wifi_NeighborReport_t that the code sets.
pub record NeighInfo : Type 0 where
  pub bssid : CString
  pub bssid_info : ℕ
  pub op_class : ℕ
  pub channel : ℕ
  pub phy_type : ℕ

-- bsal_neigh_key_t: the BSSID and the name of the interface.
abbrev pub NeighKey : Type 0
NeighKey = CString × CString

-- bsal_disc_type_t; `disc_other` stands for the values that the switch refuses.
pub data DiscType : Type 0 where
  disassoc deauth disc_other : DiscType

-- The datarate_info and rrm_caps of a bsal_client_info_t.
pub record DatarateInfo : Type 0 where
  pub max_chwidth : ℕ
  pub max_streams : ℕ
  pub phy_mode : ℕ
  pub max_mcs : ℕ
  pub max_txpower : ℕ
  pub is_static_smps : Bool
  pub is_mu_mimo_supported : Bool

pub record RrmCaps : Type 0 where
  pub link_meas : Bool
  pub neigh_rpt : Bool
  pub bcn_rpt_passive : Bool
  pub bcn_rpt_active : Bool
  pub bcn_rpt_table : Bool
  pub lci_meas : Bool
  pub ftm_range_rpt : Bool

-- bsal_client_info_t
pub record ClientInfo : Type 0 where
  pub connected : Bool
  pub snr : ℕ
  pub tx_bytes : ℕ
  pub rx_bytes : ℕ
  pub is_btm_supported : Bool
  pub is_rrm_supported : Bool
  pub band_cap_2g : Bool
  pub band_cap_5g : Bool
  pub band_cap_6g : Bool
  pub datarate_info : DatarateInfo
  pub rrm_caps : RrmCaps
  pub assoc_ies : CString

-- A call that changes the state of the HAL. The list of wifi_steering_setGroup is empty for NULL.
pub data Call : Type 0 where
  set_group : ℕ → ℕ → List ApConfig → Call
  client_set : ℕ → ℕ → CString → ClientConfig → Call
  client_unset : ℕ → ℕ → CString → Call
  client_drop : ℕ → ℕ → CString → DiscType → ℕ → Call
  neighbor_reports : ℕ → List NeighInfo → Call

-- A client in the HAL's list of an access point.
pub record AssocDev : Type 0 where
  pub cli_mac : CString
  pub cli_snr : ℕ
  pub cli_bytes_sent : ℕ
  pub cli_bytes_received : ℕ

-- What the code asks of others while one operation runs: the HAL's answers (`none` is one other
-- than RETURN_OK), the map from interface names to indices, and the build's configuration.
pub record Hal : Type 0 where
  pub ifname_to_idx : CString → Option ℕ
  pub ssid_radio_index : ℕ → Option ℕ
  pub radio_band : ℕ → Option RadioBand
  pub num_radios : Option ℕ
  pub event_register : Bool
  pub mgmt_frame_support : Bool
  pub mgmt_frame_register : Bool
  pub associated_devices : ℕ → Option (List AssocDev)
  pub assoc_req_ies : ℕ → CString → Option CString
  pub has_assoc_req_ies : Bool
  pub accepts : Call → Bool

-- The statics of the file, and the calls so far that the HAL accepted or refused, newest first.
-- The length of `ifaces` is group.iface_number. An array that cleanup freed keeps its last
-- content here, and `freed` says so. `dangling` says that a node of the tree of neighbors has as its key
-- a variable on the stack of a function that has returned, from where on the C code's use of the tree
-- has no defined behaviour.
pub record State : Type 0 where
  pub has_callback : Bool
  pub group_index : ℕ
  pub ifaces : List Iface
  pub freed : Bool
  pub clients : List (CString × ClientInfo)
  pub neighbors : List (NeighKey × NeighInfo)
  pub dangling : Bool
  pub calls : List (Call × Bool)

-- Memory that is all zero.
abbrev pub no_config : ApConfig
no_config = record {
  ap_index = 0;
  util_check_interval_sec = 0;
  util_avg_count = 0;
  inact_check_interval_sec = 0;
  inact_check_threshold_sec = 0;
}

abbrev pub no_iface : Iface
no_iface = record {
  band = uninitialized;
  bsal_cfg = record {
    ifname = [];
    chan_util_check_sec = 0;
    chan_util_avg_count = 0;
    inact_check_sec = 0;
    inact_tmout_sec_normal = 0;
  };
  wifihal_cfg = no_config;
}

abbrev pub no_rrm : RrmCaps
no_rrm = record {
  link_meas = false;
  neigh_rpt = false;
  bcn_rpt_passive = false;
  bcn_rpt_active = false;
  bcn_rpt_table = false;
  lci_meas = false;
  ftm_range_rpt = false;
}

abbrev pub no_rates : DatarateInfo
no_rates = record {
  max_chwidth = 0;
  max_streams = 0;
  phy_mode = 0;
  max_mcs = 0;
  max_txpower = 0;
  is_static_smps = false;
  is_mu_mimo_supported = false;
}

abbrev pub no_info : ClientInfo
no_info = record {
  connected = false;
  snr = 0;
  tx_bytes = 0;
  rx_bytes = 0;
  is_btm_supported = false;
  is_rrm_supported = false;
  band_cap_2g = false;
  band_cap_5g = false;
  band_cap_6g = false;
  datarate_info = no_rates;
  rrm_caps = no_rrm;
  assoc_ies = [];
}
