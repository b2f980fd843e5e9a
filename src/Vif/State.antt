-- ===== src/Vif/State.antt =====
-- The state of an interface as it is reported, src/lib/target/src/vif.c, and the row of its
-- configuration that is made of it.
use opensync_platform_rdk.Common.{
  ℕ, Bool, true, false, not, List, [], ◌∷◌, ◌++◌, Option, none, some, if◌then◌else◌, ◌==◌, CString,
  bytes, str_eq,
}
use opensync_platform_rdk.Wps.{wps_to_state}
use opensync_platform_rdk.MultiAp.{multi_ap_to_state}
use opensync_platform_rdk.Vif.Types.{
  vap_ap, vap_sta, vap_other, VapInfo, Security, Row, VifConfig, VifState, no_security, no_row,
  wpa_wpa2_personal, wpa2_personal, wpa_personal, SecurityModes, Kconfig, VifHal,
}
use opensync_platform_rdk.Vif.Security.{flag, text, get_security}
use opensync_platform_rdk.Vif.Acl.{acl_to_state}

-- The loop over the interfaces of a radio.
unfoldable pub vap_of_index : ℕ → List VapInfo → Option VapInfo
vap_of_index i [] = none
vap_of_index i (v ∷ vs) = if v.vap_index == i then some v else vap_of_index i vs

unfoldable pub ssid_index_to_vap_info : VifHal → ℕ → Option VapInfo
unfolding vap_of_index
ssid_index_to_vap_info hal i = elim (hal.ssid_radio_index i) [
  | none ↦ none
  | some radio_idx ↦ elim (hal.vap_info_map radio_idx) [
    | none ↦ none
    | some vaps ↦ vap_of_index i vaps
  ]
]

unfoldable pub vif_get_radio_ifname : VifHal → ℕ → Option CString
vif_get_radio_ifname hal i = elim (hal.ssid_radio_index i) [
  | none ↦ none
  | some radio_idx ↦ elim (hal.radio_if_name radio_idx) [
    | none ↦ none
    | some name ↦ some (hal.unmap_ifname name)
  ]
]

unfoldable pub get_channel : VifHal → ℕ → VifState → Option VifState
get_channel hal i v = elim (hal.ssid_radio_index i) [
  | none ↦ none
  | some radio_idx ↦ elim (hal.radio_channel radio_idx) [
    | none ↦ none
    | some channel ↦ some (if channel == 0 then v else record v { channel = some channel })
  ]
]

-- map_enable_disable
unfoldable pub enable_text : Bool → CString
enable_text true = bytes "enabled"
enable_text false = bytes "disabled"

-- A field that a later part sets, or leaves.
abbrev pub or_else {ℓ} : {A : Type ℓ} → Option A → Option A → Option A
or_else none old = old
or_else (some a) old = some a

unfoldable pub add_wps : Kconfig → VifHal → ℕ → Row → Row
unfolding wps_to_state
add_wps kc hal i row =
    let (wps, wps_pbc, key_id) = wps_to_state hal.wps i in
    (if kc.wps_support
      then record row {
        wps = or_else wps row.wps;
        wps_pbc = or_else wps_pbc row.wps_pbc;
        wps_pbc_key_id = or_else key_id row.wps_pbc_key_id;
      }
      else row)

unfoldable pub add_multi_ap : Kconfig → VifHal → ℕ → VifState → VifState
unfolding multi_ap_to_state
add_multi_ap kc hal i v =
    let (multi_ap, addr, mode) = multi_ap_to_state hal.multi_ap i in
    (if kc.multi_ap_support
      then record v {
        row = record (v.row) {
          multi_ap = or_else multi_ap (v.row.multi_ap);
          mode = or_else mode (v.row.mode);
        };
        ap_vlan_sta_addr = or_else addr v.ap_vlan_sta_addr;
      }
      else v)

-- The columns that vif_ap_state_get takes from the interface, before the security.
unfoldable pub bss_row : VapInfo → Row → Row
unfolding enable_text
bss_row v row =
    let b = v.bss in
    record row {
      enabled = some b.enabled;
      mode = some (bytes "ap");
      wds = some false;
      ssid = some b.ssid;
      ap_bridge = some (not b.isolation);
      ssid_broadcast = some (enable_text b.show_ssid);
      rrm = some b.nbr_report;
      btm = some b.bss_transition;
      uapsd_enable = some b.uapsd;
      bridge = if str_eq v.bridge_name [] then none else some v.bridge_name;
    }

-- The row of an access point: what the interface says, its security and access list, WPS.
unfoldable pub ap_row : Kconfig → VifHal → (ℕ → CString) → VapInfo → Row → Row
unfolding bss_row get_security acl_to_state add_wps
ap_row kc hal key_ids v row =
    let r1 = bss_row v row in
    let r2 = record r1 { sec = (get_security kc hal key_ids v.vap_index v.bss r1.sec).0 } in
    add_wps kc hal v.vap_index (acl_to_state kc hal v r2).0

unfoldable pub ap_state : Kconfig → VifHal → (ℕ → CString) → VapInfo → VifState → VifState
unfolding ap_row add_multi_ap
ap_state kc hal key_ids v st =
    let st1 = record st { row = ap_row kc hal key_ids v (st.row); mac = some v.bss.bssid } in
    let st2 = add_multi_ap kc hal v.vap_index st1 in
    record st2 { row = record (st2.row) { mcast2ucast = some v.bss.mcast2ucast } }

unfoldable pub vif_ap_state_get :
    Kconfig → VifHal → (ℕ → CString) → VapInfo → VifState → Option VifState
unfolding get_channel ap_state
vif_ap_state_get kc hal key_ids v st = elim (get_channel hal v.vap_index st) [
  | none ↦ none
  | some st1 ↦ some (ap_state kc hal key_ids v st1)
]

abbrev pub zero_mac : CString
zero_mac = bytes "00:00:00:00:00:00"

abbrev pub unless_zero : CString → Option CString → Option CString
unless_zero mac old = if str_eq mac zero_mac then old else some mac

-- The "mode" of a station's security, for three modes.
unfoldable pub sta_mode : SecurityModes → List (CString × CString)
sta_mode wpa_wpa2_personal = (bytes "mode", bytes "mixed") ∷ []
sta_mode wpa2_personal = (bytes "mode", bytes "2") ∷ []
sta_mode wpa_personal = (bytes "mode", bytes "1") ∷ []
sta_mode m = []

unfoldable pub vif_sta_state_get : VapInfo → VifState → VifState
unfolding sta_mode
vif_sta_state_get v st =
    let i = v.sta in
    let ssid = (if str_eq i.ssid [] then (st.row.ssid) else some i.ssid) in
    record st {
      row = record (st.row) {
        enabled = some i.enabled;
        mode = some (bytes "sta");
        ssid = ssid;
        parent = unless_zero i.bssid (st.row.parent);
        wds = some false;
      };
      vif_radio_idx = some 0;
      mac = unless_zero i.mac st.mac;
      channel = if i.channel == 0 then st.channel else some i.channel;
      sta_security =
          if str_eq (text ssid) []
          then st.sta_security
          else st.sta_security
            ++ ((bytes "encryption", bytes "WPA-PSK") ∷ (bytes "key", i.key) ∷ sta_mode i.mode);
    }

-- A cleared struct.
abbrev pub no_state : VifState
no_state = record {
  row = no_row;
  mac = none;
  channel = none;
  vif_radio_idx = none;
  ap_vlan_sta_addr = none;
  sta_security = [];
}

unfoldable pub vif_state_get : Kconfig → VifHal → (ℕ → CString) → ℕ → Option VifState
unfolding ssid_index_to_vap_info vif_ap_state_get vif_sta_state_get
vif_state_get kc hal key_ids i = elim (ssid_index_to_vap_info hal i) [
  | none ↦ none
  | some v ↦
      let st = record no_state {
        row = record no_row { if_name = some (hal.unmap_ifname v.vap_name) };
      } in
      elim (v.vap_mode) [
        | vap_ap ↦ vif_ap_state_get kc hal key_ids v st
        | vap_sta ↦ some (vif_sta_state_get v st)
        | vap_other ↦ some st
      ]
]

-- vif_state_update: what radio_rops_vstate is called with, if it is.
unfoldable pub vif_state_update : Kconfig → VifHal → (ℕ → CString) → ℕ → Option (VifState × CString)
unfolding vif_state_get vif_get_radio_ifname
vif_state_update kc hal key_ids i = elim (vif_state_get kc hal key_ids i) [
  | none ↦ none
  | some st ↦ elim (vif_get_radio_ifname hal i) [ none ↦ none | some name ↦ some (st, name) ]
]

-- A column set from another that may have no value: it gets the value of a cleared struct then.
abbrev pub set_flag : Option Bool → Option Bool
set_flag o = some (flag o)

abbrev pub set_text : Option CString → Option CString
set_text o = some (text o)

-- The security columns of vif_copy_to_config.
unfoldable pub copy_security : Security → Security
copy_security v = record no_security {
  wpa = set_flag v.wpa;
  wpa_key_mgmt = v.wpa_key_mgmt;
  wpa_psks = v.wpa_psks;
  radius_srv_addr = v.radius_srv_addr;
  radius_srv_port = v.radius_srv_port;
  radius_srv_secret = v.radius_srv_secret;
  wpa_pairwise_tkip = set_flag v.wpa_pairwise_tkip;
  wpa_pairwise_ccmp = set_flag v.wpa_pairwise_ccmp;
  rsn_pairwise_tkip = set_flag v.rsn_pairwise_tkip;
  rsn_pairwise_ccmp = set_flag v.rsn_pairwise_ccmp;
  pmf = set_text v.pmf;
}

unfoldable pub copy_acl_to_config : Row → VifConfig → VifConfig
copy_acl_to_config v conf = record conf {
  mac_list_type = set_text v.mac_list_type;
  mac_list_present = v.mac_list_present;
  mac_list = conf.mac_list ++ v.mac_list;
}

-- vif_copy_to_config. It tests the columns uapsd_enable, wps, wps_pbc and wps_pbc_key_id of the
-- configuration, which it has cleared, so that it sets none of them.
unfoldable pub vif_copy_to_config : Row → VifConfig
unfolding copy_security copy_acl_to_config
vif_copy_to_config v = copy_acl_to_config v (record no_row {
  if_name = set_text v.if_name;
  mode = set_text v.mode;
  enabled = set_flag v.enabled;
  bridge = v.bridge;
  ap_bridge = set_flag v.ap_bridge;
  wds = set_flag v.wds;
  ssid_broadcast = set_text v.ssid_broadcast;
  ssid = set_text v.ssid;
  rrm = set_flag v.rrm;
  btm = set_flag v.btm;
  sec = copy_security v.sec;
})
