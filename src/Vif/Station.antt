-- ===== src/Vif/Station.antt =====
-- The configuration of a station interface, src/lib/target/src/vif.c, and the two kinds of interface.
use opensync_platform_rdk.Common.{
  ℕ, zero, suc, Bool, true, false, ◌||◌, [], ◌∷◌, none, some, if◌then◌else◌, CString, bytes, str_eq,
}
use opensync_platform_rdk.Vif.Types.{
  SecurityModes, wpa_personal, wpa2_personal, wpa_wpa2_personal, StaInfo, VapMode, vap_sta,
  VifConfig, Flags, Kconfig, VifHal, VifStatics,
}
use opensync_platform_rdk.Vif.Security.{flag, text}
use opensync_platform_rdk.Vif.State.{ssid_index_to_vap_info}
use opensync_platform_rdk.Vif.Config.{
  VifChange, vif_ifname_to_idx, reconfigure, configure_first, vif_ap_config_set2,
}
use opensync_platform_rdk.Vif.Deferred.{Deferred, updated, vif_state_update_deferred}

-- What the call has of a station beside the shared columns: the map security of the configuration,
-- the credentials (the network and the key), and whether security and parent changed.
pub record StaConfig : Type 0 where
  pub mode : CString
  pub key : CString
  pub cred_ssid : CString
  pub cred_key : CString
  pub changed_security : Bool
  pub changed_parent : Bool

unfoldable pub sta_mode_of : CString → SecurityModes
sta_mode_of s =
    if str_eq s (bytes "mixed")
    then wpa_wpa2_personal
    else if str_eq s (bytes "2")
    then wpa2_personal
    else if str_eq s (bytes "1")
    then wpa_personal
    else wpa2_personal

-- The network that a station joins; the address is kept as its text, and the encryption and the kind
-- of key, which follow from the mode, are left out.
unfoldable pub sta_network : VifConfig → StaConfig → StaInfo → StaInfo
unfolding sta_mode_of
sta_network conf sc s =
    if str_eq (text conf.ssid) []
    then record s { mode = wpa2_personal; key = sc.cred_key; ssid = sc.cred_ssid }
    else record s {
      ssid = text conf.ssid;
      bssid = if str_eq (text conf.parent) [] then s.bssid else text conf.parent;
      mode = sta_mode_of sc.mode;
      key = sc.key;
    }

unfoldable pub sta_configure : VifConfig → StaConfig → Flags → VifChange → VifChange
unfolding sta_network reconfigure
sta_configure conf sc changed c =
    let c1 =
      (if changed.enabled
        then record c {
          vap = record (c.vap) { sta = record (c.vap.sta) { enabled = flag conf.enabled } };
          trigger = true;
        }
        else c) in
    let c2 =
      (if changed.ssid || sc.changed_security || sc.changed_parent
        then record c1 {
          vap = record (c1.vap) { sta = sta_network conf sc (c1.vap.sta) };
          trigger = true;
        }
        else c1) in
    reconfigure c2

-- The update of the state at the end, at once or after a delay.
unfoldable pub state_after : Kconfig → ℕ → Deferred → Deferred
unfolding vif_state_update_deferred
state_after kc i d = elim (kc.update_delay) [
  | zero ↦ record d { trace = updated i ∷ d.trace }
  | suc n ↦ vif_state_update_deferred i d
]

-- What target_vif_config_set2 does to an interface: the statics after it, and whether it goes on to
-- the update of the state.
unfoldable pub configure :
    Kconfig → VifHal → ℕ → VifConfig → StaConfig → Flags → VapMode → VifChange → VifStatics × Bool
unfolding sta_configure vif_ap_config_set2 configure_first
configure kc hal i conf sc changed vap_sta c = ((sta_configure conf sc changed c).statics, true)
configure kc hal i conf sc changed m c = elim (vif_ap_config_set2 kc hal i conf changed c) [
  | none ↦ ((configure_first kc hal i conf changed c).statics, false)
  | some c' ↦ (c'.statics, true)
]

-- target_vif_config_set2, with vif_sta_config_set2 for a station, which finds the same interface
-- again: the statics and the updates after the call, and its result.
unfoldable pub target_vif_config_set2 :
    Kconfig
    → VifHal
    → VifConfig
    → StaConfig
    → Flags
    → VifStatics
    → Deferred
    → (VifStatics × Deferred) × Bool
unfolding vif_ifname_to_idx ssid_index_to_vap_info configure state_after
target_vif_config_set2 kc hal conf sc changed st d =
    elim (vif_ifname_to_idx hal (text conf.if_name)) [
      | none ↦ ((st, d), false)
      | some i ↦ elim (ssid_index_to_vap_info hal i) [
        | none ↦ ((st, d), false)
        | some v ↦
            let c : VifChange = record { vap = v; trigger = false; statics = st } in
            let (st', goes_on) = configure kc hal i conf sc changed v.vap_mode c in
            (if goes_on then ((st', state_after kc i d), true) else ((st', d), false))
      ]
    ]
