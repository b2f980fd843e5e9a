-- ===== src/Vif/External.antt =====
-- Changes of interfaces that others made, src/lib/target/src/vif.c: the rows of Wifi_VIF_Config that
-- they update.
use opensync_platform_rdk.Common.{
  ℕ, true, false, [], ◌∷◌, ◌++◌, Option, none, some, if◌then◌else◌, CString, bytes,
}
use opensync_platform_rdk.Vif.Types.{
  SecurityModes, mode_none, BssInfo, Security, no_security, no_row, VifConfig, VifHal,
}
use opensync_platform_rdk.Vif.Security.{security_key_mgmt_hal_to_ovsdb}
use opensync_platform_rdk.Vif.Acl.{acl_to_config}
use opensync_platform_rdk.Vif.State.{ssid_index_to_vap_info}

-- `ap_name` is what wifi_getApName gives.
unfoldable pub vif_external_ssid_update :
    VifHal → Option CString → CString → ℕ → Option (VifConfig × CString)
vif_external_ssid_update hal ap_name ssid i = elim ap_name [
  | none ↦ none
  | some name ↦ elim (hal.ssid_radio_index i) [
    | none ↦ none
    | some radio_idx ↦ elim (hal.radio_if_name radio_idx) [
      | none ↦ none
      | some radio ↦
          some (record no_row { if_name = some (hal.unmap_ifname name); ssid = some ssid }, radio)
    ]
  ]
]

-- The columns of the security for a mode, `none` for one that the tables do not have.
unfoldable pub external_security : (ℕ → CString) → ℕ → BssInfo → SecurityModes → Option Security
unfolding security_key_mgmt_hal_to_ovsdb
external_security key_ids i b mode_none =
    some (record no_security { wpa = some false; pmf = some (bytes "disabled") })
external_security key_ids i b m =
    let (v, known) = security_key_mgmt_hal_to_ovsdb m no_security in
    (if known
      then some (record v { wpa = some true; wpa_psks = v.wpa_psks ++ (key_ids i, b.key) ∷ [] })
      else none)

unfoldable pub vif_external_security_update :
    VifHal → (ℕ → CString) → ℕ → Option (VifConfig × CString)
unfolding external_security ssid_index_to_vap_info
vif_external_security_update hal key_ids i = elim (ssid_index_to_vap_info hal i) [
  | none ↦ none
  | some v ↦ elim (hal.ssid_radio_index i) [
    | none ↦ none
    | some radio_idx ↦ elim (hal.radio_if_name radio_idx) [
      | none ↦ none
      | some radio ↦ elim (external_security key_ids i v.bss v.bss.mode) [
        | none ↦ none
        | some sec ↦
            some (record no_row { if_name = some (hal.unmap_ifname v.vap_name); sec = sec }, radio)
      ]
    ]
  ]
]

unfoldable pub vif_external_acl_update : VifHal → ℕ → Option (VifConfig × CString)
unfolding ssid_index_to_vap_info acl_to_config
vif_external_acl_update hal i = elim (ssid_index_to_vap_info hal i) [
  | none ↦ none
  | some v ↦ elim (hal.radio_if_name v.radio_index) [
    | none ↦ none
    | some radio ↦
        let (conf, ok) = acl_to_config hal v no_row in
        (if ok then some (record conf { if_name = some v.vap_name }, radio) else none)
  ]
]
