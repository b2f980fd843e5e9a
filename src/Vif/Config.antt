-- ===== src/Vif/Config.antt =====
-- The configuration of an interface, src/lib/target/src/vif.c.
use opensync_platform_rdk.Common.{
  ℕ, Bool, true, false, not, ◌&&◌, ◌||◌, List, [], ◌∷◌, ◌++◌, map, Option, none, some,
  if◌then◌else◌, ◌==◌, ltb, CString, bytes, str_eq, length,
}
use opensync_platform_rdk.Wps
use opensync_platform_rdk.MultiAp.{vif_config_set_multi_ap}
use opensync_platform_rdk.Vif.Types.{
  mode_none, Mfp, mfp_disabled, mfp_optional, mfp_required, BssInfo, VapInfo, Security, VifConfig,
  Flags, Kconfig, VifHal, VifCall, create_vap, push_psks, sync_security, sync_ssid, sync_broadcast,
  set_device_type, wps_call, VifStatics,
}
use opensync_platform_rdk.Vif.Security.{
  flag, text, security_key_mgmt_ovsdb_to_hal, security_key_mgmt_ovsdb_to_sync,
}
use opensync_platform_rdk.Vif.Acl.{acl_apply}

-- The interface under change, trigger_reconfig, and the statics.
pub record VifChange : Type 0 where
  pub vap : VapInfo
  pub trigger : Bool
  pub statics : VifStatics

abbrev pub call : VifCall → VifChange → VifChange
call k c = record c { statics = record (c.statics) { calls = (c.statics.calls) ++ k ∷ [] } }

abbrev pub calls : List VifCall → VifChange → VifChange
calls ks c = record c { statics = record (c.statics) { calls = (c.statics.calls) ++ ks } }

-- A field of bss_info set under a flag that also makes the interface be configured anew.
abbrev pub set_bss : Bool → (BssInfo → BssInfo) → VifChange → VifChange
set_bss changed f c =
    if changed then record c { vap = record (c.vap) { bss = f (c.vap.bss) }; trigger = true } else c

abbrev pub first_psk : List (CString × CString) → CString × CString
first_psk [] = ([], [])
first_psk (k ∷ ks) = k

abbrev pub other_psks : List (CString × CString) → List (CString × CString)
other_psks [] = []
other_psks (k ∷ ks) = ks

unfoldable pub set_password : Kconfig → VifHal → ℕ → Security → VifChange → VifChange × Bool
set_password kc hal i v c =
    let (id, key) = first_psk v.wpa_psks in
    let vap1 = record (c.vap) { bss = record (c.vap.bss) { key = key } } in
    let ids : ℕ → CString = λ j. (if j == i then id else (c.statics.key_ids j)) in
    let c1 = record c { vap = vap1; statics = record (c.statics) { key_ids = ids } } in
    let push = push_psks i (other_psks v.wpa_psks) in
    (if kc.multi_psk then (call push c1, hal.accepts push) else (c1, true))

unfoldable pub mfp_of : CString → Mfp
mfp_of s =
    if str_eq s (bytes "optional")
    then mfp_optional
    else if str_eq s (bytes "required")
    then mfp_required
    else mfp_disabled

-- The message that is sent to the mesh agent: the mode's name and the first key.
unfoldable pub send_security_sync : Kconfig → ℕ → Security → Bool → VifChange → VifChange
unfolding security_key_mgmt_ovsdb_to_sync
send_security_sync kc i v opens c =
    let name = (if opens then bytes "None" else text (security_key_mgmt_ovsdb_to_sync v)) in
    (if not kc.disable_sync && not kc.multi_psk
      then call (sync_security i name ((first_psk v.wpa_psks).1)) c
      else c)

-- The mode and the protection of management frames, under the flags of their columns: `none` for
-- columns that give no mode. The second result is send_sync.
unfoldable pub set_mode : Security → Flags → VifChange → Option (VifChange × Bool)
unfolding security_key_mgmt_ovsdb_to_hal mfp_of
set_mode v changed c =
    if changed.wpa_key_mgmt || changed.pairwise || changed.pmf
    then elim (security_key_mgmt_ovsdb_to_hal v) [
      | none ↦ none
      | some m ↦ some (set_bss true (λ b. record b { mode = m; mfp = mfp_of (text v.pmf) }) c, true)
    ]
    else some (c, false)

-- The keys, and what follows them.
unfoldable pub set_keys : Kconfig → VifHal → ℕ → Security → Flags → VifChange → Bool → VifChange
unfolding set_password send_security_sync
set_keys kc hal i v changed c sync =
    let (c1, ok) = set_password kc hal i v c in
    let unsent = (if sync then send_security_sync kc i v false c1 else c1) in
    let unchanged = (if sync then send_security_sync kc i v false c else c) in
    (if changed.wpa_psks && not (length v.wpa_psks == 0)
      then (if ok then send_security_sync kc i v false (record c1 { trigger = true }) else unsent)
      else unchanged)

unfoldable pub set_security : Kconfig → VifHal → ℕ → Security → Flags → VifChange → VifChange
unfolding set_mode set_keys send_security_sync
set_security kc hal i v changed c =
    if changed.wpa && not (flag v.wpa)
    then send_security_sync kc i v true (set_bss true (λ b. record b { mode = mode_none }) c)
    else elim (set_mode v changed c) [
      | none ↦ c
      | some (c1, sync) ↦ set_keys kc hal i v changed c1 sync
    ]

unfoldable pub name_index : CString → List (CString × ℕ) → Option ℕ
name_index s [] = none
name_index s ((n, i) ∷ rest) = if str_eq n s then some i else name_index s rest

unfoldable pub vif_ifname_to_idx : VifHal → CString → Option ℕ
unfolding name_index
vif_ifname_to_idx hal ifname = elim (hal.interface_map) [
  | none ↦ none
  | some m ↦ name_index ifname m
]

-- get_radio_cap_index with what it selects, on the capabilities of `n` radios.
unfoldable pub radio_cap : ℕ → List (ℕ × Bool) → Option Bool
radio_cap i [] = none
radio_cap i ((j, supported) ∷ rest) = if i == j then some supported else radio_cap i rest

unfoldable pub get_mcast2ucast_supported : VifHal → ℕ → Option Bool
unfolding radio_cap
get_mcast2ucast_supported hal i = elim (hal.radio_caps) [
  | none ↦ none
  | some caps ↦ if ltb i (length caps) then radio_cap i caps else none
]

-- The flags that only copy a value.
unfoldable pub set_flags : VifConfig → Flags → VifChange → VifChange
set_flags conf changed c =
    set_bss changed.uapsd_enable (λ b. record b { uapsd = flag conf.uapsd_enable })
      (set_bss changed.btm (λ b. record b { bss_transition = flag conf.btm })
        (set_bss changed.rrm (λ b. record b { nbr_report = flag conf.rrm })
          (set_bss changed.ap_bridge (λ b. record b { isolation = not (flag conf.ap_bridge) }) c)))

unfoldable pub broadcast_of : CString → Option Bool
broadcast_of s =
    if str_eq s (bytes "enabled")
    then some true
    else if str_eq s (bytes "disabled")
    then some false
    else none

-- `none` where target_vif_config_set2 returns false for an unknown value.
unfoldable pub set_broadcast : Kconfig → ℕ → VifConfig → Flags → VifChange → Option VifChange
unfolding broadcast_of
set_broadcast kc i conf changed c =
    if changed.ssid_broadcast
    then elim (broadcast_of (text conf.ssid_broadcast)) [
      | none ↦ none
      | some b ↦
          let c1 = set_bss true (λ x. record x { show_ssid = b }) c in
          some (if kc.disable_sync then c1 else call (sync_broadcast i b) c1)
    ]
    else some c

unfoldable pub set_ssid : Kconfig → ℕ → VifConfig → Flags → VifChange → VifChange
set_ssid kc i conf changed c =
    let c1 = set_bss true (λ x. record x { ssid = text conf.ssid }) c in
    (if changed.ssid
      then (if kc.disable_sync then c1 else call (sync_ssid i (text conf.ssid)) c1)
      else c)

unfoldable pub set_bridge : VifConfig → Flags → VifChange → VifChange
set_bridge conf changed c =
    if changed.bridge
    then record c { vap = record (c.vap) { bridge_name = text conf.bridge }; trigger = true }
    else c

unfoldable pub set_acl : Kconfig → VifHal → ℕ → VifConfig → Flags → VifChange → VifChange
unfolding acl_apply
set_acl kc hal i conf changed c =
    let (v, trigger, ks) = acl_apply kc hal i conf changed c.trigger c.vap in
    calls ks (record c { vap = v; trigger = trigger })

unfoldable pub set_wps : Kconfig → VifHal → ℕ → VifConfig → Flags → VifChange → VifChange
set_wps kc hal i conf changed c =
    let (ks, cleared) =
      Wps.vif_config_set_wps hal.wps i (flag conf.wps) (flag conf.wps_pbc)
        (text conf.wps_pbc_key_id) changed.wps in
    (if kc.wps_support then calls (map wps_call ks) c else c)

unfoldable pub set_multi_ap : Kconfig → ℕ → VifConfig → Flags → VifChange → VifChange
unfolding vif_config_set_multi_ap
set_multi_ap kc i conf changed c =
    if kc.multi_ap_support
    then calls
        (map (set_device_type i) (vif_config_set_multi_ap (text conf.multi_ap) changed.multi_ap)) c
    else c

unfoldable pub set_mcast2ucast : VifHal → VifConfig → Flags → VifChange → VifChange
unfolding get_mcast2ucast_supported
set_mcast2ucast hal conf changed c =
    if changed.mcast2ucast
    then elim (get_mcast2ucast_supported hal (c.vap.radio_index)) [
      | none ↦ c
      | some supported ↦
          (if not supported && flag conf.mcast2ucast
            then c
            else set_bss true (λ b. record b { mcast2ucast = flag conf.mcast2ucast }) c)
    ]
    else c

-- The call that configures the interface anew.
unfoldable pub reconfigure : VifChange → VifChange
reconfigure c = if c.trigger then call (create_vap (c.vap.radio_index) c.vap) c else c

-- target_vif_config_set2 on an access point, before the column ssid_broadcast and after it.
unfoldable pub configure_first : Kconfig → VifHal → ℕ → VifConfig → Flags → VifChange → VifChange
unfolding set_security set_flags
configure_first kc hal i conf changed c =
    let c1 = set_bss changed.enabled (λ b. record b { enabled = flag conf.enabled }) c in
    set_flags conf changed (set_security kc hal i conf.sec changed c1)

unfoldable pub configure_rest : Kconfig → VifHal → ℕ → VifConfig → Flags → VifChange → VifChange
unfolding set_ssid set_bridge set_acl set_wps set_multi_ap set_mcast2ucast reconfigure
configure_rest kc hal i conf changed c =
    let c1 = set_bridge conf changed (set_ssid kc i conf changed c) in
    let c2 = set_wps kc hal i conf changed (set_acl kc hal i conf changed c1) in
    reconfigure (set_mcast2ucast hal conf changed (set_multi_ap kc i conf changed c2))

-- Up to the update of the state that follows; `none` for the return before it.
unfoldable pub vif_ap_config_set2 :
    Kconfig → VifHal → ℕ → VifConfig → Flags → VifChange → Option VifChange
unfolding configure_first set_broadcast configure_rest
vif_ap_config_set2 kc hal i conf changed c =
    elim (set_broadcast kc i conf changed (configure_first kc hal i conf changed c)) [
      | none ↦ none
      | some c1 ↦ some (configure_rest kc hal i conf changed c1)
    ]
