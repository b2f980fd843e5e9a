-- ===== src/Vif/Reports.antt =====
-- What the state of an access point says of it, src/lib/target/src/vif.c.
use mathlib.Core.Option.{some-injective, none-ne-some}
use opensync_platform_rdk.Common.{
  ℕ, Bool, true, false, not, ◌&&◌, [], Option, none, some, if◌then◌else◌, ◌==◌, ◌≡◌, ◌≢◌, refl, sym,
  ap, ◌∙◌, inl, inr, Bool-cases, Option-cases, CString, str_eq, subst,
}
use opensync_platform_rdk.Vif.Types.{
  mode_other, vap_ap, VapInfo, no_security, Row, no_row, VifState, Kconfig, VifHal,
}
use opensync_platform_rdk.Vif.Security.{get_security}
use opensync_platform_rdk.Vif.Acl.{acl_to_row, acl_to_state, is_home_ap}
use opensync_platform_rdk.Vif.State.{
  enable_text, bss_row, ap_row, ap_state, get_channel, add_wps, add_multi_ap, copy_security,
  vif_ap_state_get, vif_state_get, ssid_index_to_vap_info, no_state,
}
use opensync_platform_rdk.Vif.Columns.{Core, core, acl-core, wps-core}
use opensync_platform_rdk.Vif.Pushed.{Says, state-Says}
use opensync_platform_rdk.Vif.Kept.{row-type, type_text}

abbrev pub skips : Kconfig → VapInfo → Bool
skips kc v = not kc.sync_ext_home_acls && is_home_ap kc v.vap_name

-- What the row of an interface's state says of it.
pub record Reports (kc : Kconfig) (v : VapInfo) (r : Row) : Type 0 where
  pub enabled : r.enabled ≡ some v.bss.enabled
  pub bridge : r.bridge ≡ (if str_eq v.bridge_name [] then none else some v.bridge_name)
  pub ap_bridge : r.ap_bridge ≡ some (not v.bss.isolation)
  pub broadcast : r.ssid_broadcast ≡ some (enable_text v.bss.show_ssid)
  pub ssid : r.ssid ≡ some v.bss.ssid
  pub rrm : r.rrm ≡ some v.bss.nbr_report
  pub btm : r.btm ≡ some v.bss.bss_transition
  pub sec : Says v.bss (copy_security r.sec)
  pub acl :
      skips kc v ≡ false → r.mac_list_type ≡ some (type_text v.bss.filter_enable v.bss.filter_mode)

abbrev named : Option CString → Row
named name = record no_row { if_name = name }

ap_row-core :
    (kc : Kconfig) (hal : VifHal) (ids : ℕ → CString) (v : VapInfo) (name : Option CString)
    → core (ap_row kc hal ids v (named name))
      ≡ core (record (bss_row v (named name)) {
        sec = (get_security kc hal ids v.vap_index v.bss no_security).0;
      })
unfolding ap_row acl_to_state bss_row
ap_row-core kc hal ids v name =
    let r = record (bss_row v (named name)) {
      sec = (get_security kc hal ids v.vap_index v.bss no_security).0;
    } in
    wps-core kc hal v.vap_index (acl_to_state kc hal v r).0 ∙ acl-core hal (skips kc v) v r

wps-type :
    (kc : Kconfig) (hal : VifHal) (i : ℕ) (r : Row)
    → (add_wps kc hal i r).mac_list_type ≡ r.mac_list_type
unfolding add_wps
wps-type kc hal i r = elim (Bool-cases kc.wps_support) [
  | inl e ↦ rw (add_wps, e) refl
  | inr e ↦ rw (add_wps, e) refl
]

ap_row-type :
    (kc : Kconfig) (hal : VifHal) (ids : ℕ → CString) (v : VapInfo) (name : Option CString)
    → skips kc v ≡ false
    → (ap_row kc hal ids v (named name)).mac_list_type
      ≡ some (type_text v.bss.filter_enable v.bss.filter_mode)
unfolding ap_row acl_to_state bss_row
ap_row-type kc hal ids v name e =
    let r = record (bss_row v (named name)) {
      sec = (get_security kc hal ids v.vap_index v.bss no_security).0;
    } in
    wps-type kc hal v.vap_index (acl_to_state kc hal v r).0
    ∙ ap (λ b. (acl_to_row hal b v r).0.mac_list_type) e
    ∙ row-type hal v r

state-core :
    (kc : Kconfig) (hal : VifHal) (ids : ℕ → CString) (v : VapInfo) (st : VifState)
    → core ((ap_state kc hal ids v st).row) ≡ core (ap_row kc hal ids v (st.row))
unfolding ap_state add_multi_ap
state-core kc hal ids v st = elim (Bool-cases kc.multi_ap_support) [
  | inl e ↦ rw (ap_state, add_multi_ap, e) refl
  | inr e ↦ rw (ap_state, add_multi_ap, e) refl
]

state-type :
    (kc : Kconfig) (hal : VifHal) (ids : ℕ → CString) (v : VapInfo) (st : VifState)
    → (ap_state kc hal ids v st).row.mac_list_type ≡ (ap_row kc hal ids v (st.row)).mac_list_type
unfolding ap_state add_multi_ap
state-type kc hal ids v st = elim (Bool-cases kc.multi_ap_support) [
  | inl e ↦ rw (ap_state, add_multi_ap, e) refl
  | inr e ↦ rw (ap_state, add_multi_ap, e) refl
]

channel_if :
    (b : Bool) (st st1 : VifState) (n : ℕ)
    → some (if b then st else record st { channel = some n }) ≡ some st1
    → st1.row ≡ st.row
channel_if true st st1 n h = ap (λ (x : VifState). x.row) (sym (some-injective _ _ h))
channel_if false st st1 n h = ap (λ (x : VifState). x.row) (sym (some-injective _ _ h))

channel-row :
    (hal : VifHal) (i : ℕ) (st st1 : VifState) → get_channel hal i st ≡ some st1 → st1.row ≡ st.row
unfolding get_channel
channel-row hal i st st1 h = elim (Option-cases (hal.ssid_radio_index i)) [
  | inl e ↦ absurd (none-ne-some _ (sym (rw (get_channel, e) refl) ∙ h))
  | inr (r, e) ↦ elim (Option-cases (hal.radio_channel r)) [
    | inl f ↦ absurd (none-ne-some _ (sym (rw (get_channel, e, f) refl) ∙ h))
    | inr (n, f) ↦ channel_if (n == 0) st st1 n (sym (rw (get_channel, e, f) refl) ∙ h)
  ]
]

ap_state-Reports :
    (kc : Kconfig) (hal : VifHal) (ids : ℕ → CString) (v : VapInfo) (name : Option CString)
    (st : VifState)
    → v.bss.mode ≢ mode_other
    → st.row ≡ named name
    → Reports kc v ((ap_state kc hal ids v st).row)
unfolding bss_row
ap_state-Reports kc hal ids v name st known fresh =
    let e =
      state-core kc hal ids v st
      ∙ ap (λ x. core (ap_row kc hal ids v x)) fresh
      ∙ ap_row-core kc hal ids v name in
    record {
      enabled = ap (λ (x : Core). x.0) e;
      bridge = ap (λ (x : Core). x.1) e;
      ap_bridge = ap (λ (x : Core). x.2) e;
      broadcast = ap (λ (x : Core). x.3) e;
      ssid = ap (λ (x : Core). x.4) e;
      rrm = ap (λ (x : Core). x.5) e;
      btm = ap (λ (x : Core). x.6) e;
      sec =
          subst (λ s. Says v.bss (copy_security s)) (sym (ap (λ (x : Core). x.7) e))
            (state-Says kc hal ids v.vap_index v.bss known);
      acl = λ h.
          state-type kc hal ids v st
          ∙ ap (λ x. (ap_row kc hal ids v x).mac_list_type) fresh
          ∙ ap_row-type kc hal ids v name h;
    }

state-of :
    (kc : Kconfig) (hal : VifHal) (ids : ℕ → CString) (i : ℕ) (v : VapInfo)
    → ssid_index_to_vap_info hal i ≡ some v
    → v.vap_mode ≡ vap_ap
    → vif_state_get kc hal ids i
      ≡ vif_ap_state_get kc hal ids v
          (record no_state { row = named (some (hal.unmap_ifname v.vap_name)) })
unfolding vif_state_get
state-of kc hal ids i v found is_ap = rw (vif_state_get, found, is_ap) refl

state-none :
    (kc : Kconfig) (hal : VifHal) (ids : ℕ → CString) (v : VapInfo) (st : VifState)
    → get_channel hal v.vap_index st ≡ none
    → vif_ap_state_get kc hal ids v st ≡ none
unfolding vif_ap_state_get
state-none kc hal ids v st e = rw (vif_ap_state_get, e) refl

state-some :
    (kc : Kconfig) (hal : VifHal) (ids : ℕ → CString) (v : VapInfo) (st st1 : VifState)
    → get_channel hal v.vap_index st ≡ some st1
    → vif_ap_state_get kc hal ids v st ≡ some (ap_state kc hal ids v st1)
unfolding vif_ap_state_get
state-some kc hal ids v st st1 e = rw (vif_ap_state_get, e) refl

-- The row of an access point's state, as vif_state_get gives it.
pub state-Reports :
    (kc : Kconfig) (hal : VifHal) (ids : ℕ → CString) (i : ℕ) (v : VapInfo) (st : VifState)
    → ssid_index_to_vap_info hal i ≡ some v
    → v.vap_mode ≡ vap_ap
    → v.bss.mode ≢ mode_other
    → vif_state_get kc hal ids i ≡ some st
    → Reports kc v (st.row)
unfolding vif_state_get vif_ap_state_get
state-Reports kc hal ids i v st found is_ap known got =
    let name = some (hal.unmap_ifname v.vap_name) in
    let st0 = record no_state { row = named name } in
    let got' = sym (state-of kc hal ids i v found is_ap) ∙ got in
    elim (Option-cases (get_channel hal v.vap_index st0)) [
      | inl e ↦ absurd (none-ne-some _ (sym (state-none kc hal ids v st0 e) ∙ got'))
      | inr (st1, e) ↦
          let p = some-injective _ _ (sym (state-some kc hal ids v st0 st1 e) ∙ got') in
          subst (λ (x : VifState). Reports kc v x.row) p
            (ap_state-Reports kc hal ids v name st1 known (channel-row hal v.vap_index st0 st1 e))
    ]
