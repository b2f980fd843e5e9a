-- ===== src/Vif/Resync.antt =====
-- The configuration of an interface with what its state reports, src/lib/target/src/vif.c.
use opensync_platform_rdk.Common.{
  ℕ, Bool, true, false, not, [], ◌∷◌, none, some, if◌then◌else◌, ◌≡◌, ◌≢◌, refl, sym, ap, ◌∙◌, inl,
  inr, Bool-cases, CString, str_eq, subst,
}
use opensync_platform_rdk.Vif.Types.{
  mode_other, vap_ap, BssInfo, VapInfo, Row, VifConfig, VifState, Flags, Kconfig, sync_broadcast,
  VifHal,
}
use opensync_platform_rdk.Vif.Security.{flag, text}
use opensync_platform_rdk.Vif.Acl.{acl_apply}
use opensync_platform_rdk.Vif.State.{
  enable_text, copy_acl_to_config, vif_copy_to_config, vif_state_get, ssid_index_to_vap_info,
}
use opensync_platform_rdk.Vif.Config.{
  VifChange, call, set_bss, broadcast_of, set_security, set_flags, set_broadcast, set_ssid,
  set_bridge, set_acl, configure_first, configure_rest, set_wps, set_multi_ap, set_mcast2ucast,
  reconfigure, vif_ap_config_set2,
}
use opensync_platform_rdk.Vif.Reports.{Reports, state-Reports}
use opensync_platform_rdk.Vif.Pushed.{Says}
use opensync_platform_rdk.Vif.Kept.{security-vap, apply-vap}

-- One field of an interface that is v, set to what v has.
step-vap :
    (v : VapInfo) (changed : Bool) (f : BssInfo → BssInfo) (c : VifChange)
    → c.vap ≡ v
    → f v.bss ≡ v.bss
    → (set_bss changed f c).vap ≡ v
step-vap v true f c h e =
    ap (λ (x : VapInfo). record x { bss = f x.bss }) h
    ∙ ap (λ (b : BssInfo). record v { bss = b }) e
step-vap v false f c h e = h

not-not : (b : Bool) → not (not b) ≡ b
not-not true = refl
not-not false = refl

flags-vap :
    (kc : Kconfig) (v : VapInfo) (r : Row) (changed : Flags) (c : VifChange)
    → Reports kc v r
    → changed.uapsd_enable ≡ false
    → c.vap ≡ v
    → (set_flags (vif_copy_to_config r) changed c).vap ≡ v
unfolding set_flags vif_copy_to_config copy_acl_to_config
flags-vap kc v r changed c says quiet h =
    let conf = vif_copy_to_config r in
    let f1 : BssInfo → BssInfo = λ b. record b { isolation = not (flag conf.ap_bridge) } in
    let f2 : BssInfo → BssInfo = λ b. record b { nbr_report = flag conf.rrm } in
    let f3 : BssInfo → BssInfo = λ b. record b { bss_transition = flag conf.btm } in
    let c1 = set_bss changed.ap_bridge f1 c in
    let c2 = set_bss changed.rrm f2 c1 in
    let h1 : c1.vap ≡ v = step-vap v changed.ap_bridge f1 c h (
      ap (λ o. record v.bss { isolation = not (flag o) }) says.ap_bridge
      ∙ ap (λ x. record v.bss { isolation = x }) (not-not v.bss.isolation)) in
    let h2 : c2.vap ≡ v =
      step-vap v changed.rrm f2 c1 h1 (ap (λ o. record v.bss { nbr_report = flag o }) says.rrm) in
    rw (set_flags, quiet)
      (step-vap v changed.btm f3 c2 h2
        (ap (λ o. record v.bss { bss_transition = flag o }) says.btm))

broadcast-back : (b : Bool) → broadcast_of (enable_text b) ≡ some b
unfolding broadcast_of enable_text
broadcast-back true = refl
broadcast-back false = refl

broadcast-vap :
    (kc : Kconfig) (i : ℕ) (v : VapInfo) (r : Row) (changed : Flags) (c : VifChange)
    → Reports kc v r
    → c.vap ≡ v
    → (c' : VifChange) × (set_broadcast kc i (vif_copy_to_config r) changed c ≡ some c')
      × (c'.vap ≡ v)
unfolding set_broadcast vif_copy_to_config copy_acl_to_config
broadcast-vap kc i v r changed c says h =
    let b = v.bss.show_ssid in
    let t : broadcast_of (text ((vif_copy_to_config r).ssid_broadcast)) ≡ some b =
      ap (λ o. broadcast_of (text o)) says.broadcast ∙ broadcast-back b in
    let f : BssInfo → BssInfo = λ x. record x { show_ssid = b } in
    let c1 = set_bss true f c in
    let h1 : c1.vap ≡ v = step-vap v true f c h refl in
    elim (Bool-cases changed.ssid_broadcast) [
      | inr e ↦ (c, rw (set_broadcast, e) refl, h)
      | inl e ↦ elim (Bool-cases kc.disable_sync) [
        | inl g ↦ (c1, rw (set_broadcast, e, t, g) refl, h1)
        | inr g ↦ (call (sync_broadcast i b) c1, rw (set_broadcast, e, t, g) refl, h1)
      ]
    ]

ssid-vap :
    (kc : Kconfig) (i : ℕ) (v : VapInfo) (r : Row) (changed : Flags) (c : VifChange)
    → Reports kc v r
    → c.vap ≡ v
    → (set_ssid kc i (vif_copy_to_config r) changed c).vap ≡ v
unfolding set_ssid vif_copy_to_config copy_acl_to_config
ssid-vap kc i v r changed c says h =
    let f : BssInfo → BssInfo = λ b. record b { ssid = text ((vif_copy_to_config r).ssid) } in
    let h1 : (set_bss true f c).vap ≡ v =
      step-vap v true f c h (ap (λ o. record v.bss { ssid = text o }) says.ssid) in
    elim (Bool-cases changed.ssid) [
      | inr e ↦ rw (set_ssid, e) h
      | inl e ↦ elim (Bool-cases kc.disable_sync) [
        | inl g ↦ rw (set_ssid, e, g) h1
        | inr g ↦ rw (set_ssid, e, g) h1
      ]
    ]

bridge_text : (s : CString) → text (if str_eq s [] then none else some s) ≡ s
bridge_text [] = refl
bridge_text (x ∷ xs) = refl

bridge-vap :
    (kc : Kconfig) (v : VapInfo) (r : Row) (changed : Flags) (c : VifChange)
    → Reports kc v r
    → c.vap ≡ v
    → (set_bridge (vif_copy_to_config r) changed c).vap ≡ v
unfolding set_bridge vif_copy_to_config copy_acl_to_config
bridge-vap kc v r changed c says h =
    let t = ap text says.bridge ∙ bridge_text v.bridge_name in
    elim (Bool-cases changed.bridge) [
      | inr e ↦ rw (set_bridge, e) h
      | inl e ↦
          rw (set_bridge, e)
            (ap (λ (x : VapInfo). record x { bridge_name = text r.bridge }) h
              ∙ ap (λ s. record v { bridge_name = s }) t)
    ]

acl-vap :
    (kc : Kconfig) (hal : VifHal) (i : ℕ) (v : VapInfo) (r : Row) (changed : Flags) (c : VifChange)
    → Reports kc v r
    → c.vap ≡ v
    → (set_acl kc hal i (vif_copy_to_config r) changed c).vap ≡ v
unfolding set_acl vif_copy_to_config copy_acl_to_config
acl-vap kc hal i v r changed c says h =
    let conf = vif_copy_to_config r in
    ap (λ x. (acl_apply kc hal i conf changed c.trigger x).0) h
    ∙ apply-vap kc hal i conf changed c.trigger v (λ e. ap (λ o. some (text o)) (says.acl e))

wps-vap :
    (kc : Kconfig) (hal : VifHal) (i : ℕ) (conf : VifConfig) (changed : Flags) (c : VifChange)
    → (set_wps kc hal i conf changed c).vap ≡ c.vap
unfolding set_wps
wps-vap kc hal i conf changed c = elim (Bool-cases kc.wps_support) [
  | inl e ↦ rw (set_wps, e) refl
  | inr e ↦ rw (set_wps, e) refl
]

multi_ap-vap :
    (kc : Kconfig) (i : ℕ) (conf : VifConfig) (changed : Flags) (c : VifChange)
    → (set_multi_ap kc i conf changed c).vap ≡ c.vap
unfolding set_multi_ap
multi_ap-vap kc i conf changed c = elim (Bool-cases kc.multi_ap_support) [
  | inl e ↦ rw (set_multi_ap, e) refl
  | inr e ↦ rw (set_multi_ap, e) refl
]

reconfigure-vap : (c : VifChange) → (reconfigure c).vap ≡ c.vap
unfolding reconfigure
reconfigure-vap c = elim (Bool-cases c.trigger) [
  | inl e ↦ rw (reconfigure, e) refl
  | inr e ↦ rw (reconfigure, e) refl
]

first-vap :
    (kc : Kconfig) (hal : VifHal) (i : ℕ) (v : VapInfo) (r : Row) (changed : Flags) (c : VifChange)
    → Reports kc v r
    → changed.uapsd_enable ≡ false
    → c.vap ≡ v
    → (configure_first kc hal i (vif_copy_to_config r) changed c).vap ≡ v
unfolding configure_first vif_copy_to_config copy_acl_to_config
first-vap kc hal i v r changed c says quiet h =
    let conf = vif_copy_to_config r in
    let f : BssInfo → BssInfo = λ b. record b { enabled = flag conf.enabled } in
    let c1 = set_bss changed.enabled f c in
    let h1 : c1.vap ≡ v =
      step-vap v changed.enabled f c h (ap (λ o. record v.bss { enabled = flag o }) says.enabled) in
    let c2 = set_security kc hal i conf.sec changed c1 in
    let says1 = subst (λ (x : VapInfo). Says x.bss conf.sec) (sym h1) says.sec in
    flags-vap kc v r changed c2 says quiet (security-vap kc hal i conf.sec changed c1 says1 ∙ h1)

rest-vap :
    (kc : Kconfig) (hal : VifHal) (i : ℕ) (v : VapInfo) (r : Row) (changed : Flags) (c : VifChange)
    → Reports kc v r
    → changed.mcast2ucast ≡ false
    → c.vap ≡ v
    → (configure_rest kc hal i (vif_copy_to_config r) changed c).vap ≡ v
unfolding configure_rest set_mcast2ucast
rest-vap kc hal i v r changed c says quiet h =
    let conf = vif_copy_to_config r in
    let c1 = set_ssid kc i conf changed c in
    let c2 = set_bridge conf changed c1 in
    let c3 = set_acl kc hal i conf changed c2 in
    let c4 = set_wps kc hal i conf changed c3 in
    let h2 = bridge-vap kc v r changed c1 says (ssid-vap kc i v r changed c says h) in
    let still : (set_mcast2ucast hal conf changed (set_multi_ap kc i conf changed c4)).vap
        ≡ (set_multi_ap kc i conf changed c4).vap =
      rw (set_mcast2ucast, quiet) refl in
    reconfigure-vap (set_mcast2ucast hal conf changed (set_multi_ap kc i conf changed c4))
    ∙ still
    ∙ multi_ap-vap kc i conf changed c4
    ∙ wps-vap kc hal i conf changed c3
    ∙ acl-vap kc hal i v r changed c2 says h2

-- The configuration that is copied from the state of an access point, whichever of its columns are
-- marked as changed but for the two that the copy leaves out, uapsd_enable and mcast2ucast, is
-- accepted and leaves every field of the interface as it is, if the mode of the interface's security
-- is one that the tables have.
pub resync-vap :
    (kc : Kconfig) (hal : VifHal) (ids : ℕ → CString) (i : ℕ) (v : VapInfo) (st : VifState)
    (changed : Flags) (c : VifChange)
    → ssid_index_to_vap_info hal i ≡ some v
    → v.vap_mode ≡ vap_ap
    → v.bss.mode ≢ mode_other
    → vif_state_get kc hal ids i ≡ some st
    → changed.uapsd_enable ≡ false
    → changed.mcast2ucast ≡ false
    → c.vap ≡ v
    → (c' : VifChange) × (vif_ap_config_set2 kc hal i (vif_copy_to_config (st.row)) changed c
        ≡ some c')
      × (c'.vap ≡ v)
unfolding vif_ap_config_set2
resync-vap kc hal ids i v st changed c found is_ap known got quiet multicast h =
    let conf = vif_copy_to_config (st.row) in
    let says = state-Reports kc hal ids i v st found is_ap known got in
    let h1 = first-vap kc hal i v (st.row) changed c says quiet h in
    let (c1, e, h2) =
      broadcast-vap kc i v (st.row) changed (configure_first kc hal i conf changed c) says h1 in
    (
      configure_rest kc hal i conf changed c1,
      rw (vif_ap_config_set2, e) refl,
      rest-vap kc hal i v (st.row) changed c1 says multicast h2,
    )
