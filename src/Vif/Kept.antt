-- ===== src/Vif/Kept.antt =====
-- What the configuration of an interface leaves as it is, src/lib/target/src/vif.c, where the columns
-- say what the interface has.
use opensync_platform_rdk.Common.{
  ℕ, Bool, true, false, not, ◌&&◌, ◌||◌, Option, none, some, if◌then◌else◌, ◌==◌, ◌≡◌, ◌⊎◌, refl,
  sym, ap, ◌∙◌, arith, inl, inr, Bool-cases, Option-cases, CString, bytes, length,
}
use opensync_platform_rdk.Vif.Types.{
  mode_none, FilterMode, white_list, black_list, filter_other, BssInfo, VapInfo, Security, Row,
  VifConfig, Flags, Kconfig, VifHal,
}
use opensync_platform_rdk.Vif.Security.{flag, text}
use opensync_platform_rdk.Vif.Acl.{
  acl_to_row, acl_listed, is_home_ap, acl_mode_text, acl_mode_of, apply_type, acl_apply,
}
use opensync_platform_rdk.Vif.Config.{
  VifChange, set_bss, first_psk, mfp_of, set_mode, set_keys, set_password, send_security_sync,
  set_security,
}
use opensync_platform_rdk.Vif.Pushed.{Says}

and_not : (a b : Bool) → (a && not b) ≡ true → b ≡ false
and_not true false h = refl
and_not true true h = ground (arith, h)
and_not false true h = ground (arith, h)
and_not false false h = refl

pub set_bss-vap :
    (changed : Bool) (f : BssInfo → BssInfo) (c : VifChange)
    → f (c.vap.bss) ≡ (c.vap.bss)
    → (set_bss changed f c).vap ≡ c.vap
set_bss-vap true f c e = ap (λ b. record (c.vap) { bss = b }) e
set_bss-vap false f c e = refl

sync-vap :
    (kc : Kconfig) (i : ℕ) (v : Security) (opens : Bool) (c : VifChange)
    → (send_security_sync kc i v opens c).vap ≡ c.vap
unfolding send_security_sync
sync-vap kc i v opens c = elim (Bool-cases (not kc.disable_sync && not kc.multi_psk)) [
  | inl e ↦ rw (send_security_sync, e) refl
  | inr e ↦ rw (send_security_sync, e) refl
]

password-vap :
    (kc : Kconfig) (hal : VifHal) (i : ℕ) (v : Security) (c : VifChange)
    → (first_psk v.wpa_psks).1 ≡ (c.vap.bss.key)
    → (set_password kc hal i v c).0.vap ≡ c.vap
unfolding set_password
password-vap kc hal i v c e = elim (Bool-cases kc.multi_psk) [
  | inl f ↦
      rw (set_password, f) (ap (λ k. record (c.vap) { bss = record (c.vap.bss) { key = k } }) e)
  | inr f ↦
      rw (set_password, f) (ap (λ k. record (c.vap) { bss = record (c.vap.bss) { key = k } }) e)
]

-- The message of the security, if it is due.
due-vap :
    (kc : Kconfig) (i : ℕ) (v : Security) (sync : Bool) (c : VifChange)
    → (if sync then send_security_sync kc i v false c else c).vap ≡ c.vap
due-vap kc i v true c = sync-vap kc i v false c
due-vap kc i v false c = refl

keys-vap :
    (kc : Kconfig) (hal : VifHal) (i : ℕ) (v : Security) (changed : Flags) (c : VifChange)
    (sync : Bool)
    → ((length v.wpa_psks == 0) ≡ false → (first_psk v.wpa_psks).1 ≡ (c.vap.bss.key))
    → (set_keys kc hal i v changed c sync).vap ≡ c.vap
unfolding set_keys
keys-vap kc hal i v changed c sync key =
    let c1 = (set_password kc hal i v c).0 in
    let ok = (set_password kc hal i v c).1 in
    elim (Bool-cases changed.wpa_psks) [
      | inr e ↦ rw (set_keys, e) (due-vap kc i v sync c)
      | inl e ↦ elim (Bool-cases (length v.wpa_psks == 0)) [
        | inl f ↦ rw (set_keys, e, f) (due-vap kc i v sync c)
        | inr f ↦ elim (Bool-cases ok) [
          | inl g ↦
              rw (set_keys, e, f, g)
                (sync-vap kc i v false (record c1 { trigger = true })
                  ∙ password-vap kc hal i v c (key f))
          | inr g ↦
              rw (set_keys, e, f, g) (due-vap kc i v sync c1 ∙ password-vap kc hal i v c (key f))
        ]
      ]
    ]

mode-vap :
    (v : Security) (changed : Flags) (c : VifChange)
    → Says (c.vap.bss) v
    → (c' : VifChange) × (sync : Bool) × (set_mode v changed c ≡ some (c', sync)) × (c'.vap ≡ c.vap)
unfolding set_mode
mode-vap v changed c says =
    let m = says.same_mode in
    let f : BssInfo → BssInfo =
      λ b. record b { mode = c.vap.bss.mode; mfp = mfp_of (text v.pmf) } in
    let same = ap (λ x. record (c.vap.bss) { mfp = x }) says.same_mfp in
    elim (Bool-cases (changed.wpa_key_mgmt || changed.pairwise || changed.pmf)) [
      | inl e ↦ (set_bss true f c, true, rw (set_mode, e, m) refl, set_bss-vap true f c same)
      | inr e ↦ (c, false, rw (set_mode, e) refl, refl)
    ]

-- Columns that say what the interface has leave its security, whichever are marked as changed.
pub security-vap :
    (kc : Kconfig) (hal : VifHal) (i : ℕ) (v : Security) (changed : Flags) (c : VifChange)
    → Says (c.vap.bss) v
    → (set_security kc hal i v changed c).vap ≡ c.vap
unfolding set_security
security-vap kc hal i v changed c says = elim (Bool-cases (changed.wpa && not (flag v.wpa))) [
  | inl e ↦
      rw (set_security, e)
        (sync-vap kc i v true (set_bss true (λ b. record b { mode = mode_none }) c)
          ∙ set_bss-vap true (λ b. record b { mode = mode_none }) c
              (ap (λ m. record (c.vap.bss) { mode = m })
                (sym (says.open_mode (and_not changed.wpa (flag v.wpa) e)))))
  | inr e ↦
      let (c1, sync, f, g) = mode-vap v changed c says in
      rw (set_security, e, f)
        (keys-vap kc hal i v changed c1 sync
            (λ h. says.same_key h ∙ sym (ap (λ (x : VapInfo). x.bss.key) g))
          ∙ g)
]

-- The type of an access list, as the columns give it.
unfoldable pub type_text : Bool → FilterMode → CString
unfolding acl_mode_text
type_text enabled m = if enabled then text (acl_mode_text m) else bytes "none"

type-back :
    (enabled : Bool) (m : FilterMode) (b : BssInfo)
    → let b' = record b { filter_enable = enabled; filter_mode = m } in
      (apply_type (type_text enabled m) b' ≡ none) ⊎ (apply_type (type_text enabled m) b' ≡ some b')
unfolding apply_type type_text acl_mode_text acl_mode_of
type-back true white_list b = inr refl
type-back true black_list b = inr refl
type-back true filter_other b = inl refl
type-back false m b = inr refl

-- The column of the type after acl_to_row, and under acl_apply.
listed-type : (o : Option CString) (r : Row) → (acl_listed o r).0.mac_list_type ≡ r.mac_list_type
unfolding acl_listed
listed-type none r = refl
listed-type (some acl) r = ground arith

pub row-type :
    (hal : VifHal) (v : VapInfo) (r : Row)
    → (acl_to_row hal false v r).0.mac_list_type
      ≡ some (type_text v.bss.filter_enable v.bss.filter_mode)
unfolding acl_to_row type_text
row-type hal v r = elim (Bool-cases v.bss.filter_enable) [
  | inr e ↦ rw (acl_to_row, type_text, e) (listed-type (hal.acl_devices v.vap_index) _)
  | inl e ↦ elim (Option-cases (acl_mode_text v.bss.filter_mode)) [
    | inl f ↦ rw (acl_to_row, type_text, e, f) refl
    | inr (t, f) ↦ rw (acl_to_row, type_text, e, f) (listed-type (hal.acl_devices v.vap_index) _)
  ]
]

-- acl_apply leaves an interface whose type the columns say, unless it skips it.
pub apply-vap :
    (kc : Kconfig) (hal : VifHal) (i : ℕ) (conf : VifConfig) (changed : Flags) (trigger : Bool)
    (v : VapInfo)
    → ((not kc.sync_ext_home_acls && is_home_ap kc v.vap_name) ≡ false
        → conf.mac_list_type ≡ some (type_text v.bss.filter_enable v.bss.filter_mode))
    → (acl_apply kc hal i conf changed trigger v).0 ≡ v
unfolding acl_apply
apply-vap kc hal i conf changed trigger v says =
    elim (Bool-cases (not kc.sync_ext_home_acls && is_home_ap kc v.vap_name)) [
      | inl e ↦ rw (acl_apply, e) refl
      | inr e ↦ elim (Bool-cases changed.mac_list_type) [
        | inr f ↦ rw (acl_apply, e, f) refl
        | inl f ↦ elim (type-back v.bss.filter_enable v.bss.filter_mode v.bss) [
          | inl g ↦ rw (acl_apply, e, f, says e, g) refl
          | inr g ↦ rw (acl_apply, e, f, says e, g) refl
        ]
      ]
    ]
