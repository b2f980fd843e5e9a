-- ===== src/Vif/Pushed.antt =====
-- The columns of security that the state of an interface has, src/lib/target/src/vif.c, and what the
-- configuration makes of them.
use opensync_platform_rdk.Common.{
  ℕ, Bool, true, false, not, ◌&&◌, List, [], ◌∷◌, ◌++◌, Option, none, some, ◌==◌, ◌≡◌, ◌≢◌, refl,
  sym, ap, ◌∙◌, arith, inl, inr, Bool-cases, Option-cases, CString, str_eq, length,
}
use opensync_platform_rdk.Vif.Types.{
  SecurityModes, mode_none, wpa_personal, wpa_wpa2_personal, wpa2_personal, wpa2_enterprise,
  wpa3_transition, wpa3_personal, mode_other, Mfp, mfp_disabled, mfp_optional, mfp_required,
  BssInfo, Security, no_security, Kconfig, VifHal,
}
use opensync_platform_rdk.Vif.Security.{
  flag, text, security_mode_map, key_mgmt_of, security_key_mgmt_hal_to_ovsdb, get_psks, pmf_text,
  get_enterprise_credentials, get_credentials, get_secured, get_security_of, get_security,
  append_psks, key_mgmt_match, security_wpa_key_mgmt_match, psk_mode,
  security_key_mgmt_ovsdb_to_hal,
}
use opensync_platform_rdk.Vif.State.{copy_security}
use opensync_platform_rdk.Vif.Config.{first_psk, mfp_of}

-- The columns that the credentials leave.
abbrev SecCore : Type 0
SecCore =
    Option Bool
    × List CString
    × Option Bool
    × Option Bool
    × Option Bool
    × Option Bool
    × Option CString

abbrev sec_core : Security → SecCore
sec_core v = (
  v.wpa, v.wpa_key_mgmt, v.wpa_pairwise_tkip, v.wpa_pairwise_ccmp, v.rsn_pairwise_tkip,
  v.rsn_pairwise_ccmp, v.pmf,
)

psks-core :
    (kc : Kconfig) (hal : VifHal) (ids : ℕ → CString) (i : ℕ) (key : CString) (v : Security)
    → sec_core (get_psks kc hal ids i key v).0 ≡ sec_core v
unfolding get_psks
psks-core kc hal ids i key v = elim (Bool-cases kc.multi_psk) [
  | inr e ↦ rw (get_psks, e) refl
  | inl e ↦ elim (Option-cases (hal.multi_psk_keys i)) [
    | inl f ↦ rw (get_psks, e, f) refl
    | inr (keys, f) ↦ rw (get_psks, e, f) refl
  ]
]

credentials-core :
    (kc : Kconfig) (hal : VifHal) (ids : ℕ → CString) (i : ℕ) (b : BssInfo) (m : SecurityModes)
    (v : Security)
    → sec_core (get_credentials kc hal ids i b m v).0 ≡ sec_core v
unfolding get_credentials get_enterprise_credentials
credentials-core kc hal ids i b wpa2_enterprise v = refl
credentials-core kc hal ids i b wpa_personal v = psks-core kc hal ids i b.key v
credentials-core kc hal ids i b wpa_wpa2_personal v = psks-core kc hal ids i b.key v
credentials-core kc hal ids i b wpa2_personal v = psks-core kc hal ids i b.key v
credentials-core kc hal ids i b wpa3_transition v = psks-core kc hal ids i b.key v
credentials-core kc hal ids i b wpa3_personal v = psks-core kc hal ids i b.key v
credentials-core kc hal ids i b mode_none v = psks-core kc hal ids i b.key v
credentials-core kc hal ids i b mode_other v = psks-core kc hal ids i b.key v

-- The columns that get_security fills, but for the credentials.
unfoldable columns : SecurityModes → Mfp → SecCore
unfolding security_mode_map key_mgmt_of pmf_text
columns mode_none mfp = (some false, [], none, none, none, none, some (pmf_text mfp))
columns m mfp = elim (security_mode_map m) [
  | none ↦ (some true, [], none, none, none, none, some (pmf_text mfp))
  | some (wt, wc, rt, rc) ↦
      (some true, key_mgmt_of m, some wt, some wc, some rt, some rc, some (pmf_text mfp))
]

-- The columns of security that get_security passes on to the credentials.
unfoldable with_mode : SecurityModes → Mfp → Security
unfolding security_key_mgmt_hal_to_ovsdb pmf_text
with_mode m mfp =
    (security_key_mgmt_hal_to_ovsdb m
      (record no_security { wpa = some true; pmf = some (pmf_text mfp) })).0

security-core :
    (kc : Kconfig) (hal : VifHal) (ids : ℕ → CString) (i : ℕ) (b : BssInfo) (m : SecurityModes)
    → sec_core (get_security_of kc hal ids i b m no_security).0 ≡ columns m b.mfp
unfolding with_mode get_security_of get_secured columns security_key_mgmt_hal_to_ovsdb
    security_mode_map key_mgmt_of
security-core kc hal ids i b mode_none = refl
security-core kc hal ids i b mode_other = refl
security-core kc hal ids i b wpa_personal =
    credentials-core kc hal ids i b wpa_personal (with_mode wpa_personal b.mfp)
security-core kc hal ids i b wpa_wpa2_personal =
    credentials-core kc hal ids i b wpa_wpa2_personal (with_mode wpa_wpa2_personal b.mfp)
security-core kc hal ids i b wpa2_personal =
    credentials-core kc hal ids i b wpa2_personal (with_mode wpa2_personal b.mfp)
security-core kc hal ids i b wpa2_enterprise =
    credentials-core kc hal ids i b wpa2_enterprise (with_mode wpa2_enterprise b.mfp)
security-core kc hal ids i b wpa3_transition =
    credentials-core kc hal ids i b wpa3_transition (with_mode wpa3_transition b.mfp)
security-core kc hal ids i b wpa3_personal =
    credentials-core kc hal ids i b wpa3_personal (with_mode wpa3_personal b.mfp)

-- The mode by the columns alone.
abbrev of_core : SecCore → Security
of_core (wpa, km, wt, wc, rt, rc, pmf) = record no_security {
  wpa = wpa;
  wpa_key_mgmt = km;
  wpa_pairwise_tkip = wt;
  wpa_pairwise_ccmp = wc;
  rsn_pairwise_tkip = rt;
  rsn_pairwise_ccmp = rc;
  pmf = pmf;
}

mode-core :
    (v : Security)
    → security_key_mgmt_ovsdb_to_hal (copy_security v)
      ≡ security_key_mgmt_ovsdb_to_hal (copy_security (of_core (sec_core v)))
unfolding copy_security security_key_mgmt_ovsdb_to_hal security_wpa_key_mgmt_match psk_mode
mode-core v = refl

columns-mode :
    (m : SecurityModes) (mfp : Mfp)
    → m ≢ mode_other
    → security_key_mgmt_ovsdb_to_hal (copy_security (of_core (columns m mfp))) ≡ some m
unfolding columns security_mode_map key_mgmt_of copy_security security_key_mgmt_ovsdb_to_hal
    security_wpa_key_mgmt_match key_mgmt_match psk_mode
columns-mode mode_none mfp h = refl
columns-mode mode_other mfp h = elim (h refl) [ ]
columns-mode wpa_personal mfp h = refl
columns-mode wpa_wpa2_personal mfp h = refl
columns-mode wpa2_personal mfp h = refl
columns-mode wpa2_enterprise mfp h = refl
columns-mode wpa3_transition mfp h = refl
columns-mode wpa3_personal mfp h = refl

pmf-back : (m : Mfp) → mfp_of (pmf_text m) ≡ m
unfolding mfp_of pmf_text
pmf-back mfp_disabled = refl
pmf-back mfp_optional = refl
pmf-back mfp_required = refl

columns-pmf : (m : SecurityModes) (mfp : Mfp) → (of_core (columns m mfp)).pmf ≡ some (pmf_text mfp)
unfolding columns security_mode_map
columns-pmf mode_none mfp = refl
columns-pmf wpa_personal mfp = refl
columns-pmf wpa_wpa2_personal mfp = refl
columns-pmf wpa2_personal mfp = refl
columns-pmf wpa2_enterprise mfp = refl
columns-pmf wpa3_transition mfp = refl
columns-pmf wpa3_personal mfp = refl
columns-pmf mode_other mfp = refl

columns-wpa :
    (m : SecurityModes) (mfp : Mfp) → flag (of_core (columns m mfp)).wpa ≡ false → m ≡ mode_none
unfolding columns security_mode_map
columns-wpa mode_none mfp h = refl
columns-wpa wpa_personal mfp h = ground (arith, h)
columns-wpa wpa_wpa2_personal mfp h = ground (arith, h)
columns-wpa wpa2_personal mfp h = ground (arith, h)
columns-wpa wpa2_enterprise mfp h = ground (arith, h)
columns-wpa wpa3_transition mfp h = ground (arith, h)
columns-wpa wpa3_personal mfp h = ground (arith, h)
columns-wpa mode_other mfp h = ground (arith, h)

append_psks-first :
    (p : CString × CString) (out keys : List (CString × CString))
    → first_psk (append_psks (p ∷ out) keys) ≡ p
unfolding append_psks
append_psks-first p out [] = refl
append_psks-first p out ((id, psk) ∷ keys) =
    elim (Bool-cases (not (str_eq id []) && not (str_eq psk []))) [
      | inl e ↦ rw (e) (append_psks-first p (out ++ (id, psk) ∷ []) keys)
      | inr e ↦ rw (e) (append_psks-first p out keys)
    ]

psks-first :
    (kc : Kconfig) (hal : VifHal) (ids : ℕ → CString) (i : ℕ) (key : CString) (v : Security)
    → v.wpa_psks ≡ []
    → first_psk (get_psks kc hal ids i key v).0.wpa_psks ≡ (ids i, key)
unfolding get_psks
psks-first kc hal ids i key v none_yet = elim (Bool-cases kc.multi_psk) [
  | inr e ↦ rw (get_psks, e, none_yet) refl
  | inl e ↦ elim (Option-cases (hal.multi_psk_keys i)) [
    | inl f ↦ rw (get_psks, e, f, none_yet) refl
    | inr (keys, f) ↦ rw (get_psks, e, f, none_yet) (append_psks-first (ids i, key) [] keys)
  ]
]

-- Where the state of an interface lists keys, the first is the interface's.
first-key :
    (kc : Kconfig) (hal : VifHal) (ids : ℕ → CString) (i : ℕ) (b : BssInfo) (m : SecurityModes)
    → (length (get_security_of kc hal ids i b m no_security).0.wpa_psks == 0) ≡ false
    → (first_psk (get_security_of kc hal ids i b m no_security).0.wpa_psks).1 ≡ b.key
unfolding with_mode get_security_of get_secured get_credentials get_enterprise_credentials
    security_key_mgmt_hal_to_ovsdb security_mode_map
first-key kc hal ids i b mode_none h = ground (arith, h)
first-key kc hal ids i b mode_other h = ground (arith, h)
first-key kc hal ids i b wpa2_enterprise h = ground (arith, h)
first-key kc hal ids i b wpa_personal h =
    ap (λ (p : CString × CString). p.1)
      (psks-first kc hal ids i b.key (with_mode wpa_personal b.mfp) refl)
first-key kc hal ids i b wpa_wpa2_personal h =
    ap (λ (p : CString × CString). p.1)
      (psks-first kc hal ids i b.key (with_mode wpa_wpa2_personal b.mfp) refl)
first-key kc hal ids i b wpa2_personal h =
    ap (λ (p : CString × CString). p.1)
      (psks-first kc hal ids i b.key (with_mode wpa2_personal b.mfp) refl)
first-key kc hal ids i b wpa3_transition h =
    ap (λ (p : CString × CString). p.1)
      (psks-first kc hal ids i b.key (with_mode wpa3_transition b.mfp) refl)
first-key kc hal ids i b wpa3_personal h =
    ap (λ (p : CString × CString). p.1)
      (psks-first kc hal ids i b.key (with_mode wpa3_personal b.mfp) refl)

-- What the columns of security must say for the interface to stay as it is.
pub record Says (b : BssInfo) (v : Security) : Type 0 where
  pub open_mode : flag v.wpa ≡ false → b.mode ≡ mode_none
  pub same_mode : security_key_mgmt_ovsdb_to_hal v ≡ some b.mode
  pub same_mfp : mfp_of (text v.pmf) ≡ b.mfp
  pub same_key : (length v.wpa_psks == 0) ≡ false → (first_psk v.wpa_psks).1 ≡ b.key

pub state-Says :
    (kc : Kconfig) (hal : VifHal) (ids : ℕ → CString) (i : ℕ) (b : BssInfo)
    → b.mode ≢ mode_other
    → Says b (copy_security (get_security kc hal ids i b no_security).0)
unfolding get_security copy_security
state-Says kc hal ids i b known =
    let v = (get_security_of kc hal ids i b b.mode no_security).0 in
    let c = security-core kc hal ids i b b.mode in
    record {
      open_mode = λ h. columns-wpa b.mode b.mfp (ap (λ x. flag (of_core x).wpa) (sym c) ∙ h);
      same_mode =
          mode-core v
          ∙ ap (λ x. security_key_mgmt_ovsdb_to_hal (copy_security (of_core x))) c
          ∙ columns-mode b.mode b.mfp known;
      same_mfp =
          ap (λ x. mfp_of (text (of_core x).pmf)) c
          ∙ ap (λ x. mfp_of (text x)) (columns-pmf b.mode b.mfp)
          ∙ pmf-back b.mfp;
      same_key = first-key kc hal ids i b b.mode;
    }
