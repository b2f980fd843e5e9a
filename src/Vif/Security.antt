-- ===== src/Vif/Security.antt =====
-- The security of an interface, src/lib/target/src/vif.c: the modes of the HAL and the columns of the
-- tables.
use opensync_platform_rdk.Common.{
  ℕ, Bool, true, false, not, ◌&&◌, ◌||◌, List, [], ◌∷◌, ◌++◌, Option, none, some, if◌then◌else◌,
  CString, bytes, str_eq, has_part,
}
use opensync_platform_rdk.Vif.Types.{
  SecurityModes, mode_none, wpa_personal, wpa_wpa2_personal, wpa2_personal, wpa2_enterprise,
  wpa3_transition, wpa3_personal, mode_other, Mfp, mfp_disabled, mfp_optional, mfp_required,
  BssInfo, Security, Kconfig, VifHal,
}

-- The value of a column of a cleared struct.
abbrev pub flag : Option Bool → Bool
flag none = false
flag (some b) = b

abbrev pub text : Option CString → CString
text none = []
text (some s) = s

-- OVSDB_SECURITY_KEY_MGMT_*
abbrev pub km_wpa_psk : CString
km_wpa_psk = bytes "wpa-psk"

abbrev pub km_wpa_eap : CString
km_wpa_eap = bytes "wpa-eap"

abbrev pub km_sae : CString
km_sae = bytes "sae"

-- security_mode_map: wpa tkip and ccmp, rsn tkip and ccmp.
unfoldable pub security_mode_map : SecurityModes → Option (Bool × Bool × Bool × Bool)
security_mode_map wpa_personal = some (true, true, false, false)
security_mode_map wpa_wpa2_personal = some (true, true, true, true)
security_mode_map wpa2_personal = some (false, false, false, true)
security_mode_map wpa2_enterprise = some (false, false, false, true)
security_mode_map wpa3_transition = some (false, false, false, true)
security_mode_map wpa3_personal = some (false, false, false, true)
security_mode_map mode_none = none
security_mode_map mode_other = none

-- The switch of security_key_mgmt_hal_to_ovsdb: what it appends.
unfoldable pub key_mgmt_of : SecurityModes → List CString
key_mgmt_of wpa_personal = km_wpa_psk ∷ []
key_mgmt_of wpa2_personal = km_wpa_psk ∷ []
key_mgmt_of wpa_wpa2_personal = km_wpa_psk ∷ []
key_mgmt_of wpa3_personal = km_sae ∷ []
key_mgmt_of wpa3_transition = km_wpa_psk ∷ km_sae ∷ []
key_mgmt_of wpa2_enterprise = km_wpa_eap ∷ []
key_mgmt_of mode_none = []
key_mgmt_of mode_other = []

unfoldable pub security_key_mgmt_hal_to_ovsdb : SecurityModes → Security → Security × Bool
unfolding security_mode_map key_mgmt_of
security_key_mgmt_hal_to_ovsdb m v = elim (security_mode_map m) [
  | none ↦ (v, false)
  | some (wt, wc, rt, rc) ↦ (
    record v {
      wpa_pairwise_tkip = some wt;
      wpa_pairwise_ccmp = some wc;
      rsn_pairwise_tkip = some rt;
      rsn_pairwise_ccmp = some rc;
      wpa_key_mgmt = v.wpa_key_mgmt ++ key_mgmt_of m;
    },
    true,
  )
]

-- The keys with an id and a text.
unfoldable pub append_psks :
    List (CString × CString) → List (CString × CString) → List (CString × CString)
append_psks out [] = out
append_psks out ((id, psk) ∷ keys) =
    if not (str_eq id []) && not (str_eq psk [])
    then append_psks (out ++ (id, psk) ∷ []) keys
    else append_psks out keys

unfoldable pub get_psks :
    Kconfig → VifHal → (ℕ → CString) → ℕ → CString → Security → Security × Bool
unfolding append_psks
get_psks kc hal key_ids i key v =
    let v1 = record v { wpa_psks = v.wpa_psks ++ (key_ids i, key) ∷ [] } in
    (if kc.multi_psk
      then elim (hal.multi_psk_keys i) [
        | none ↦ (v1, false)
        | some keys ↦ (record v1 { wpa_psks = append_psks v1.wpa_psks keys }, true)
      ]
      else (v1, true))

unfoldable pub pmf_text : Mfp → CString
pmf_text mfp_optional = bytes "optional"
pmf_text mfp_required = bytes "required"
pmf_text mfp_disabled = bytes "disabled"

unfoldable pub get_enterprise_credentials : BssInfo → Security → Security
get_enterprise_credentials b v = record v {
  radius_srv_addr = some b.radius_ip;
  radius_srv_port = some b.radius_port;
  radius_srv_secret = some b.radius_key;
}

-- The credentials of a mode; wpa2_enterprise is the only one with a RADIUS server here.
unfoldable pub get_credentials :
    Kconfig → VifHal → (ℕ → CString) → ℕ → BssInfo → SecurityModes → Security → Security × Bool
unfolding get_psks get_enterprise_credentials
get_credentials kc hal key_ids i b wpa2_enterprise v = (get_enterprise_credentials b v, true)
get_credentials kc hal key_ids i b m v = get_psks kc hal key_ids i b.key v

-- get_security after the columns of a mode.
unfoldable pub get_secured :
    Kconfig → VifHal → (ℕ → CString) → ℕ → BssInfo → SecurityModes → Security → Security × Bool
unfolding security_key_mgmt_hal_to_ovsdb get_credentials
get_secured kc hal key_ids i b m v =
    let (v1, known) = security_key_mgmt_hal_to_ovsdb m (record v { wpa = some true }) in
    (if known then get_credentials kc hal key_ids i b m v1 else (v1, false))

-- get_security with the mode `m` of the interface.
unfoldable pub get_security_of :
    Kconfig → VifHal → (ℕ → CString) → ℕ → BssInfo → SecurityModes → Security → Security × Bool
unfolding pmf_text get_secured
get_security_of kc hal key_ids i b mode_none v =
    (record v { pmf = some (pmf_text b.mfp); wpa = some false }, true)
get_security_of kc hal key_ids i b m v =
    get_secured kc hal key_ids i b m (record v { pmf = some (pmf_text b.mfp) })

unfoldable pub get_security :
    Kconfig → VifHal → (ℕ → CString) → ℕ → BssInfo → Security → Security × Bool
unfolding get_security_of
get_security kc hal key_ids i b v = get_security_of kc hal key_ids i b b.mode v

-- security_wpa_key_mgmt_match for a method, and for the empty one.
unfoldable pub key_mgmt_match : List CString → CString → Bool
key_mgmt_match [] key_mgmt = false
key_mgmt_match (s ∷ rest) key_mgmt =
    if has_part s key_mgmt then true else key_mgmt_match rest key_mgmt

unfoldable pub security_wpa_key_mgmt_match : Security → CString → Bool
unfolding key_mgmt_match
security_wpa_key_mgmt_match v key_mgmt = elim (v.wpa_key_mgmt) [
  | [] ↦ str_eq key_mgmt []
  | s ∷ rest ↦ key_mgmt_match (s ∷ rest) key_mgmt
]

-- The modes with a pre-shared key, by the pairwise columns.
unfoldable pub psk_mode : Security → SecurityModes
psk_mode v =
    let wpa = flag v.wpa_pairwise_tkip || flag v.wpa_pairwise_ccmp in
    let rsn = flag v.rsn_pairwise_tkip || flag v.rsn_pairwise_ccmp in
    (if wpa && rsn
      then wpa_wpa2_personal
      else if wpa
      then wpa_personal
      else if rsn
      then wpa2_personal
      else mode_none)

unfoldable pub security_key_mgmt_ovsdb_to_hal : Security → Option SecurityModes
unfolding security_wpa_key_mgmt_match psk_mode
security_key_mgmt_ovsdb_to_hal v =
    if security_wpa_key_mgmt_match v km_wpa_psk && security_wpa_key_mgmt_match v km_sae
    then some wpa3_transition
    else if security_wpa_key_mgmt_match v km_sae
    then some wpa3_personal
    else if security_wpa_key_mgmt_match v km_wpa_eap
    then some wpa2_enterprise
    else if security_wpa_key_mgmt_match v km_wpa_psk
    then some (psk_mode v)
    else if security_wpa_key_mgmt_match v []
    then some mode_none
    else none

-- The name of a mode for the mesh agent.
unfoldable pub sync_name : SecurityModes → Option CString
sync_name wpa_personal = some (bytes "WPA-Personal")
sync_name wpa2_personal = some (bytes "WPA2-Personal")
sync_name wpa_wpa2_personal = some (bytes "WPA-WPA2-Personal")
sync_name wpa2_enterprise = some (bytes "WPA2-Enterprise")
sync_name wpa3_personal = some (bytes "WPA3-Sae")
sync_name wpa3_transition = some (bytes "WPA3-Personal-Transition")
sync_name mode_none = none
sync_name mode_other = none

unfoldable pub security_key_mgmt_ovsdb_to_sync : Security → Option CString
unfolding security_key_mgmt_ovsdb_to_hal sync_name
security_key_mgmt_ovsdb_to_sync v =
    if security_wpa_key_mgmt_match v km_wpa_psk
    then elim (security_key_mgmt_ovsdb_to_hal v) [ none ↦ none | some m ↦ sync_name m ]
    else none
