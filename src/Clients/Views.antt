-- ===== src/Clients/Views.antt =====
-- The specification of the reports of clients.c: what an upper layer knows from the calls of
-- op_client alone, if it takes them in order and refuses one that makes no sense.
use opensync_platform_rdk.Common.{
  ◌≡◌, sym, ap, if_pos, true, false, List, [], ◌∷◌, ◌++◌, Option, none, some, Option-cases, inl,
  inr, ite, CString, str_dec, arith,
}
use opensync_platform_rdk.Clients.Types.{Client, Update, Hal}

-- For each address that is active, its interface and its key id.
abbrev pub View : Type 0
View = CString → Option (CString × CString)

abbrev pub empty_view : View
empty_view mac = none

abbrev pub put : View → CString → Option (CString × CString) → View
put v mac entry m = ite (str_dec mac m) entry (v m)

-- A client becomes active only if it is inactive.
unfoldable pub accept_active : View → Update → Option View
accept_active v u = elim (v u.mac) [
  | none ↦ some (put v u.mac (some (u.ifname, u.key_id)))
  | some _ ↦ none
]

-- A client becomes inactive only on the interface where it is active.
unfoldable pub accept_inactive : View → Update → Option View
accept_inactive v u = elim (v u.mac) [
  | none ↦ none
  | some (ifname, key_id) ↦ ite (str_dec ifname u.ifname) (some (put v u.mac none)) none
]

unfoldable pub accept : View → Update → Option View
unfolding accept_active accept_inactive
accept v u = elim u.connected [ true ↦ accept_active v u | false ↦ accept_inactive v u ]

unfoldable pub observe : View → List Update → Option View
observe v [] = some v
observe v (u ∷ us) = elim (accept v u) [ none ↦ none | some v' ↦ observe v' us ]

pub observe-append :
    (v w : View) (us : List Update) (u : Update)
    → observe v us ≡ some w
    → observe v (us ++ u ∷ []) ≡ accept w u
unfolding observe
observe-append v w [] u h = ground arith
observe-append v w (x ∷ us) u h = elim (Option-cases (accept v x)) [
  | inl e ↦ absurd (ground arith)
  | inr (v', e) ↦ rw (e, observe) (observe-append v' w us u (ground arith))
]

-- The entry of the view and the entry of the table agree on one address.
abbrev pub Shows : Hal → CString → Option (CString × CString) → Option Client → Type 0
Shows hal mac none none = Unit
Shows hal mac none (some c) = ⊥
Shows hal mac (some e) none = ⊥
Shows hal mac (some (ifname, key_id)) (some c) =
    (c.mac ≡ mac)
    × (name : CString) × (hal.get_ap_name c.ap_index ≡ some name)
    × (hal.unmap_ifname name ≡ ifname)
    × (c.key_id ≡ key_id)

pub accept-put_inactive :
    (v : View) (u : Update) (k i key : CString)
    → u.connected ≡ false
    → u.mac ≡ k
    → u.ifname ≡ i
    → v k ≡ some (i, key)
    → accept v u ≡ some (put v k none)
unfolding accept
accept-put_inactive v u k i key off mac ifname e =
    rw (off, mac, e, accept_inactive, if_pos _ (sym ifname)) (ap (λ m. some (put v m none)) mac)

pub accept-put_active :
    (v : View) (u : Update) (k : CString)
    → u.connected ≡ true
    → u.mac ≡ k
    → v k ≡ none
    → accept v u ≡ some (put v k (some (u.ifname, u.key_id)))
unfolding accept
accept-put_active v u k on mac e =
    rw (on, mac, e, accept_active) (ap (λ m. some (put v m (some (u.ifname, u.key_id)))) mac)
