-- ===== src/Bsal/Neighbors/Keys.antt =====
-- The tree of neighbors: what its changes do to a look-up, and the HAL's lists.
use opensync_platform_rdk.Common.{
  ℕ, ◌≡◌, ◌≢◌, inl, inr, refl, sym, ap, ◌∙◌, true, Bool, Bool-cases, List, [], ◌∷◌, Option, none,
  some, Option-cases, ite, if_pos, if_neg, CString, str_dec, All, arith, ℕ_discrete,
}
use opensync_platform_rdk.Common.Tree.{
  find, insert, remove, adjust, find-insert, find-remove, find-remove_self, find-remove_ne,
  find-adjust,
}
use opensync_platform_rdk.Bsal.Types.{NeighInfo, NeighKey, neighbor_reports, Call}
use opensync_platform_rdk.Bsal.Neighbors.{key_dec, bssid_ifname_lt, collect, write_neighbor}

-- The list that the HAL holds for an access point: the last one that it accepted.
unfoldable pub reports_of : ℕ → List (Call × Bool) → List NeighInfo
reports_of ap [] = []
reports_of ap ((neighbor_reports i reports, true) ∷ calls) =
    ite (ℕ_discrete i ap) reports (reports_of ap calls)
reports_of ap (c ∷ calls) = reports_of ap calls

unfoldable pub report_for : CString → List NeighInfo → Option NeighInfo
report_for b [] = none
report_for b (nr ∷ nrs) = ite (str_dec nr.bssid b) (some nr) (report_for b nrs)

-- Each neighbor stands under its own BSSID.
abbrev pub Keyed : NeighKey × NeighInfo → Type 0
Keyed e = e.1.bssid ≡ e.0.0

abbrev pub ByKey : List (NeighKey × NeighInfo) → Type 0
ByKey = All Keyed

pub collect-find :
    (b ifname : CString) (t : List (NeighKey × NeighInfo))
    → ByKey t
    → report_for b (collect ifname t) ≡ find key_dec (b, ifname) t
unfolding report_for collect find
collect-find b ifname [] keyed = refl
collect-find b ifname (((c, i), nr) ∷ t) keyed = ground (arith, collect-find b ifname t keyed.1)

pub insert-ByKey :
    (k : NeighKey) (nr : NeighInfo) (t : List (NeighKey × NeighInfo))
    → nr.bssid ≡ k.0
    → ByKey t
    → ByKey (insert key_dec bssid_ifname_lt k nr t)
unfolding insert
insert-ByKey k nr [] own keyed = (own, tt)
insert-ByKey k nr ((j, w) ∷ t) own keyed = elim (Bool-cases (bssid_ifname_lt k j)) [
  | inl e ↦ rw (e, insert) (own, keyed)
  | inr e ↦ rw (e, insert) (keyed.0, insert-ByKey k nr t own keyed.1)
]

pub remove-ByKey :
    (k : NeighKey) (t : List (NeighKey × NeighInfo)) → ByKey t → ByKey (remove key_dec k t)
unfolding remove
remove-ByKey k [] keyed = tt
remove-ByKey k ((j, w) ∷ t) keyed = elim (key_dec j k) [
  | yes p ↦ rw (if_pos (key_dec j k) p) (remove-ByKey k t keyed.1)
  | no p ↦ rw (if_neg (key_dec j k) p) (keyed.0, remove-ByKey k t keyed.1)
]

adjust-ByKey :
    (k : NeighKey) (nr : NeighInfo) (t : List (NeighKey × NeighInfo))
    → nr.bssid ≡ k.0
    → ByKey t
    → ByKey (adjust key_dec k (λ old. nr) t)
unfolding adjust
adjust-ByKey k nr [] own keyed = tt
adjust-ByKey k nr ((j, w) ∷ t) own keyed = elim (key_dec j k) [
  | yes p ↦ rw (if_pos (key_dec j k) p) (ground (arith), adjust-ByKey k nr t own keyed.1)
  | no p ↦ rw (if_neg (key_dec j k) p) (keyed.0, adjust-ByKey k nr t own keyed.1)
]

pub write-ByKey :
    (k : NeighKey) (nr : NeighInfo) (t : List (NeighKey × NeighInfo))
    → nr.bssid ≡ k.0
    → ByKey t
    → ByKey (write_neighbor k nr t)
unfolding write_neighbor
write-ByKey k nr t own keyed = elim (Option-cases (find key_dec k t)) [
  | inl e ↦ rw (e, write_neighbor) (insert-ByKey k nr t own keyed)
  | inr (old, e) ↦ rw (e, write_neighbor) (adjust-ByKey k nr t own keyed)
]

-- A key that the write is not about keeps its neighbor.
find-write :
    (k q : NeighKey) (nr : NeighInfo) (t : List (NeighKey × NeighInfo))
    → find key_dec q (write_neighbor k nr t) ≡ ite (key_dec k q) (some nr) (find key_dec q t)
unfolding write_neighbor
find-write k q nr t = elim (Option-cases (find key_dec k t)) [
  | inl e ↦ rw (e, write_neighbor) (find-insert key_dec bssid_ifname_lt k q nr t e)
  | inr (old, e) ↦
      rw (e, write_neighbor)
        (elim (key_dec k q) [
          | yes p ↦ ground (arith, find-adjust key_dec k q (λ old. nr) t)
          | no p ↦ ground (arith, find-adjust key_dec k q (λ old. nr) t)
        ])
]

pub find-own :
    (k : NeighKey) (nr : NeighInfo) (t : List (NeighKey × NeighInfo))
    → ByKey t
    → find key_dec k t ≡ some nr
    → nr.bssid ≡ k.0
unfolding find
find-own k nr [] keyed e = ground arith
find-own k nr ((j, w) ∷ t) keyed e = elim (key_dec j k) [
  | yes p ↦ ground arith
  | no p ↦ ground (arith, find-own k nr t keyed.1)
]

-- The neighbors of other interfaces.
pub write_others :
    (k q : NeighKey) (nr : NeighInfo) (t : List (NeighKey × NeighInfo))
    → q.1 ≢ k.1
    → find key_dec q (write_neighbor k nr t) ≡ find key_dec q t
write_others k q nr t ne =
    find-write k q nr t ∙ if_neg (key_dec k q) (λ e. ne (ap (λ p. p.1) (sym e))) _ _

pub remove_others :
    (k q : NeighKey) (t : List (NeighKey × NeighInfo))
    → q.1 ≢ k.1
    → find key_dec q (remove key_dec k t) ≡ find key_dec q t
remove_others k q t ne = find-remove_ne key_dec k q t (λ e. ne (ap (λ p. p.1) (sym e)))

-- The two undoings.
pub remove-write :
    (k q : NeighKey) (nr : NeighInfo) (t : List (NeighKey × NeighInfo))
    → find key_dec k t ≡ none
    → find key_dec q (remove key_dec k (write_neighbor k nr t)) ≡ find key_dec q t
remove-write k q nr t new = elim (key_dec k q) [
  | yes p ↦ ground (arith, find-remove key_dec k q (write_neighbor k nr t), new)
  | no p ↦ ground (arith, find-remove key_dec k q (write_neighbor k nr t), find-write k q nr t)
]

pub insert-remove :
    (k q : NeighKey) (old : NeighInfo) (t : List (NeighKey × NeighInfo))
    → find key_dec k t ≡ some old
    → find key_dec q (insert key_dec bssid_ifname_lt k old (remove key_dec k t)) ≡ find key_dec q t
insert-remove k q old t e = elim (key_dec k q) [
  | yes p ↦ ground (
    arith,
    find-insert key_dec bssid_ifname_lt k q old (remove key_dec k t) (find-remove_self key_dec k t),
    e,
  )
  | no p ↦ ground (
    arith,
    find-insert key_dec bssid_ifname_lt k q old (remove key_dec k t) (find-remove_self key_dec k t),
    find-remove key_dec k q t,
  )
]
