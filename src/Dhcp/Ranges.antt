-- ===== src/Dhcp/Ranges.antt =====
-- The address ranges of an instance are a set, whatever is added and deleted.
use opensync_platform_rdk.Common.{
  ◌≡◌, inl, inr, refl, ap, ◌∙◌, Bool, true, false, Bool-cases, List, [], ◌∷◌, ite, if_pos, if_neg,
  arith,
}
use opensync_platform_rdk.Dhcp.{
  Range, Server, range_dec, has_range, range_lt, insert_range, remove_range,
  osn_dhcp_server_range_add, osn_dhcp_server_range_del,
}

-- No range stands twice.
unfoldable pub OnceEach : List Range → Type 0
OnceEach [] = Unit
OnceEach (r ∷ rs) = (has_range r rs ≡ false) × OnceEach rs

has-insert :
    (q r : Range) (rs : List Range)
    → has_range q (insert_range r rs) ≡ ite (range_dec r q) true (has_range q rs)
unfolding has_range insert_range
has-insert q r [] = refl
has-insert q r (p ∷ rs) = ground (arith, has-insert q r rs)

insert-OnceEach :
    (r : Range) (rs : List Range)
    → has_range r rs ≡ false
    → OnceEach rs
    → OnceEach (insert_range r rs)
unfolding OnceEach has_range insert_range
insert-OnceEach r [] new o = (refl, tt)
insert-OnceEach r (p ∷ rs) new o = elim (Bool-cases (range_lt r p)) [
  | inl e ↦ rw (e, insert_range) (new, o)
  | inr e ↦
      rw (e, insert_range)
        (ground (arith, has-insert p r rs, o.0), insert-OnceEach r rs (ground arith) o.1)
]

has-remove :
    (q r : Range) (rs : List Range)
    → OnceEach rs
    → has_range q (remove_range r rs) ≡ ite (range_dec r q) false (has_range q rs)
unfolding OnceEach has_range remove_range
has-remove q r [] o = ground arith
has-remove q r (p ∷ rs) o = ground (arith, has-remove q r rs o.1, o.0)

remove-OnceEach : (r : Range) (rs : List Range) → OnceEach rs → OnceEach (remove_range r rs)
unfolding OnceEach remove_range
remove-OnceEach r [] o = tt
remove-OnceEach r (p ∷ rs) o = elim (range_dec p r) [
  | yes e ↦ rw (if_pos (range_dec p r) e) o.1
  | no e ↦
      rw (if_neg (range_dec p r) e)
        (ground (arith, has-remove p r rs o.1, o.0), remove-OnceEach r rs o.1)
]

pub data RangeOp : Type 0 where
  adds dels : Range → RangeOp

unfoldable pub range_ops : List RangeOp → Server → Server
range_ops [] s = s
range_ops (RangeOp.adds r ∷ ops) s = range_ops ops (osn_dhcp_server_range_add r s)
range_ops (RangeOp.dels r ∷ ops) s = range_ops ops (osn_dhcp_server_range_del r s)

-- Whether a range is there after the operations, from whether it was before.
unfoldable pub there : Range → List RangeOp → Bool → Bool
there q [] before = before
there q (RangeOp.adds r ∷ ops) before = there q ops (ite (range_dec r q) true before)
there q (RangeOp.dels r ∷ ops) before = there q ops (ite (range_dec r q) false before)

add-OnceEach :
    (r : Range) (s : Server) → OnceEach s.ranges → OnceEach (osn_dhcp_server_range_add r s).ranges
unfolding osn_dhcp_server_range_add
add-OnceEach r s o = elim (Bool-cases (has_range r s.ranges)) [
  | inl e ↦ rw (e, osn_dhcp_server_range_add) o
  | inr e ↦ rw (e, osn_dhcp_server_range_add) (insert-OnceEach r s.ranges e o)
]

add-has :
    (q r : Range) (s : Server)
    → has_range q (osn_dhcp_server_range_add r s).ranges
      ≡ ite (range_dec r q) true (has_range q s.ranges)
unfolding osn_dhcp_server_range_add
add-has q r s = ground (arith, has-insert q r s.ranges)

del-OnceEach :
    (r : Range) (s : Server) → OnceEach s.ranges → OnceEach (osn_dhcp_server_range_del r s).ranges
unfolding osn_dhcp_server_range_del
del-OnceEach r s o = elim (Bool-cases (has_range r s.ranges)) [
  | inl e ↦ rw (e, osn_dhcp_server_range_del) (remove-OnceEach r s.ranges o)
  | inr e ↦ rw (e, osn_dhcp_server_range_del) o
]

del-has :
    (q r : Range) (s : Server)
    → OnceEach s.ranges
    → has_range q (osn_dhcp_server_range_del r s).ranges
      ≡ ite (range_dec r q) false (has_range q s.ranges)
unfolding osn_dhcp_server_range_del
del-has q r s o = ground (arith, has-remove q r s.ranges o)

-- From ranges that stand once each, after any sequence of additions and deletions: each range
-- still stands at most once, and it is there exactly if the last operation on it added it, or if it
-- was there and no operation is on it.
pub range_ops-there :
    (ops : List RangeOp) (s : Server)
    → OnceEach s.ranges
    → OnceEach (range_ops ops s).ranges
      × ((q : Range) → has_range q (range_ops ops s).ranges ≡ there q ops (has_range q s.ranges))
unfolding range_ops there
range_ops-there [] s o = (o, λ q. refl)
range_ops-there (RangeOp.adds r ∷ ops) s o =
    let (once, all) = range_ops-there ops (osn_dhcp_server_range_add r s) (add-OnceEach r s o) in
    (once, λ q. all q ∙ ap (there q ops) (add-has q r s))
range_ops-there (RangeOp.dels r ∷ ops) s o =
    let (once, all) = range_ops-there ops (osn_dhcp_server_range_del r s) (del-OnceEach r s o) in
    (once, λ q. all q ∙ ap (there q ops) (del-has q r s o))
