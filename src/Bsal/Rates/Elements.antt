-- ===== src/Bsal/Rates/Elements.antt =====
-- The walk over the elements of an association request, and the bounds of what it stores.
use opensync_platform_rdk.Common.{
  ℕ, suc, zero, ◌+◌, ◌/◌, ◌≤◌, ◌≡◌, refl, ap, ◌∙◌, true, false, Bool, inl, inr, List, [], ◌∷◌, ◌++◌,
  if◌then◌else◌, ◌==◌, length, length-append, drop, CString, arith,
}
use mathlib.Core.List.{append_assoc}
use opensync_platform_rdk.Bsal.Types.{DatarateInfo, ClientInfo}
use opensync_platform_rdk.Bsal.Rates.{
  for_each_element, parse_element, parse_elements, ht_rates, vht_rates, get_ht_mcs_max, ht_loop,
  get_vht_mcs_max, bm_parse_btm_supported, bm_parse_rrm_supported, bm_parse_ht_cap,
  bm_parse_vht_cap, bm_parse_pwr_cap,
}
use opensync_platform_rdk.Bsal.Rates.Streams.{get_vht_nss_max-last, get_vht_mcs_max-highest}

-- The bytes of a list of elements, each with its id and its data.
unfoldable pub encode : List (ℕ × CString) → CString
encode [] = []
encode ((id, d) ∷ es) = id ∷ length d ∷ d ++ encode es

-- What the walk gives for them in front of further memory: the data of each element goes on into the
-- next ones, and behind the last one into that memory.
unfoldable pub walked : List (ℕ × CString) → CString → List (ℕ × ℕ × CString)
unfolding encode
walked [] behind = []
walked ((id, d) ∷ es) behind = (id, length d, d ++ encode es ++ behind) ∷ walked es behind

drop-append : (d rest : CString) → drop (length d) (d ++ rest) ≡ rest
drop-append [] rest = refl
drop-append (x ∷ d) rest = drop-append d rest

drop_two : (a b : ℕ) (d rest : CString) → drop (2 + length d) (a ∷ b ∷ d ++ rest) ≡ rest
drop_two a b d rest = ap (λ n. drop n (a ∷ b ∷ d ++ rest)) (the_sum (length d)) ∙ drop-append d rest
  where
    the_sum : (n : ℕ) → 2 + n ≡ suc (suc n)
    the_sum n = omega arith

pub for_each-encode :
    (fuel : ℕ) (es : List (ℕ × CString)) (behind : CString)
    → length (encode es) ≤ fuel
    → for_each_element fuel (encode es ++ behind) (length (encode es)) ≡ walked es behind
unfolding for_each_element encode walked
for_each-encode zero [] behind enough = refl
for_each-encode (suc fuel) [] behind enough = ground (arith, enough)
for_each-encode zero ((id, d) ∷ es) behind enough = absurd (omega arith)
for_each-encode (suc fuel) ((id, d) ∷ es) behind enough = ground (
  arith,
  append_assoc d (encode es) behind,
  drop_two id (length d) d (encode es ++ behind),
  length-append d (encode es),
  for_each-encode fuel es behind (omega (arith, length-append d (encode es))),
)

-- The bounds of the rates that an association request can give.
pub record Bounded (r : DatarateInfo) : Type 0 where
  pub width : r.max_chwidth ≤ 3
  pub mcs : r.max_mcs ≤ 9
  pub streams : r.max_streams ≤ 8

ht_loop-le : (left i x : ℕ) → ht_loop left i x ≤ i + left
unfolding ht_loop
ht_loop-le zero i x = omega arith
ht_loop-le (suc left) i x = ground (arith, ht_loop-le left (i + 1) (x / 2))

vht_mcs-le : (m : ℕ) → get_vht_mcs_max m ≤ 9
vht_mcs-le m = elim (get_vht_mcs_max-highest m).1 [
  | inl e ↦ omega (arith, e)
  | inr (k, b, e) ↦ ground (arith, e)
]

ht-Bounded : (cap mcs_set : ℕ) (r : DatarateInfo) → Bounded r → Bounded (ht_rates cap mcs_set r)
unfolding ht_rates get_ht_mcs_max
ht-Bounded cap mcs_set r v = record {
  width = ground (arith, v.width);
  mcs = ground (arith, v.mcs);
  streams = ground (arith, v.streams, ht_loop-le 32 0 mcs_set);
}

vht-Bounded : (info map : ℕ) (r : DatarateInfo) → Bounded r → Bounded (vht_rates info map r)
unfolding vht_rates
vht-Bounded info map r v = record {
  width = ground arith;
  mcs = ground (arith, v.mcs, vht_mcs-le map);
  streams = ground (arith, v.streams, (get_vht_nss_max-last map).0);
}

if-Bounded :
    (b : Bool) (x y : ClientInfo)
    → Bounded x.datarate_info
    → Bounded y.datarate_info
    → Bounded (if b then x else y).datarate_info
if-Bounded true x y v w = v
if-Bounded false x y v w = w

element-Bounded :
    (e : ℕ × ℕ × CString) (info : ClientInfo)
    → Bounded info.datarate_info
    → Bounded (parse_element e info).datarate_info
unfolding parse_element bm_parse_btm_supported bm_parse_rrm_supported bm_parse_ht_cap
    bm_parse_vht_cap bm_parse_pwr_cap
element-Bounded (id, datalen, d) info v = if-Bounded (id == 127) _ _ v (
    if-Bounded (id == 70) _ _ v (
      if-Bounded (id == 45) _ _ (ht-Bounded _ _ _ v) (
        if-Bounded (id == 191) _ _ (vht-Bounded _ _ _ v) (
          if-Bounded (id == 33) _ _ (record { width = v.width; mcs = v.mcs; streams = v.streams })
            v))))

pub elements-Bounded :
    (es : List (ℕ × ℕ × CString)) (info : ClientInfo)
    → Bounded info.datarate_info
    → Bounded (parse_elements es info).datarate_info
unfolding parse_elements
elements-Bounded [] info v = v
elements-Bounded (e ∷ es) info v = elements-Bounded es _ (element-Bounded e info v)
