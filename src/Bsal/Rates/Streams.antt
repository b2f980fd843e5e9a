-- ===== src/Bsal/Rates/Streams.antt =====
-- What the decoders of the rate sets compute.
use opensync_platform_rdk.Common.{
  ℕ, suc, zero, ◌+◌, ◌-◌, ◌*◌, ◌/◌, ◌%◌, ◌^◌, ◌≤◌, ◌<◌, ◌≡◌, ◌≢◌, ◌⊎◌, ◌∙◌, inl, inr, refl, ap,
  Bool-cases, if◌then◌else◌, ◌==◌, arith,
}
use opensync_platform_rdk.Bsal.Rates.{
  ht_loop, get_ht_mcs_max, stream_mcs, vht_mcs_loop, get_vht_mcs_max, vht_nss_loop, get_vht_nss_max,
}

ht_loop-highest :
    (left i x : ℕ)
    → 0 < x
    → x < 2 ^ left
    → (d : ℕ) × (ht_loop left i x ≡ i + d) × (2 ^ d ≤ x) × (x < 2 * 2 ^ d)
unfolding ht_loop
ht_loop-highest zero i x pos below = absurd (omega arith)
ht_loop-highest (suc left) i x pos below = elim (Bool-cases ((x / 2) == 0)) [
  | inl e ↦ (0, ground arith, omega arith, ground arith)
  | inr e ↦
      let (d, r, lo, hi) = ht_loop-highest left (i + 1) (x / 2) (ground arith) (omega arith) in
      (suc d, ground arith, omega arith, omega arith)
]

-- For a set of rates that is not empty, of 32 bits, the result is the index of its highest bit.
pub get_ht_mcs_max-highest :
    (mcs_set : ℕ)
    → 0 < mcs_set
    → mcs_set < 2 ^ 32
    → (2 ^ get_ht_mcs_max mcs_set ≤ mcs_set) × (mcs_set < 2 * 2 ^ get_ht_mcs_max mcs_set)
unfolding get_ht_mcs_max
get_ht_mcs_max-highest mcs_set pos below =
    let (d, r, lo, hi) = ht_loop-highest 32 0 mcs_set pos below in
    (ground (arith, ap (λ n. 2 ^ n) r), ground (arith, ap (λ n. 2 ^ n) r))

-- The pair of bits of a stream, counted from 0: 3 is a stream that is not supported.
unfoldable pub pair : ℕ → ℕ → ℕ
pair zero rx_mcs_map = rx_mcs_map % 4
pair (suc j) rx_mcs_map = pair j (rx_mcs_map / 4)

-- Either no stream of the loop is supported, or `j` is the last one.
Last : ℕ → ℕ → ℕ → ℕ → ℕ → Type 0
Last left i nss m result =
    ((result ≡ nss) × ((k : ℕ) → k < left → pair k m ≡ 3))
    ⊎ ((j : ℕ) × (j < left)
        × (result ≡ i + j + 1)
        × (pair j m ≢ 3)
        × ((k : ℕ) → k < left → j < k → pair k m ≡ 3))

first_then :
    (m : ℕ) (P : ℕ → Type 0)
    → (P 0 → pair 0 m ≡ 3)
    → ((k : ℕ) → P (suc k) → pair k (m / 4) ≡ 3)
    → (k : ℕ) → P k
    → pair k m ≡ 3
unfolding pair
first_then m P first rest zero p = first p
first_then m P first rest (suc k) p = rest k p

nss_loop-Last : (left i nss m : ℕ) → Last left i nss m (vht_nss_loop left i nss m)
unfolding Last vht_nss_loop pair
nss_loop-Last zero i nss m = inl (refl, λ k below. absurd (omega arith))
nss_loop-Last (suc left) i nss m = elim (Bool-cases ((m % 4) == 3)) [
  | inl e ↦ elim (nss_loop-Last left (i + 1) nss (m / 4)) [
    | inl (r, all) ↦ inl (
      ground arith,
      first_then m (λ k. k < suc left) (λ p. ground arith) (λ k p. all k (omega (arith, p))),
    )
    | inr (j, below, r, ne, all) ↦ inr (
      suc j,
      omega arith,
      ground arith,
      ne,
      λ k b gt.
          first_then m (λ k. (k < suc left) × (suc j < k)) (λ p. absurd (omega (arith, p.1)))
            (λ k p. all k (omega (arith, p.0)) (omega (arith, p.1))) k (b, gt),
    )
  ]
  | inr e ↦ elim (nss_loop-Last left (i + 1) (i + 1) (m / 4)) [
    | inl (r, all) ↦ inr (
      0,
      omega arith,
      ground arith,
      ground arith,
      λ k b gt.
          first_then m (λ k. (k < suc left) × (0 < k)) (λ p. absurd (omega (arith, p.1)))
            (λ k p. all k (omega (arith, p.0))) k (b, gt),
    )
    | inr (j, below, r, ne, all) ↦ inr (
      suc j,
      omega arith,
      ground arith,
      ne,
      λ k b gt.
          first_then m (λ k. (k < suc left) × (suc j < k)) (λ p. absurd (omega (arith, p.1)))
            (λ k p. all k (omega (arith, p.0)) (omega (arith, p.1))) k (b, gt),
    )
  ]
]

-- The number of streams is that of the last stream whose pair is not 3, counted from 1: every
-- stream from there on is unsupported, and, unless the number is 0, the one before is supported.
pub get_vht_nss_max-last :
    (rx_mcs_map : ℕ)
    → (get_vht_nss_max rx_mcs_map ≤ 8)
      × ((k : ℕ) → k < 8 → get_vht_nss_max rx_mcs_map ≤ k → pair k rx_mcs_map ≡ 3)
      × ((get_vht_nss_max rx_mcs_map ≡ 0) ⊎ (pair (get_vht_nss_max rx_mcs_map - 1) rx_mcs_map ≢ 3))
unfolding get_vht_nss_max Last
get_vht_nss_max-last m = elim (nss_loop-Last 8 0 0 m) [
  | inl (r, all) ↦ (omega arith, λ k b le. all k b, inl r)
  | inr (j, below, r, ne, all) ↦ (
    omega arith,
    λ k b le. all k b (omega (arith, le, r)),
    inr (λ e. ne (ap (λ i. pair i m) (omega (arith, r)) ∙ e)),
  )
]

-- The highest index of the rates that a pair of bits stands for, 0 for none.
abbrev pub rate : ℕ → ℕ
rate p = if p == 0 then 7 else if p == 1 then 8 else if p == 2 then 9 else 0

stream_mcs-max :
    (p best : ℕ)
    → (best ≤ stream_mcs p best)
      × (rate p ≤ stream_mcs p best)
      × ((stream_mcs p best ≡ best) ⊎ (stream_mcs p best ≡ rate p))
stream_mcs-max p best = ground arith

mcs_loop-highest :
    (left best m : ℕ)
    → (best ≤ vht_mcs_loop left best m)
      × ((k : ℕ) → k < left → rate (pair k m) ≤ vht_mcs_loop left best m)
      × ((vht_mcs_loop left best m ≡ best)
          ⊎ ((k : ℕ) × (k < left) × (vht_mcs_loop left best m ≡ rate (pair k m))))
unfolding vht_mcs_loop pair
mcs_loop-highest zero best m = (omega arith, λ k b. absurd (omega (arith, b)), inl refl)
mcs_loop-highest (suc left) best m =
    let (up, is, from) = stream_mcs-max (m % 4) best in
    let (grows, all, one) = mcs_loop-highest left (stream_mcs (m % 4) best) (m / 4) in
    (
      omega (arith, up, grows),
      λ k b. each k b is grows all,
      elim one [
        | inl e ↦ elim from [ inl f ↦ inl (e ∙ f) | inr f ↦ inr (0, omega arith, e ∙ f) ]
        | inr (k, b, e) ↦ inr (suc k, omega (arith, b), e)
      ],
    )
  where
    each :
        {r : ℕ} (k : ℕ)
        → k < suc left
        → rate (m % 4) ≤ stream_mcs (m % 4) best
        → stream_mcs (m % 4) best ≤ r
        → ((k : ℕ) → k < left → rate (pair k (m / 4)) ≤ r)
        → rate (pair k m) ≤ r
    each zero b is grows all = omega (arith, is, grows)
    each (suc k) b is grows all = all k (omega (arith, b))

-- The result is the highest rate of the eight streams: no stream has a higher one, and some
-- stream has it, or it is 0.
pub get_vht_mcs_max-highest :
    (rx_mcs_map : ℕ)
    → ((k : ℕ) → k < 8 → rate (pair k rx_mcs_map) ≤ get_vht_mcs_max rx_mcs_map)
      × ((get_vht_mcs_max rx_mcs_map ≡ 0)
          ⊎ ((k : ℕ) × (k < 8) × (get_vht_mcs_max rx_mcs_map ≡ rate (pair k rx_mcs_map))))
unfolding get_vht_mcs_max
get_vht_mcs_max-highest m = let (grows, all, one) = mcs_loop-highest 8 0 m in (all, one)

-- Of the eight pairs of bits of a map, which stand for the rates of eight streams: the number of
-- streams is at most 8, every later pair is 3 (unsupported), and it is 0 or the pair of its last stream is not
-- 3; and the highest rate is at least that of every pair, and is 0 or the rate of some pair.
pub vht_map_decoded :
    (rx_mcs_map : ℕ)
    → ((get_vht_nss_max rx_mcs_map ≤ 8)
        × ((k : ℕ) → k < 8 → get_vht_nss_max rx_mcs_map ≤ k → pair k rx_mcs_map ≡ 3)
        × ((get_vht_nss_max rx_mcs_map ≡ 0)
            ⊎ (pair (get_vht_nss_max rx_mcs_map - 1) rx_mcs_map ≢ 3)))
      × ((k : ℕ) → k < 8 → rate (pair k rx_mcs_map) ≤ get_vht_mcs_max rx_mcs_map)
      × ((get_vht_mcs_max rx_mcs_map ≡ 0)
          ⊎ ((k : ℕ) × (k < 8) × (get_vht_mcs_max rx_mcs_map ≡ rate (pair k rx_mcs_map))))
vht_map_decoded m = let (all, one) = get_vht_mcs_max-highest m in (get_vht_nss_max-last m, all, one)
