-- ===== src/Bsal/Neighbors/Synced.antt =====
-- That the HAL's lists of neighbors are those of the tree, whatever the HAL answers.
use opensync_platform_rdk.Common.{
  ℕ, ◌-◌, ◌<◌, ◌≡◌, ◌≢◌, ◌⊎◌, inl, inr, refl, sym, ap, subst, ◌∙◌, true, false, Bool, Bool-cases,
  List, ◌∷◌, Option, none, some, Option-cases, CString, str_dec, length, take_of_length-le, arith,
  ℕ_discrete,
}
use opensync_platform_rdk.Common.Tree.{find, insert, remove}
use opensync_platform_rdk.Bsal.Types.{NeighInfo, NeighKey, neighbor_reports, Call, Hal, State}
use opensync_platform_rdk.Bsal.Neighbors.Keys.{
  reports_of, report_for, ByKey, collect-find, insert-ByKey, remove-ByKey, write-ByKey, find-own,
  write_others, remove_others, remove-write, insert-remove,
}
use opensync_platform_rdk.Bsal.Neighbors.{
  key_dec, bssid_ifname_lt, collect, bsal_send_update_neighbor_list, write_neighbor, or_restore,
  or_dangle, with_neighbors, neigh_key, target_bsal_rrm_set_neighbor,
  target_bsal_rrm_remove_neighbor,
}

or_restore-result :
    (restore : List (NeighKey × NeighInfo) → List (NeighKey × NeighInfo)) (r : State × Bool)
    → (or_restore restore r).1 ≡ r.1
unfolding or_restore
or_restore-result restore (s, true) = refl
or_restore-result restore (s, false) = refl

-- `map` is the map of interface names to access points.
module _ (ifname_len : ℕ) (map : CString → Option ℕ) where
  -- For every interface whose name fits, the HAL's list has the neighbors of the tree.
  abbrev Matches : List (NeighKey × NeighInfo) → List (Call × Bool) → Type 0
  Matches t calls =
      (ifname b : CString) (i : ℕ)
      → map ifname ≡ some i
      → length ifname < ifname_len
      → report_for b (reports_of i calls) ≡ find key_dec (b, ifname) t

  pub record Synced (s : State) : Type 0 where
    pub keyed : ByKey s.neighbors
    pub matches : Matches s.neighbors s.calls

  -- A call that the HAL did not take leaves its lists alone.
  Unheard : List (Call × Bool) → List (Call × Bool) → Type 0
  Unheard calls calls' = (j : ℕ) → reports_of j calls' ≡ reports_of j calls

  Unheard-Matches :
      (t u : List (NeighKey × NeighInfo)) (calls calls' : List (Call × Bool))
      → Unheard calls calls'
      → ((q : NeighKey) → find key_dec q u ≡ find key_dec q t)
      → Matches t calls
      → Matches u calls'
  unfolding Unheard
  Unheard-Matches t u calls calls' same kept m ifname b j named fits =
      ap (report_for b) (same j) ∙ m ifname b j named fits ∙ sym (kept (b, ifname))

  -- The two outcomes of sending the list of an interface.
  Outcome : CString → State → State × Bool → Type 0
  Outcome ifname s r =
      ((i : ℕ) × (map ifname ≡ some i)
        × (r ≡ (
          record s { calls = (neighbor_reports i (collect ifname s.neighbors), true) ∷ s.calls },
          true,
        )))
      ⊎ ((calls : List (Call × Bool)) × Unheard s.calls calls
          × (r ≡ (record s { calls = calls }, false)))

  send-Outcome :
      (hal : Hal) (ifname : CString) (s : State)
      → hal.ifname_to_idx ifname ≡ map ifname
      → Outcome ifname s (bsal_send_update_neighbor_list hal ifname s)
  unfolding Outcome Unheard bsal_send_update_neighbor_list reports_of
  send-Outcome hal ifname s agree = elim (Option-cases (hal.ifname_to_idx ifname)) [
    | inl e ↦ rw (e, bsal_send_update_neighbor_list) (inr (s.calls, λ j. refl, refl))
    | inr (i, e) ↦
        rw (e, bsal_send_update_neighbor_list)
          (elim (Bool-cases (hal.accepts (neighbor_reports i (collect ifname s.neighbors)))) [
            | inl took ↦ inl (i, sym agree ∙ e, ground arith)
            | inr refused ↦ inr (
              (neighbor_reports i (collect ifname s.neighbors), false) ∷ s.calls,
              λ j. refl,
              ground arith,
            )
          ])
  ]

  -- A name that fits is its own copy.
  pub key_fits :
      (ifname : CString) (nr : NeighInfo)
      → length ifname < ifname_len
      → neigh_key ifname_len ifname nr ≡ (nr.bssid, ifname)
  key_fits ifname nr fits =
      ap (λ n. (nr.bssid, n)) (take_of_length-le (ifname_len - 1) ifname (omega arith))

-- The map gives no two names one index.
module _ (ifname_len : ℕ) (map : CString → Option ℕ)
    (one_name : (a b : CString) (i : ℕ) → map a ≡ some i → map b ≡ some i → a ≡ b) where
  -- The call that the HAL accepts makes its list the tree's, and keeps those of the others.
  accepted-Matches :
      (ifname : CString) (i : ℕ) (t u : List (NeighKey × NeighInfo)) (calls : List (Call × Bool))
      → map ifname ≡ some i
      → ByKey u
      → Matches ifname_len map t calls
      → ((q : NeighKey) → q.1 ≢ ifname → find key_dec q u ≡ find key_dec q t)
      → Matches ifname_len map u ((neighbor_reports i (collect ifname u), true) ∷ calls)
  unfolding reports_of
  accepted-Matches ifname i t u calls named keyed m others other b j named' fits =
      elim (ℕ_discrete i j) [
        | yes p ↦ ground (
          arith,
          one_name other ifname i (named' ∙ ap some (sym p)) named,
          collect-find b ifname u keyed,
        )
        | no p ↦ elim (str_dec other ifname) [
          | yes q ↦ absurd (ground arith)
          | no q ↦ ground (arith, m other b j named' fits, others (b, other) q)
        ]
      ]

  -- Both operations: a change of the tree from `t` to `u`, for the one key, and its undoing.
  change-Synced :
      (hal : Hal) (ifname : CString) (u : List (NeighKey × NeighInfo))
      (restore : List (NeighKey × NeighInfo) → List (NeighKey × NeighInfo)) (s : State)
      → hal.ifname_to_idx ifname ≡ map ifname
      → ByKey u
      → ByKey (restore u)
      → ((q : NeighKey) → q.1 ≢ ifname → find key_dec q u ≡ find key_dec q s.neighbors)
      → (let r = bsal_send_update_neighbor_list hal ifname (with_neighbors u s) in
          r.1 ≡ false → (q : NeighKey) → find key_dec q (restore u) ≡ find key_dec q s.neighbors)
      → Synced ifname_len map s
      → Synced ifname_len map
          (or_restore restore (bsal_send_update_neighbor_list hal ifname (with_neighbors u s))).0
  unfolding Outcome or_restore
  change-Synced hal ifname u restore s agree keyed keyed' others undone v =
      elim (send-Outcome ifname_len map hal ifname (with_neighbors u s) agree) [
        | inl (i, named, e) ↦
            subst (λ r. Synced ifname_len map (or_restore restore r).0) (sym e)
              (record {
                keyed = keyed;
                matches =
                    accepted-Matches ifname i s.neighbors u s.calls named keyed v.matches others;
              })
        | inr (calls, unheard, e) ↦
            subst (λ r. Synced ifname_len map (or_restore restore r).0) (sym e)
              (record {
                keyed = keyed';
                matches =
                    Unheard-Matches ifname_len map s.neighbors (restore u) s.calls calls unheard
                      (undone (ap (λ r. r.1) e)) v.matches;
              })
      ]

  pub set-Synced :
      (hal : Hal) (ifname : CString) (nr : NeighInfo) (s : State)
      → hal.ifname_to_idx ifname ≡ map ifname
      → length ifname < ifname_len
      → ((target_bsal_rrm_set_neighbor ifname_len hal ifname nr s).1 ≡ true)
        ⊎ (find key_dec (nr.bssid, ifname) s.neighbors ≡ none)
      → Synced ifname_len map s
      → Synced ifname_len map (target_bsal_rrm_set_neighbor ifname_len hal ifname nr s).0
  unfolding target_bsal_rrm_set_neighbor
  set-Synced hal ifname nr s agree fits new v =
      let k = neigh_key ifname_len ifname nr in
      change-Synced hal ifname (write_neighbor k nr s.neighbors) (remove key_dec k) s agree
        (write-ByKey k nr s.neighbors refl v.keyed)
        (remove-ByKey k _ (write-ByKey k nr s.neighbors refl v.keyed))
        (λ q ne.
          write_others k q nr s.neighbors
            (λ e. ne (e ∙ ap (λ p. p.1) (key_fits ifname_len map ifname nr fits))))
        (λ lost q. remove-write k q nr s.neighbors (elim new [
          | inl took ↦ absurd (
              ground (
                arith,
                or_restore-result (remove key_dec k) (
                    bsal_send_update_neighbor_list hal ifname
                      (with_neighbors (write_neighbor k nr s.neighbors) s)),
              ))
          | inr e ↦
              ap (λ q. find key_dec q s.neighbors) (key_fits ifname_len map ifname nr fits) ∙ e
        ]))
        v

  dangle-Synced :
      (r : State × Bool) → Synced ifname_len map r.0 → Synced ifname_len map (or_dangle r).0
  unfolding or_dangle
  dangle-Synced (s, true) v = v
  dangle-Synced (s, false) v = record { keyed = v.keyed; matches = v.matches }

  pub remove-Synced :
      (hal : Hal) (ifname : CString) (nr : NeighInfo) (s : State)
      → hal.ifname_to_idx ifname ≡ map ifname
      → length ifname < ifname_len
      → Synced ifname_len map s
      → Synced ifname_len map (target_bsal_rrm_remove_neighbor ifname_len hal ifname nr s).0
  unfolding target_bsal_rrm_remove_neighbor
  remove-Synced hal ifname nr s agree fits v =
      elim (Option-cases (find key_dec (neigh_key ifname_len ifname nr) s.neighbors)) [
        | inl e ↦ rw (e, target_bsal_rrm_remove_neighbor) v
        | inr (old, e) ↦
            let k = neigh_key ifname_len ifname nr in
            rw (e, target_bsal_rrm_remove_neighbor)
              (dangle-Synced _ (
                change-Synced hal ifname (remove key_dec k s.neighbors)
                  (insert key_dec bssid_ifname_lt k old) s agree
                  (remove-ByKey _ s.neighbors v.keyed)
                  (insert-ByKey _ old _ (find-own k old s.neighbors v.keyed e)
                    (remove-ByKey _ s.neighbors v.keyed))
                  (λ q ne.
                    remove_others k q s.neighbors
                      (λ p. ne (p ∙ ap (λ p. p.1) (key_fits ifname_len map ifname nr fits))))
                  (λ lost q. insert-remove k q old s.neighbors e) v))
      ]
