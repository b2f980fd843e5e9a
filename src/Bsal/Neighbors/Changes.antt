-- ===== src/Bsal/Neighbors/Changes.antt =====
-- Sequences of changes of the neighbors.
use opensync_platform_rdk.Common.{
  ℕ, ◌<◌, ◌≡◌, ◌⊎◌, refl, sym, subst, ◌∙◌, true, false, Bool, List, [], ◌∷◌, Option, none, some,
  CString, length,
}
use opensync_platform_rdk.Common.Tree.{find, remove, find-remove_self}
use opensync_platform_rdk.Bsal.Types.{NeighInfo, neighbor_reports, Call, Hal, State}
use opensync_platform_rdk.Bsal.Neighbors.Keys.{reports_of, report_for}
use opensync_platform_rdk.Bsal.Neighbors.Synced.{Synced, set-Synced, remove-Synced, key_fits}
use opensync_platform_rdk.Bsal.Neighbors.{
  key_dec, collect, bsal_send_update_neighbor_list, or_restore, neigh_key,
  target_bsal_rrm_set_neighbor, target_bsal_rrm_remove_neighbor,
}

-- A change of the neighbors, with the HAL's answer to it.
pub data Change : Type 0 where
  sets : (Call → Bool) → CString → NeighInfo → Change
  removes : (Call → Bool) → CString → NeighInfo → Change

answering : (CString → Option ℕ) → Hal → (Call → Bool) → Hal
answering map hal accepts = record hal { ifname_to_idx = map; accepts = accepts }

module _ (ifname_len : ℕ) (map : CString → Option ℕ) where
  unfoldable pub change : Hal → Change → State → State × Bool
  unfolding answering
  change hal (sets accepts ifname nr) s =
      target_bsal_rrm_set_neighbor ifname_len (answering map hal accepts) ifname nr s
  change hal (removes accepts ifname nr) s =
      target_bsal_rrm_remove_neighbor ifname_len (answering map hal accepts) ifname nr s

  -- The name fits, a neighbor that is there already is not set without success, and a removal succeeds.
  unfoldable pub Tame : Hal → Change → State → Type 0
  Tame hal (sets accepts ifname nr) s =
      (length ifname < ifname_len)
      × (((change hal (sets accepts ifname nr) s).1 ≡ true)
          ⊎ (find key_dec (nr.bssid, ifname) s.neighbors ≡ none))
  Tame hal (removes accepts ifname nr) s =
      (length ifname < ifname_len) × ((change hal (removes accepts ifname nr) s).1 ≡ true)

  unfoldable pub AllTame : Hal → List Change → State → Type 0
  AllTame hal [] s = Unit
  AllTame hal (c ∷ cs) s = Tame hal c s × AllTame hal cs (change hal c s).0

  unfoldable pub changes : Hal → List Change → State → State
  changes hal [] s = s
  changes hal (c ∷ cs) s = changes hal cs (change hal c s).0

-- The map gives no two names one index.
module _ (ifname_len : ℕ) (map : CString → Option ℕ)
    (one_name : (a b : CString) (i : ℕ) → map a ≡ some i → map b ≡ some i → a ≡ b) where
  change-Synced_one :
      (hal : Hal) (c : Change) (s : State)
      → Tame ifname_len map hal c s
      → Synced ifname_len map s
      → Synced ifname_len map (change ifname_len map hal c s).0
  unfolding Tame change answering
  change-Synced_one hal (sets accepts ifname nr) s tame v =
      set-Synced ifname_len map one_name _ ifname nr s refl tame.0 tame.1 v
  change-Synced_one hal (removes accepts ifname nr) s tame v =
      remove-Synced ifname_len map one_name _ ifname nr s refl tame.0 v

  -- Whatever neighbors are set and removed on interfaces whose names fit, and whatever the HAL
  -- answers, but for the two cases below: for every interface and BSSID, the list that the HAL accepted last for the
  -- interface's access point has the neighbor that the tree has, or none if the tree has none. It
  -- is excluded that an update of a neighbor that the tree has already fails, and that the removal
  -- of a neighbor that it has fails, after which its node has a key that dangles; no two names may have
  -- one index.
  pub changes-Synced :
      (hal : Hal) (cs : List Change) (s : State)
      → AllTame ifname_len map hal cs s
      → Synced ifname_len map s
      → Synced ifname_len map (changes ifname_len map hal cs s)
  unfolding AllTame changes
  changes-Synced hal [] s tame v = v
  changes-Synced hal (c ∷ cs) s tame v =
      changes-Synced hal cs _ tame.1 (change-Synced_one hal c s tame.0 v)

  refused_send :
      (hal : Hal) (ifname : CString) (i : ℕ) (s : State)
      → map ifname ≡ some i
      → bsal_send_update_neighbor_list (answering map hal (λ c. false)) ifname s ≡ (
        record s { calls = (neighbor_reports i (collect ifname s.neighbors), false) ∷ s.calls },
        false,
      )
  unfolding bsal_send_update_neighbor_list answering
  refused_send hal ifname i s named = rw (named, bsal_send_update_neighbor_list)

  -- A neighbor that the tree has and whose update the HAL refuses is gone from the tree, while
  -- the HAL keeps the list that it had.
  pub refused_update :
      (hal : Hal) (ifname : CString) (nr old : NeighInfo) (s : State) (i : ℕ)
      → map ifname ≡ some i
      → length ifname < ifname_len
      → find key_dec (nr.bssid, ifname) s.neighbors ≡ some old
      → Synced ifname_len map s
      → let t = (change ifname_len map hal (sets (λ c. false) ifname nr) s).0 in
        (find key_dec (nr.bssid, ifname) t.neighbors ≡ none)
        × (report_for nr.bssid (reports_of i t.calls) ≡ some old)
  unfolding change answering target_bsal_rrm_set_neighbor bsal_send_update_neighbor_list or_restore
      reports_of
  refused_update hal ifname nr old s i named fits there v =
      subst
        (λ r.
          (find key_dec (nr.bssid, ifname)
              (or_restore (remove key_dec (neigh_key ifname_len ifname nr)) r).0.neighbors
            ≡ none)
          × (report_for nr.bssid (
                reports_of i
                  (or_restore (remove key_dec (neigh_key ifname_len ifname nr)) r).0.calls)
              ≡ some old))
        (sym (refused_send hal ifname i _ named))
        (rw (key_fits ifname_len map ifname nr fits) (
          find-remove_self key_dec (nr.bssid, ifname) _,
          v.matches ifname nr.bssid i named fits ∙ there,
        ))
