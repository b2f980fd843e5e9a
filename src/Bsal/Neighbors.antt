-- ===== src/Bsal/Neighbors.antt =====
-- The neighbors of the interfaces: the last part of bsal.c.
pub mod Keys
pub mod Synced
pub mod Changes
use opensync_platform_rdk.Common.{
  ℕ, Bool, true, false, List, [], ◌∷◌, Option, none, some, ite, if◌then◌else◌, CString, str_dec,
  strscpy, str_lt,
}
use opensync_platform_rdk.Common.Tree.{find, insert, remove, adjust}
use opensync_platform_rdk.Bsal.Types.{NeighInfo, NeighKey, neighbor_reports, Hal, State}
use opensync_platform_rdk.Bsal.{call_hal}

unfoldable pub key_dec : Discrete NeighKey
key_dec = hlevel str_dec

-- bssid_ifname_cmp(a, b) < 0
unfoldable pub bssid_ifname_lt : NeighKey → NeighKey → Bool
bssid_ifname_lt (b, i) (c, j) =
    if str_lt b c then true else if str_lt c b then false else str_lt i j

-- The second loop of bsal_send_update_neighbor_list; the first one counts what it collects.
unfoldable pub collect : CString → List (NeighKey × NeighInfo) → List NeighInfo
collect ifname [] = []
collect ifname ((k, nr) ∷ t) = ite (str_dec k.1 ifname) (nr ∷ collect ifname t) (collect ifname t)

unfoldable pub bsal_send_update_neighbor_list : Hal → CString → State → State × Bool
bsal_send_update_neighbor_list hal ifname s = elim (hal.ifname_to_idx ifname) [
  | none ↦ (s, false)
  | some ap_index ↦ call_hal hal (neighbor_reports ap_index (collect ifname s.neighbors)) s
]

abbrev pub with_neighbors : List (NeighKey × NeighInfo) → State → State
with_neighbors t s = record s { neighbors = t }

-- The tail of the two operations: without success, `restore` undoes the change of the tree.
unfoldable pub or_restore :
    (List (NeighKey × NeighInfo) → List (NeighKey × NeighInfo)) → State × Bool → State × Bool
or_restore restore (s, true) = (s, true)
or_restore restore (s, false) = (with_neighbors (restore s.neighbors) s, false)

-- The roll-back of a removal inserts the node under the key on the stack of the function.
unfoldable pub or_dangle : State × Bool → State × Bool
or_dangle (s, true) = (s, true)
or_dangle (s, false) = (record s { dangling = true }, false)

-- Insert the neighbor, or overwrite the one with its key.
unfoldable pub write_neighbor :
    NeighKey → NeighInfo → List (NeighKey × NeighInfo) → List (NeighKey × NeighInfo)
write_neighbor k nr t = elim (find key_dec k t) [
  | none ↦ insert key_dec bssid_ifname_lt k nr t
  | some _ ↦ adjust key_dec k (λ old. nr) t
]

-- `ifname_len` is BSAL_IFNAME_LEN, a constant of the core.
module _ (ifname_len : ℕ) where
  abbrev pub neigh_key : CString → NeighInfo → NeighKey
  neigh_key ifname nr = (nr.bssid, strscpy ifname_len ifname)

  unfoldable pub target_bsal_rrm_set_neighbor : Hal → CString → NeighInfo → State → State × Bool
  target_bsal_rrm_set_neighbor hal ifname nr s =
      let k = neigh_key ifname nr in
      or_restore (remove key_dec k) (
        bsal_send_update_neighbor_list hal ifname
          (with_neighbors (write_neighbor k nr s.neighbors) s))

  unfoldable pub target_bsal_rrm_remove_neighbor : Hal → CString → NeighInfo → State → State × Bool
  target_bsal_rrm_remove_neighbor hal ifname nr s =
      let k = neigh_key ifname nr in
      elim (find key_dec k s.neighbors) [
        | none ↦ (s, true)
        | some old ↦ or_dangle (
            or_restore (insert key_dec bssid_ifname_lt k old) (
              bsal_send_update_neighbor_list hal ifname
                (with_neighbors (remove key_dec k s.neighbors) s)))
      ]
