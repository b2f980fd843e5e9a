-- ===== src/Vif/Acl/Applied.antt =====
-- The access list of an interface after the configuration, src/lib/target/src/vif.c.
use opensync_platform_rdk.Common.{
  ℕ, Bool, true, false, List, [], ◌∷◌, ◌++◌, if◌then◌else◌, ◌≡◌, CString, str_eq, length, All,
}
use opensync_platform_rdk.Vif.Types.{VifCall, del_acl, add_acl}
use opensync_platform_rdk.Vif.Acl.{is_separator}

-- An access list as the HAL keeps it, with the effect of the calls on it.
pub record AclStore (S : Type 0) : Type 0 where
  pub member : CString → S → Bool
  pub step : VifCall → S → S
  pub member-del :
      (i : ℕ) (m x : CString) (s : S)
      → member x (step (del_acl i m) s) ≡ (if str_eq x m then false else member x s)
  pub member-add :
      (i : ℕ) (m x : CString) (s : S)
      → member x (step (add_acl i m) s) ≡ (if str_eq x m then true else member x s)

-- The text that lists addresses, each before a line feed.
abbrev pub listed : List CString → CString
listed [] = []
listed (m ∷ ms) = m ++ 10 ∷ listed ms

-- An address: 17 characters, none of them a separator.
abbrev pub Mac : CString → Type 0
Mac m = (length m ≡ 17) × All (λ c. is_separator c ≡ false) m

module _ {S : Type 0} (store : AclStore S) where
  unfoldable pub run : List VifCall → S → S
  run [] s = s
  run (c ∷ cs) s = run cs (store.step c s)
