-- ===== src/Common/Tree.antt =====
-- A keyed tree (ds_tree) as the list of its entries in the order of an iteration. The keys of a
-- tree are distinct.
use mathlib.Core.Path.{◌≡◌, ◌∙◌, refl, ap, subst}
use mathlib.Core.Logic.{◌≢◌, ite, if_pos, if_neg}
use mathlib.Core.Bool.{Bool}
use mathlib.Core.List.{List, [], ◌∷◌}
use mathlib.Core.Option
use mathlib.Core.Option.{Option, none, some}
use native.Mathlib.Omega.{arith}
use opensync_platform_rdk.Common.Tests.{if◌then◌else◌}

module _ {K V : Type 0} (dec : Discrete K) where
  unfoldable pub find : K → List (K × V) → Option V
  find k [] = none
  find k ((j, v) ∷ t) = ite (dec j k) (some v) (find k t)

  -- The new entry stands before the first greater key.
  unfoldable pub insert : (K → K → Bool) → K → V → List (K × V) → List (K × V)
  insert less k v [] = (k, v) ∷ []
  insert less k v ((j, w) ∷ t) =
      if less k j then (k, v) ∷ (j, w) ∷ t else (j, w) ∷ insert less k v t

  unfoldable pub remove : K → List (K × V) → List (K × V)
  remove k [] = []
  remove k ((j, w) ∷ t) = ite (dec j k) (remove k t) ((j, w) ∷ remove k t)

  -- A write through the pointer that `find` gives.
  unfoldable pub adjust : K → (V → V) → List (K × V) → List (K × V)
  adjust k f [] = []
  adjust k f ((j, w) ∷ t) = ite (dec j k) ((j, f w) ∷ adjust k f t) ((j, w) ∷ adjust k f t)

  pub find-insert :
      (less : K → K → Bool) (k q : K) (v : V) (t : List (K × V))
      → find k t ≡ none
      → find q (insert less k v t) ≡ ite (dec k q) (some v) (find q t)
  unfolding find insert
  find-insert less k q v [] h = refl
  find-insert less k q v ((j, w) ∷ t) h = ground (arith, find-insert less k q v t)

  pub find-remove :
      (k q : K) (t : List (K × V)) → find q (remove k t) ≡ ite (dec k q) none (find q t)
  unfolding find remove
  find-remove k q [] = ground arith
  find-remove k q ((j, w) ∷ t) = ground (arith, find-remove k q t)

  pub find-adjust :
      (k q : K) (f : V → V) (t : List (K × V))
      → find q (adjust k f t) ≡ ite (dec k q) (Option.map f (find q t)) (find q t)
  unfolding find adjust
  find-adjust k q f [] = ground arith
  find-adjust k q f ((j, w) ∷ t) = ground (arith, find-adjust k q f t)

  pub find-insert_self :
      (less : K → K → Bool) (k : K) (v : V) (t : List (K × V))
      → find k t ≡ none
      → find k (insert less k v t) ≡ some v
  find-insert_self less k v t h = find-insert less k k v t h ∙ if_pos (dec k k) refl _ _

  pub find-insert_ne :
      (less : K → K → Bool) (k q : K) (v : V) (t : List (K × V))
      → find k t ≡ none
      → k ≢ q
      → find q (insert less k v t) ≡ find q t
  find-insert_ne less k q v t h ne = find-insert less k q v t h ∙ if_neg (dec k q) ne _ _

  pub find-remove_self : (k : K) (t : List (K × V)) → find k (remove k t) ≡ none
  find-remove_self k t = find-remove k k t ∙ if_pos (dec k k) refl _ _

  pub find-remove_ne : (k q : K) (t : List (K × V)) → k ≢ q → find q (remove k t) ≡ find q t
  find-remove_ne k q t ne = find-remove k q t ∙ if_neg (dec k q) ne _ _

  pub find-adjust_self :
      (k : K) (f : V → V) (v : V) (t : List (K × V))
      → find k t ≡ some v
      → find k (adjust k f t) ≡ some (f v)
  find-adjust_self k f v t h = find-adjust k k f t ∙ if_pos (dec k k) refl _ _ ∙ ap (Option.map f) h

  pub find-adjust_ne :
      (k q : K) (f : V → V) (t : List (K × V)) → k ≢ q → find q (adjust k f t) ≡ find q t
  find-adjust_ne k q f t ne = find-adjust k q f t ∙ if_neg (dec k q) ne _ _

-- A statement about every key, from the one about `k` and those about the others.
pub by_key {ℓ} :
    {K : Type 0} (dec : Discrete K) (P : K → Type ℓ) (k : K)
    → P k
    → ((q : K) → k ≢ q → P q)
    → (q : K) → P q
by_key dec P k here there q = elim (dec k q) [ yes e ↦ subst P e here | no ne ↦ there q ne ]
