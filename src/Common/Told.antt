-- ===== src/Common/Told.antt =====
-- Sequences of which each entry tells one thing or nothing: the events of a queue and what is done
-- for them, the instances of a server and whom they notify.
use opensync_platform_rdk.Common.{◌≡◌, ◌⊎◌, List, [], ◌∷◌, Option, none, some, arith}

pub none-some : {A : Type 0} {o : Option A} {a : A} → o ≡ none → o ≡ some a → ⊥
none-some e f = ground (arith, e, f)

-- What a list of events tells, by what one event tells: each tells one thing or nothing, in order.
pub data Told {A B : Type 0} (Tells : A → B → Type 0) : List A → List B → Type 0 where
  nothing : Told Tells [] []
  tells :
      {e : A} {u : B} {es : List A} {us : List B}
      → Tells e u
      → Told Tells es us
      → Told Tells (e ∷ es) (u ∷ us)
  silent :
      {e : A} {es : List A} {us : List B}
      → ((u : B) → Tells e u → ⊥)
      → Told Tells es us
      → Told Tells (e ∷ es) us

-- An event is handled as it tells.
abbrev pub TellsOnce : {A B : Type 0} → (A → B → Type 0) → A → List B → Type 0
TellsOnce {B = B} Tells e us =
    ((u : B) × Tells e u × (us ≡ u ∷ [])) ⊎ (((u : B) → Tells e u → ⊥) × (us ≡ []))
