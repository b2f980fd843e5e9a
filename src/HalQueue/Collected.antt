-- ===== src/HalQueue/Collected.antt =====
-- A queue of the HAL whose handler appends what it does for an event to a list: src/lib/target/src/wps.c,
-- multi_ap.c and vif.c have such queues.
use opensync_platform_rdk.Common.{
  ℕ, ◌-◌, ◌≡◌, inl, inr, subst, refl, sym, ap, ◌∙◌, List, [], ◌∷◌, ◌++◌,
}
use mathlib.Core.List.{append_assoc, append-nil}
use opensync_platform_rdk.HalQueue.{drain_loop}
use opensync_platform_rdk.HalQueue.Order.{record_event}
use opensync_platform_rdk.Common.Told.{Told, nothing, tells, silent, TellsOnce}

module _ {A B : Type 0} (does : A → List B) where
  -- What is done for a list of events.
  unfoldable pub collected : List A → List B
  collected [] = []
  collected (e ∷ es) = does e ++ collected es

  collected-append : (es fs : List A) → collected (es ++ fs) ≡ collected es ++ collected fs
  unfolding collected
  collected-append [] fs = refl
  collected-append (e ∷ es) fs =
      ap (λ x. does e ++ x) (collected-append es fs)
      ∙ sym (append_assoc (does e) (collected es) (collected fs))

  pub drain-collected :
      (es done : List A) (len : ℕ)
      → drain_loop (λ e out. out ++ does e) es len (collected done)
        ≡ (let r = drain_loop record_event es len done in (r.0, collected r.1))
  unfolding drain_loop collected
  drain-collected [] done len = refl
  drain-collected (e ∷ es) done len =
      ap (drain_loop (λ e out. out ++ does e) es (len - 1)) (
        ap (λ x. collected done ++ x) (sym (append-nil (does e)))
        ∙ sym (collected-append done (e ∷ [])))
      ∙ drain-collected es (done ++ e ∷ []) (len - 1)

pub collected-Told :
    {A B : Type 0} (Tells : A → B → Type 0) (does : A → List B)
    → ((e : A) → TellsOnce Tells e (does e))
    → (es : List A) → Told Tells es (collected does es)
unfolding collected
collected-Told Tells does each [] = nothing
collected-Told Tells does each (e ∷ es) =
    let rest = collected-Told Tells does each es in
    elim (each e) [
      | inl (u, is, eq) ↦
          subst (λ x. Told Tells (e ∷ es) (x ++ collected does es)) (sym eq) (tells is rest)
      | inr (not_told, eq) ↦
          subst (λ x. Told Tells (e ∷ es) (x ++ collected does es)) (sym eq) (silent not_told rest)
    ]
