-- ===== src/Radio/Resync/Served.antt =====
-- That no request for a resynchronisation is lost, src/lib/target/src/radio.c.
use opensync_platform_rdk.Common.{
  ℕ, zero, suc, ◌+◌, Bool, true, false, ◌&&◌, List, [], ◌∷◌, Option, none, some, if◌then◌else◌, ◌≡◌,
  refl, sym, ◌∙◌, inl, inr, Bool-cases, Option-cases, arith, length,
}
use opensync_platform_rdk.Radio.{RadioHal, Radar, radio_state_get}
use opensync_platform_rdk.Radio.Resync.{
  ResyncVap, ResyncEvent, asked, started, reports, fetches, updates, Resync, trigger_resync,
  resync_vaps, resync_radios, resync_pass, radio_resync_all_task, ResyncStep, triggers, fires,
  resync_step, resync_run,
}

-- Whether a pass began after the last request, if there was one.
unfoldable pub begun_since : List ResyncEvent → Bool
begun_since [] = true
begun_since (asked ∷ rest) = false
begun_since (started ∷ rest) = true
begun_since (reports st ∷ rest) = begun_since rest
begun_since (fetches i ∷ rest) = begun_since rest
begun_since (updates i ∷ rest) = begun_since rest

-- The flag is set exactly while the timer runs, and without a timer no request waits.
pub record Served (r : Resync) : Type 0 where
  pub flag : r.ongoing ≡ r.timer
  pub none_waits : r.timer ≡ false → begun_since r.trace ≡ true

vaps-begun :
    (vs : List ResyncVap) (out : List ResyncEvent)
    → begun_since (resync_vaps vs out) ≡ begun_since out
unfolding resync_vaps begun_since
vaps-begun [] out = refl
vaps-begun (v ∷ vs) out = elim (Bool-cases (v.controlled && v.enabled)) [
  | inl e ↦ rw (e) (vaps-begun vs (updates v.index ∷ fetches v.index ∷ out))
  | inr e ↦ rw (e) (vaps-begun vs out)
]

radios-begun :
    (hal : RadioHal) (radar : Radar) (vaps : ℕ → Option (List ResyncVap)) (left i : ℕ)
    (out : List ResyncEvent)
    → begun_since (resync_radios hal radar vaps left i out) ≡ begun_since out
unfolding resync_radios begun_since
radios-begun hal radar vaps zero i out = refl
radios-begun hal radar vaps (suc left) i out = elim (Option-cases (radio_state_get hal radar i)) [
  | inl e ↦ rw (resync_radios, e) (radios-begun hal radar vaps left (i + 1) out)
  | inr (st, e) ↦ elim (Option-cases (vaps i)) [
    | inl f ↦ rw (resync_radios, e, f) refl
    | inr (vs, f) ↦
        rw (resync_radios, e, f)
          (radios-begun hal radar vaps left (i + 1) (resync_vaps vs (reports st ∷ out))
            ∙ vaps-begun vs (reports st ∷ out))
  ]
]

pass-begun :
    (hal : RadioHal) (radar : Radar) (vaps : ℕ → Option (List ResyncVap)) (out : List ResyncEvent)
    → begun_since (resync_pass hal radar vaps out) ≡ begun_since out
unfolding resync_pass
pass-begun hal radar vaps out =
    elim hal.caps
      as (λ o.
        begun_since (elim o as (λ x. List ResyncEvent) [
          | none ↦ out
          | some caps ↦ resync_radios hal radar vaps (length caps) 0 out
        ])
        ≡ begun_since out) [
          | none ↦ refl
          | some caps ↦ radios-begun hal radar vaps (length caps) 0 out
        ]

trigger-Served : (r : Resync) → Served r → Served (trigger_resync r)
unfolding trigger_resync begun_since
trigger-Served r h = elim (Bool-cases r.ongoing) [
  | inl e ↦
      rw (trigger_resync, e)
        (record { flag = sym e ∙ h.flag; none_waits = λ off. ground (arith, e, h.flag, off) })
  | inr e ↦ rw (trigger_resync, e) (record { flag = refl; none_waits = λ off. ground (arith, off) })
]

resync_step-Served : (s : ResyncStep) (r : Resync) → Served r → Served (resync_step s r)
unfolding resync_step radio_resync_all_task begun_since
resync_step-Served triggers r h = trigger-Served r h
resync_step-Served (fires hal radar vaps) r h =
    elim r.timer as (λ b. Served (if b then radio_resync_all_task hal radar vaps r else r)) [
      | false ↦ h
      | true ↦ record {
        flag = refl;
        none_waits = λ off. pass-begun hal radar vaps (started ∷ r.trace);
      }
    ]

-- Triggers and expiring timers, in any order and whatever the HAL answers to each pass, keep this: the
-- flag of an ongoing resynchronisation is set exactly while its timer runs, so that a trigger never
-- finds the flag set for nothing, and while no timer runs a pass has begun after the last trigger.
pub resync_run-Served :
    (steps : List ResyncStep) (r : Resync) → Served r → Served (resync_run steps r)
unfolding resync_run
resync_run-Served [] r h = h
resync_run-Served (s ∷ ss) r h = resync_run-Served ss (resync_step s r) (resync_step-Served s r h)
