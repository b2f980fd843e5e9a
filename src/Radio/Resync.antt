-- ===== src/Radio/Resync.antt =====
-- The resynchronisation of all tables, src/lib/target/src/radio.c: when it is due and what it
-- reports.
pub mod Served
use opensync_platform_rdk.Common.{
  ℕ, zero, suc, ◌+◌, Bool, true, false, not, ◌&&◌, List, [], ◌∷◌, ◌++◌, Option, none, some,
  if◌then◌else◌, ◌==◌, ◌≡◌, ◌⊎◌, refl, sym, ap, ◌∙◌, inl, inr, Bool-cases, Option-cases, arith,
  CString, length,
}
use opensync_platform_rdk.Radio.{RadioHal, RadioState, Radar, radio_state_get}

-- An interface of a radio, as far as the resynchronisation reads it: vap_controlled of its name.
pub record ResyncVap : Type 0 where
  pub index : ℕ
  pub controlled : Bool
  pub enabled : Bool

-- What the task does: a report of a radio, the fetch of an interface's clients, the report of its
-- state. Beside them the trace has the requests and the starts of the task.
pub data ResyncEvent : Type 0 where
  asked started : ResyncEvent
  reports : RadioState → ResyncEvent
  fetches updates : ℕ → ResyncEvent

-- g_resync_ongoing, whether radio_resync_all_task_timer runs, and what happened, the latest first.
pub record Resync : Type 0 where
  pub ongoing : Bool
  pub timer : Bool
  pub trace : List ResyncEvent

unfoldable pub trigger_resync : Resync → Resync
trigger_resync r =
    if r.ongoing
    then record r { trace = asked ∷ r.trace }
    else record r { ongoing = true; timer = true; trace = asked ∷ r.trace }

-- The inner loop, over the interfaces of a radio.
unfoldable pub resync_vaps : List ResyncVap → List ResyncEvent → List ResyncEvent
resync_vaps [] out = out
resync_vaps (v ∷ vs) out =
    if v.controlled && v.enabled
    then resync_vaps vs (updates v.index ∷ fetches v.index ∷ out)
    else resync_vaps vs out

-- The outer loop, from radio i over as many as are left; without an interface map it ends.
unfoldable pub resync_radios :
    RadioHal → Radar → (ℕ → Option (List ResyncVap)) → ℕ → ℕ → List ResyncEvent → List ResyncEvent
unfolding radio_state_get resync_vaps
resync_radios hal radar vaps zero i out = out
resync_radios hal radar vaps (suc left) i out = elim (radio_state_get hal radar i) [
  | none ↦ resync_radios hal radar vaps left (i + 1) out
  | some st ↦ elim (vaps i) [
    | none ↦ reports st ∷ out
    | some vs ↦ resync_radios hal radar vaps left (i + 1) (resync_vaps vs (reports st ∷ out))
  ]
]

unfoldable pub resync_pass :
    RadioHal → Radar → (ℕ → Option (List ResyncVap)) → List ResyncEvent → List ResyncEvent
unfolding resync_radios
resync_pass hal radar vaps out = elim (hal.caps) [
  | none ↦ out
  | some caps ↦ resync_radios hal radar vaps (length caps) 0 out
]

-- The timer has expired, and does not repeat.
unfoldable pub radio_resync_all_task :
    RadioHal → Radar → (ℕ → Option (List ResyncVap)) → Resync → Resync
unfolding resync_pass
radio_resync_all_task hal radar vaps r = record {
  ongoing = false;
  timer = false;
  trace = resync_pass hal radar vaps (started ∷ r.trace);
}

-- A step: a trigger, or the expiry of a timer that runs, with what the HAL answers then.
pub data ResyncStep : Type 0 where
  triggers : ResyncStep
  fires : RadioHal → Radar → (ℕ → Option (List ResyncVap)) → ResyncStep

unfoldable pub resync_step : ResyncStep → Resync → Resync
unfolding trigger_resync radio_resync_all_task
resync_step triggers r = trigger_resync r
resync_step (fires hal radar vaps) r = if r.timer then radio_resync_all_task hal radar vaps r else r

unfoldable pub resync_run : List ResyncStep → Resync → Resync
unfolding resync_step
resync_run [] r = r
resync_run (s ∷ ss) r = resync_run ss (resync_step s r)
