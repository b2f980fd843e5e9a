-- ===== src/Vif/Deferred.antt =====
-- The updates of interfaces that wait for a timer, src/lib/target/src/vif.c. A timer is known by the
-- interface of its entry.
pub mod Settled
use opensync_platform_rdk.Common.{
  ℕ, Bool, true, false, not, List, [], ◌∷◌, ◌++◌, if◌then◌else◌, ◌==◌,
}

-- vif_state_update_entry_t; `armed` is whether the timer runs.
pub record UpdateEntry : Type 0 where
  pub ssid_index : ℕ
  pub armed : Bool

-- What happened, the latest first: a request for an update, and a call of vif_state_update.
pub data Happening : Type 0 where
  requested updated : ℕ → Happening

-- vif_update_init_done, vif_update_queue, and what happened.
pub record Deferred : Type 0 where
  pub init_done : Bool
  pub queue : List UpdateEntry
  pub trace : List Happening

unfoldable pub found : ℕ → List UpdateEntry → Bool
found i [] = false
found i (e ∷ es) = if i == e.ssid_index then true else found i es

-- The timer of the entry that the loop found is stopped, and started again after the update.
unfoldable pub rearm : ℕ → List UpdateEntry → List UpdateEntry
rearm i [] = []
rearm i (e ∷ es) = if i == e.ssid_index then record e { armed = true } ∷ es else e ∷ rearm i es

unfoldable pub unlink : ℕ → List UpdateEntry → List UpdateEntry
unlink i [] = []
unlink i (e ∷ es) = if i == e.ssid_index then es else e ∷ unlink i es

-- The timer of interface i: vif_state_update_task.
unfoldable pub vif_state_update_task : ℕ → Deferred → Deferred
unfolding unlink
vif_state_update_task i d = record d { trace = updated i ∷ d.trace; queue = unlink i d.queue }

-- The part of vif_state_update_deferred behind the initialisation of the queue.
unfoldable pub request : ℕ → Deferred → Deferred
unfolding found rearm
request i d =
    if found i d.queue
    then record d { trace = updated i ∷ requested i ∷ d.trace; queue = rearm i d.queue }
    else record d {
      trace = requested i ∷ d.trace;
      queue = d.queue ++ record { ssid_index = i; armed = true } ∷ [];
    }

unfoldable pub vif_state_update_deferred : ℕ → Deferred → Deferred
unfolding request
vif_state_update_deferred i d =
    request i (if d.init_done then d else record d { init_done = true; queue = [] })

-- Whether the timer of interface i runs.
unfoldable pub armed_for : ℕ → List UpdateEntry → Bool
armed_for i [] = false
armed_for i (e ∷ es) = if i == e.ssid_index then e.armed else armed_for i es

-- A step: a configuration asks for an update, or the event loop finds a timer of an interface expired.
pub data UpdateStep : Type 0 where
  asks expires : ℕ → UpdateStep

unfoldable pub turn : UpdateStep → Deferred → Deferred
unfolding vif_state_update_deferred vif_state_update_task armed_for
turn (asks i) d = vif_state_update_deferred i d
turn (expires i) d = if armed_for i d.queue then vif_state_update_task i d else d
