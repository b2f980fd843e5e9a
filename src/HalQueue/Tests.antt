-- ===== src/HalQueue/Tests.antt =====
-- The theorems on the queue at concrete inputs.
use opensync_platform_rdk.Common.{◌≡◌, refl, ℕ, List, [], ◌∷◌, inr, inl, arith}
use opensync_platform_rdk.HalQueue.{unset, push, wake, dispatch, start}
use opensync_platform_rdk.HalQueue.Order.{
  Action, History, InOrder, arrives, wakes, turn, sends_all, run, act, run-InOrder,
  turn_handles_all,
}

abbrev started : History ℕ
started = record { queue = start unset; handled = []; accepted = [] }

started-InOrder : InOrder started
unfolding start
started-InOrder = record {
  valid = record { counted = refl; bounded = omega arith; awake = inr (inl refl) };
  fifo = refl;
}

abbrev actions : List (Action ℕ)
actions = arrives 3 ∷ arrives 5 ∷ turn ∷ wakes ∷ turn ∷ arrives 8 ∷ wakes ∷ []

-- A turn before a wake-up does nothing, the next handles two events in order, the third still waits.
three_events : (run actions started).handled ≡ 3 ∷ 5 ∷ []
unfolding run act start push wake dispatch
three_events = refl

run-InOrder_example : InOrder (run actions started)
run-InOrder_example = run-InOrder actions started started-InOrder

turn_handles_all_example :
    let h = run (arrives 4 ∷ arrives 6 ∷ wakes ∷ []) started in
    let t = act turn (run (sends_all h.queue.sending) h) in
    (t.handled ≡ h.accepted) × (t.queue.entries ≡ [])
unfolding act run push wake start
turn_handles_all_example =
    turn_handles_all (run (arrives 4 ∷ arrives 6 ∷ wakes ∷ []) started)
      (run-InOrder (arrives 4 ∷ arrives 6 ∷ wakes ∷ []) started started-InOrder) refl
