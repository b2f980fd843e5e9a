-- ===== src/HalQueue/Order.antt =====
-- The invariant of the queue, and that its events are handled in order.
use opensync_platform_rdk.Common.{
  ℕ, zero, suc, ◌<◌, refl, ◌∙◌, ◌-◌, ◌≤◌, ◌≡◌, ◌⊎◌, ◌↔◌, inl, inr, true, false, List, [], ◌∷◌, ◌++◌,
  if◌then◌else◌, length, length-append, arith,
}
use mathlib.Core.List.{append_assoc, append-nil}
use opensync_platform_rdk.HalQueue.{
  Queue, unset, start, queue_max, push, wake, drain_loop, dispatch,
}

module _ {A : Type 0} where
  -- The counter is the length and within the limit, and of a queue that holds an event and has its
  -- loop the wake-up is pending, or a callback is about to send it.
  pub record Inv (q : Queue A) : Type 0 where
    pub counted : q.len ≡ length q.entries
    pub bounded : length q.entries ≤ queue_max
    pub awake : (q.loop ≡ false) ⊎ (q.entries ≡ []) ⊎ (q.pending ≡ true) ⊎ (0 < q.sending)

  push-Inv : (e : A) (q : Queue A) → Inv q → Inv (push e q).0
  unfolding push
  push-Inv e q v = ground (arith, length-append q.entries (e ∷ []))

-- What the environment does to a queue: a callback of a HAL thread stores its event, one that has
-- stored its event sends the wake-up, or the event loop takes a turn.
pub data Action (A : Type 0) : Type 0 where
  arrives : A → Action A
  wakes : Action A
  turn : Action A

-- The queue, the events handled so far, and those that the callback accepted, oldest first.
pub record History (A : Type 0) : Type 0 where
  pub queue : Queue A
  pub handled : List A
  pub accepted : List A

-- The history of a queue that has just been initialised.
abbrev pub begun : {A : Type 0} → History A
begun = record { queue = start unset; handled = []; accepted = [] }

-- Nothing is lost, doubled or reordered between the callback and the handler.
pub record InOrder {A : Type 0} (h : History A) : Type 0 where
  pub valid : Inv h.queue
  pub fifo : h.handled ++ h.queue.entries ≡ h.accepted

module _ {A : Type 0} where
  abbrev pub record_event : A → List A → List A
  record_event e handled = handled ++ e ∷ []

  unfoldable pub act : Action A → History A → History A
  act (arrives e) h =
      let (q, ok) = push e h.queue in
      record h { queue = q; accepted = if ok then h.accepted ++ e ∷ [] else h.accepted }
  act wakes h = record h { queue = wake h.queue }
  act turn h =
      let (q, done) = dispatch record_event h.queue h.handled in
      record h { queue = q; handled = done }

  unfoldable pub run : List (Action A) → History A → History A
  unfolding act
  run [] h = h
  run (a ∷ rest) h = run rest (act a h)

  drain_loop-append :
      (es : List A) (len : ℕ) (done : List A)
      → drain_loop record_event es len done ≡ (len - length es, done ++ es)
  unfolding drain_loop
  drain_loop-append [] len done = ground (arith, append-nil done)
  drain_loop-append (e ∷ es) len done =
      ground
        (arith, drain_loop-append es (len - 1) (record_event e done), append_assoc done (e ∷ []) es)

  arrives-InOrder : (e : A) (h : History A) → InOrder h → InOrder (act (arrives e) h)
  unfolding act push
  arrives-InOrder e h v = ground (
    arith,
    length-append h.queue.entries (e ∷ []),
    append_assoc h.handled h.queue.entries (e ∷ []),
  )

  wakes-InOrder : (h : History A) → InOrder h → InOrder (act wakes h)
  unfolding act wake
  wakes-InOrder h v = record {
    valid = record {
      counted = ground (arith, v.valid.counted);
      bounded = ground (arith, v.valid.bounded);
      awake = ground (arith, v.valid.awake);
    };
    fifo = ground (arith, v.fifo);
  }

  turn-InOrder : (h : History A) → InOrder h → InOrder (act turn h)
  unfolding act dispatch
  turn-InOrder h v = ground (
    arith,
    drain_loop-append h.queue.entries h.queue.len h.handled,
    append-nil (h.handled ++ h.queue.entries),
  )

  -- From a history with this property, whatever the interleaving of the HAL callbacks' two steps
  -- (storing an event under the lock, sending the wake-up after it) and of turns of the event loop:
  -- the events that the callback accepted are those handled followed by those still queued, in
  -- order of arrival; the counter of the queue is its length, at most 20; and while a queue whose
  -- loop is set holds an event, its watcher is pending or a callback is about to send the wake-up.
  pub run-InOrder :
      (actions : List (Action A)) (h : History A) → InOrder h → InOrder (run actions h)
  unfolding run
  run-InOrder [] h v = v
  run-InOrder (arrives e ∷ rest) h v = run-InOrder rest (act (arrives e) h) (arrives-InOrder e h v)
  run-InOrder (wakes ∷ rest) h v = run-InOrder rest (act wakes h) (wakes-InOrder h v)
  run-InOrder (turn ∷ rest) h v = run-InOrder rest (act turn h) (turn-InOrder h v)

  -- Every callback that has stored its event comes to send its wake-up.
  unfoldable pub sends_all : ℕ → List (Action A)
  sends_all zero = []
  sends_all (suc n) = wakes ∷ sends_all n

  sends_all-rest :
      (n : ℕ) (h : History A)
      → h.queue.sending ≡ n
      → ((run (sends_all n) h).queue.sending ≡ 0)
        × ((run (sends_all n) h).queue.loop ≡ h.queue.loop)
        × ((run (sends_all n) h).accepted ≡ h.accepted)
  unfolding sends_all run act wake
  sends_all-rest zero h e = (e, refl, refl)
  sends_all-rest (suc n) h e =
      let (none_left, loop, accepted) = sends_all-rest n (act wakes h) (ground (arith, e)) in
      (none_left, ground (arith, loop), ground (arith, accepted))

  turn_awake :
      (h : History A)
      → InOrder h
      → h.queue.loop ≡ true
      → h.queue.sending ≡ 0
      → ((act turn h).handled ≡ h.accepted) × ((act turn h).queue.entries ≡ [])
  unfolding act dispatch
  turn_awake h v set sent =
      ground (arith, drain_loop-append h.queue.entries h.queue.len h.handled, append-nil h.handled)

  -- No wake-up is lost: in a history as run-InOrder gives it, once the loop is set and the callbacks that
  -- have stored an event have each sent their wake-up, one turn of the event loop handles every
  -- event accepted so far, and leaves the queue empty.
  pub turn_handles_all :
      (h : History A)
      → InOrder h
      → h.queue.loop ≡ true
      → let t = act turn (run (sends_all h.queue.sending) h) in
        (t.handled ≡ h.accepted) × (t.queue.entries ≡ [])
  turn_handles_all h v set =
      let (sent, loop, same) = sends_all-rest h.queue.sending h refl in
      let (all, empty) =
        turn_awake _ (run-InOrder (sends_all h.queue.sending) h v) (loop ∙ set) sent in
      (all ∙ same, empty)

  -- The callback of a queue with the invariant refuses an event exactly when 20 events wait.
  pub push-full :
      (e : A) (q : Queue A) → Inv q → ((push e q).1 ≡ false) ↔ (length q.entries ≡ queue_max)
  unfolding push
  push-full e q v = ground arith

  pub begun-InOrder : InOrder {A = A} begun
  unfolding start
  begun-InOrder = record {
    valid = record { counted = refl; bounded = omega arith; awake = inr (inl refl) };
    fifo = refl;
  }
