-- ===== src/HalQueue.antt =====
-- The bounded queue between the threads of the Wi-Fi HAL and the event loop. clients.c, wps.c and
-- multi_ap.c (src/lib/target/src) each hold a copy of this code; their modules name its lines.
pub mod Order
pub mod Collected
mod Tests
use opensync_platform_rdk.Common.{
  ℕ, ◌+◌, ◌-◌, Bool, true, false, List, [], ◌∷◌, ◌++◌, if◌then◌else◌, ◌==◌,
}

-- HAL_CB_QUEUE_MAX
abbrev pub queue_max : ℕ
queue_max = 20

-- `loop` is whether the static loop pointer is set, and `pending` is ev_async_pending. `sending` is how
-- many callbacks have released the lock with an event in the queue and have not yet come to the end of
-- their test and send of the wake-up: the threads of the HAL are between the two at any time.
pub record Queue (A : Type 0) : Type 0 where
  pub entries : List A
  pub len : ℕ
  pub loop : Bool
  pub pending : Bool
  pub sending : ℕ

module _ {A : Type 0} where
  -- A static queue before its component's init function.
  abbrev pub unset : Queue A
  unset = record { entries = []; len = 0; loop = false; pending = false; sending = 0 }

  -- The part of the callback of the HAL that holds the queue's lock; it returns whether it took the
  -- event, in which case `wake` is still to come.
  unfoldable pub push : A → Queue A → Queue A × Bool
  push e q = if q.len == queue_max then (q, false) else (
    record q { entries = q.entries ++ e ∷ []; len = q.len + 1; sending = q.sending + 1 },
    true,
  )

  -- The end of a callback that took an event, without the lock: ev_async_send, behind the tests of
  -- the loop and of ev_async_pending. A send that comes after a test that found no wake-up pending
  -- has the same effect whether another one came between, so test and send are one step.
  unfoldable pub wake : Queue A → Queue A
  wake q =
      if q.sending == 0
      then q
      else record q { pending = if q.loop then true else q.pending; sending = q.sending - 1 }

module _ {A S : Type 0} (handle : A → S → S) where
  -- The loop of the async callback: unlink the first entry, count it off, handle it.
  unfoldable pub drain_loop : List A → ℕ → S → ℕ × S
  drain_loop [] len s = (len, s)
  drain_loop (e ∷ es) len s = drain_loop es (len - 1) (handle e s)

  -- The async callback. It holds the lock throughout, so that no event arrives meanwhile.
  unfoldable pub drain : Queue A → S → Queue A × S
  unfolding drain_loop
  drain q s =
      let (len, s') = drain_loop q.entries q.len s in (record q { entries = []; len = len }, s')

  -- The event loop runs the callback of a watcher that is pending, and clears the mark first.
  unfoldable pub dispatch : Queue A → S → Queue A × S
  unfolding drain
  dispatch q s = if q.pending then drain (record q { pending = false }) s else (q, s)

-- The initialisation, once the event loop is known.
unfoldable pub start : {A : Type 0} → Queue A → Queue A
start q = record q { entries = []; len = 0; loop = true }
