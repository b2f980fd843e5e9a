-- ===== src/Clients/Runs.antt =====
-- Whole histories of clients.c: callbacks of the HAL's threads, their wake-ups, turns of the event loop, and
-- fetches of the list of associated devices, in any order.
use opensync_platform_rdk.Common.{ℕ, ◌≤◌, refl, Bool, true, false, List, [], ◌∷◌, CString, length}
use opensync_platform_rdk.Common.Tree.{find}
use opensync_platform_rdk.HalQueue.{Queue, unset, wake}
use opensync_platform_rdk.Clients.Types.{CbEntry, Hal, State}
use opensync_platform_rdk.Clients.Views.{empty_view, observe}
use opensync_platform_rdk.Clients.Reports.{Reported}
use opensync_platform_rdk.Clients.Steps.{async_cb-Reported, fetch_existing-Reported}
use opensync_platform_rdk.Clients.{
  clients_hal_assocdev_cb, clients_hal_dissocdev_cb, clients_hal_async_cb,
  clients_hal_fetch_existing, clients_hal_init,
}

pub data Event : Type 0 where
  associated : ℕ → CString → Bool → Event
  dissociated : ℕ → CString → Event
  wakes : Event
  turn : Event
  fetch : ℕ → Event

abbrev pub blank : State
blank = record { connected_clients = []; hal_cb_queue = unset; updates = [] }

-- The event loop runs the async callback of a watcher that is pending, and clears the mark first.
turn_if : Hal → Bool → State → State
turn_if hal false s = s
turn_if hal true s =
    clients_hal_async_cb hal
      (record s { hal_cb_queue = record (s.hal_cb_queue) { pending = false } })

unfoldable pub step : Hal → Event → State → State
unfolding turn_if
step hal (associated index mac active) s = (clients_hal_assocdev_cb index mac active s).0
step hal (dissociated index mac) s = (clients_hal_dissocdev_cb index mac s).0
step hal wakes s = record s { hal_cb_queue = wake s.hal_cb_queue }
step hal turn s = turn_if hal s.hal_cb_queue.pending s
step hal (fetch index) s = (clients_hal_fetch_existing hal index s).0

unfoldable pub run : Hal → List Event → State → State
run hal [] s = s
run hal (e ∷ es) s = run hal es (step hal e s)

module _ (hal : Hal) (short : (d : CString) → length (hal.format_mac d) ≤ 17) where
  requeue-Reported :
      (s : State) (q : Queue CbEntry)
      → Reported hal s
      → Reported hal (record s { hal_cb_queue = q })
  requeue-Reported s q r = record { view = r.view; accepted = r.accepted; shows = r.shows }

  turn-Reported :
      (pending : Bool) (s : State) → Reported hal s → Reported hal (turn_if hal pending s)
  unfolding turn_if
  turn-Reported false s r = r
  turn-Reported true s r = async_cb-Reported hal short _ (requeue-Reported s _ r)

  step-Reported : (e : Event) (s : State) → Reported hal s → Reported hal (step hal e s)
  unfolding step clients_hal_assocdev_cb clients_hal_dissocdev_cb
  step-Reported (associated index mac active) s r = requeue-Reported s _ r
  step-Reported (dissociated index mac) s r = requeue-Reported s _ r
  step-Reported wakes s r = requeue-Reported s _ r
  step-Reported turn s r = turn-Reported s.hal_cb_queue.pending s r
  step-Reported (fetch index) s r = fetch_existing-Reported hal short index s r

  run_from-Reported : (es : List Event) (s : State) → Reported hal s → Reported hal (run hal es s)
  unfolding run
  run_from-Reported [] s r = r
  run_from-Reported (e ∷ es) s r = run_from-Reported es _ (step-Reported e s r)

  -- From the initialisation on, whatever the order of HAL callbacks, of the wake-ups that end them, of
  -- turns of the event loop and of fetches, the upper layer's account of the calls of op_client is coherent (no client becomes
  -- active twice, none inactive but on the interface where it is active) and is the table of
  -- connected clients with the interface and the key id of each, provided that addresses print
  -- in at most 17 bytes.
  pub run-Reported : (es : List Event) → Reported hal (run hal es (clients_hal_init true blank).0)
  unfolding clients_hal_init observe find
  run-Reported es =
      run_from-Reported es _ (record { view = empty_view; accepted = refl; shows = λ m. tt })
