-- ===== src/Sync/Retries.antt =====
-- How a connection of sync.c that is lost comes back: the attempts of the timer.
use opensync_platform_rdk.Common.{
  ℕ, ◌≡◌, Bool, true, false, if◌then◌else◌, List, [], ◌∷◌, Option, none, some, arith,
}
use opensync_platform_rdk.Sync.Types.{MsgType, Env, State}
use opensync_platform_rdk.Sync.Messages.{sync_evio_cb, Received}
use opensync_platform_rdk.Sync.{sync_reconnect, sync_task_connect}
use opensync_platform_rdk.Sync.Connection.{Sound, link, disconnect-down, callback-link}

-- The expiry of the timer, which does nothing unless it runs: one attempt to connect.
unfoldable pub expires : Env → Option ℕ → Bool → State → State
expires env socket accepted s = if s.timer then sync_task_connect env socket accepted s else s

-- Attempts that fail, each without a socket or with one that does not connect.
unfoldable pub fail : List (Env × Option ℕ) → State → State
unfolding expires
fail [] s = s
fail ((env, socket) ∷ rest) s = fail rest (expires env socket false s)

-- Nothing is open, and the timer runs.
abbrev pub Waiting : State → Type 0
Waiting s = (s.sockets ≡ []) × (s.timer ≡ true)

lost-Waiting :
    (env : Env) (total : ℕ) (msg_type : ℕ → MsgType) (ev_error : Bool) (s : State)
    → Sound (link s)
    → Waiting (sync_evio_cb env total msg_type ev_error Received.lost s)
unfolding sync_evio_cb sync_reconnect
lost-Waiting env total msg_type true s v = ground (arith, disconnect-down s v)
lost-Waiting env total msg_type false s v = ground (arith, disconnect-down s v)

failed-Waiting :
    (env : Env) (socket : Option ℕ) (s : State) → Waiting s → Waiting (expires env socket false s)
unfolding expires sync_task_connect
failed-Waiting env none s w = (ground (arith, w), ground (arith, w))
failed-Waiting env (some fd) s w = (ground (arith, w), ground (arith, w))

fail-Waiting :
    (attempts : List (Env × Option ℕ)) (s : State) → Waiting s → Waiting (fail attempts s)
unfolding fail
fail-Waiting [] s w = w
fail-Waiting ((env, socket) ∷ rest) s w =
    fail-Waiting rest (expires env socket false s) (failed-Waiting env socket s w)

accepted-up :
    (env : Env) (fd : ℕ) (s : State)
    → Waiting s
    → let u = expires env (some fd) true s in
      (u.fd ≡ some fd) × (u.io ≡ true) × (u.timer ≡ false) × (u.sockets ≡ fd ∷ [])
unfolding expires sync_task_connect
accepted-up env fd s w =
    ground
      (arith, w, callback-link env (record s { io = true; fd = some fd; sockets = fd ∷ s.sockets }))

-- A sound connection that is lost comes back: after the error, or the failed read, nothing is
-- open and the timer runs; so it is after any number of expiries of the timer whose attempts to connect
-- fail; and the next expiry, if its socket connects, makes the new descriptor the only one open,
-- watched and with the timer at rest.
pub connect-lost :
    (env env' : Env) (total : ℕ) (msg_type : ℕ → MsgType) (ev_error : Bool) (s : State)
    (attempts : List (Env × Option ℕ)) (fd : ℕ)
    → Sound (link s)
    → let t = fail attempts (sync_evio_cb env total msg_type ev_error Received.lost s) in
      let u = expires env' (some fd) true t in
      (t.sockets ≡ [])
      × (t.timer ≡ true)
      × (u.fd ≡ some fd)
      × (u.io ≡ true)
      × (u.timer ≡ false)
      × (u.sockets ≡ fd ∷ [])
connect-lost env env' total msg_type ev_error s attempts fd v =
    let (closed, runs) = fail-Waiting attempts _ (lost-Waiting env total msg_type ev_error s v) in
    let (is, watched, rests, only) = accepted-up env' fd _ (closed, runs) in
    (closed, runs, is, watched, rests, only)
