-- ===== src/Pl2rl/Daemon/Logged.antt =====
-- The lines that the logging daemon hands on, src/pl2rld/pl2rld.c: whose they are.
use opensync_platform_rdk.Common.{
  ℕ, Bool, true, false, List, [], ◌∷◌, ◌++◌, some, ◌≡◌, ◌⊎◌, refl, inl, inr, Bool-cases,
}
use opensync_platform_rdk.Pl2rl.Daemon.{
  PClient, Line, Logger, Daemon, line_of, pl2rld_client_remove, pl2rld_client_by_evio,
  pl2rld_client_recv_reg, pl2rld_client_recv_log,
}
use opensync_platform_rdk.Pl2rl.Daemon.Handlers.{Reader, pl2rld_client_evio_cb}
use opensync_platform_rdk.Pl2rl.Daemon.Keeps.{evio_cb-keeps}

-- From one state to the next no line was added, or one of the registered client of this descriptor,
-- under its name and process id.
abbrev pub Logs : ℕ → Daemon → Daemon → Type 0
Logs fd d d' =
    (d'.lines ≡ d.lines)
    ⊎ ((pc : PClient) × (line : Line) × (pl2rld_client_by_evio fd d ≡ some pc)
        × (pc.registered ≡ true)
        × (line.name ≡ pc.name)
        × (line.pid ≡ pc.pid)
        × (d'.lines ≡ d.lines ++ line ∷ []))

recv_log-Logs :
    (fd : ℕ) (d : Daemon) (lg : Logger) (pc : PClient) (buf : List ℕ) (d1 : Daemon)
    → pl2rld_client_by_evio fd d ≡ some pc
    → d1.lines ≡ d.lines
    → Logs fd d (pl2rld_client_recv_log lg pc buf d1)
unfolding pl2rld_client_recv_log pl2rld_client_remove line_of
recv_log-Logs fd d lg pc buf d1 found h = elim (Bool-cases pc.registered) [
  | inr e ↦ inl (rw (e) h)
  | inl e ↦ inr (pc, line_of lg pc buf, found, e, refl, refl, rw (e, h) refl)
]

-- The callback of a watcher, whatever the socket yields that does not run over the buffer, leaves the lines as they were, or appends one,
-- and then the client with the watcher's descriptor is registered and the line carries its name
-- and its process id.
pub evio_cb-Logs :
    {S : Type 0} (read : Reader S) (lg : Logger) (fd : ℕ) (error : Bool) (stale : List ℕ) (s : S)
    (d : Daemon)
    → (pl2rld_client_evio_cb read lg fd error stale s d).0.overrun ≡ false
    → Logs fd d (pl2rld_client_evio_cb read lg fd error stale s d).0
unfolding pl2rld_client_remove pl2rld_client_recv_reg
evio_cb-Logs read lg fd error stale s d defined =
    evio_cb-keeps (λ d1. d1.lines ≡ d.lines) (Logs fd d)
      (λ pc. pl2rld_client_by_evio fd d ≡ some pc) (λ d1 h. inl h) (λ x d1 h. inl h) (λ d1 h. inl h)
      (λ x d1 e h. inl h) (λ pc buf d1 h. inl h) read lg (recv_log-Logs fd d lg) fd error stale s d
      (λ pc e. e) refl
