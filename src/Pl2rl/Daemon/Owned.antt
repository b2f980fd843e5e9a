-- ===== src/Pl2rl/Daemon/Owned.antt =====
-- The descriptors of the logging daemon, src/pl2rld/pl2rld.c: who holds them.
use opensync_platform_rdk.Common.{
  ℕ, Bool, false, List, [], ◌∷◌, ◌++◌, map, none, ◌≡◌, refl, sym, ap, ◌∙◌, inl, inr, Bool-cases,
  arith,
}
use opensync_platform_rdk.Pl2rl.Client.{remove_fd}
use opensync_platform_rdk.Pl2rl.Daemon.{
  PClient, Logger, Daemon, without, update, by_fd, pl2rld_client_add, pl2rld_client_remove,
  cleanup_loop, pl2rld_client_cleanup, pl2rld_client_by_evio, pl2rld_client_recv_reg,
  pl2rld_client_recv_log,
}
use opensync_platform_rdk.Pl2rl.Daemon.Handlers.{
  Reader, Accepted, pl2rld_client_accept_cb, pl2rld_client_evio_cb, no_client, blocking, accepted,
}
use opensync_platform_rdk.Pl2rl.Daemon.Keeps.{evio_cb-keeps}

abbrev pub fds : List PClient → List ℕ
fds xs = map (λ pc. pc.fd) xs

-- The open descriptors and the started watchers are those of the clients.
abbrev pub Owned : Daemon → Type 0
Owned d = (d.watched ≡ fds d.clients) × (d.open_fds ≡ fds d.clients)

fds-append : (xs : List PClient) (pc : PClient) → fds (xs ++ pc ∷ []) ≡ fds xs ++ pc.fd ∷ []
fds-append [] pc = refl
fds-append (x ∷ xs) pc = ap (λ l. x.fd ∷ l) (fds-append xs pc)

fds-without : (fd : ℕ) (xs : List PClient) → fds (without fd xs) ≡ remove_fd fd (fds xs)
unfolding without remove_fd
fds-without fd [] = refl
fds-without fd (x ∷ xs) = ground (arith, fds-without fd xs)

fds-update : (pc : PClient) (xs : List PClient) → fds (update pc xs) ≡ fds xs
unfolding update
fds-update pc [] = refl
fds-update pc (x ∷ xs) = ground (arith, fds-update pc xs)

by_fd-none : (fd : ℕ) (xs : List PClient) → by_fd fd xs ≡ none → remove_fd fd (fds xs) ≡ fds xs
unfolding by_fd remove_fd
by_fd-none fd [] h = refl
by_fd-none fd (x ∷ xs) h = ground (arith, by_fd-none fd xs)

add-Owned : (fd : ℕ) (d : Daemon) → Owned d → Owned (pl2rld_client_add fd d)
unfolding pl2rld_client_add
add-Owned fd d (w, o) = (rw (w, fds-append) refl, rw (o, fds-append) refl)

remove-Owned : (fd : ℕ) (d : Daemon) → Owned d → Owned (pl2rld_client_remove fd d)
unfolding pl2rld_client_remove
remove-Owned fd d (w, o) = (rw (w, fds-without) refl, rw (o, fds-without) refl)

accept-Owned : (a : Accepted) (d : Daemon) → Owned d → Owned (pl2rld_client_accept_cb a d)
unfolding pl2rld_client_accept_cb remove_fd
accept-Owned no_client d h = h
accept-Owned (blocking fd) d h = ground (arith, h)
accept-Owned (accepted fd) d h = add-Owned fd d h

recv_reg-Owned :
    (pc : PClient) (buf : List ℕ) (d : Daemon) → Owned d → Owned (pl2rld_client_recv_reg pc buf d)
unfolding pl2rld_client_recv_reg
recv_reg-Owned pc buf d (w, o) = (rw (w, fds-update) refl, rw (o, fds-update) refl)

recv_log-Owned :
    (lg : Logger) (pc : PClient) (buf : List ℕ) (d : Daemon)
    → Owned d
    → Owned (pl2rld_client_recv_log lg pc buf d)
unfolding pl2rld_client_recv_log
recv_log-Owned lg pc buf d h = elim (Bool-cases pc.registered) [
  | inl e ↦ rw (e) h
  | inr e ↦ rw (e) (remove-Owned pc.fd d h)
]

unwatched-Owned :
    (fd : ℕ) (d : Daemon)
    → pl2rld_client_by_evio fd d ≡ none
    → Owned d
    → Owned (record d { watched = remove_fd fd d.watched })
unfolding pl2rld_client_by_evio
unwatched-Owned fd d e (w, o) = (rw (w, by_fd-none fd d.clients e) refl, o)

-- A step of the daemon, which it takes as long as no read ran over the buffer: a client to accept, a watcher that fires, the end.
pub data Step : Daemon → Daemon → Type 1 where
  accepts : (a : Accepted) (d : Daemon) → d.overrun ≡ false → Step d (pl2rld_client_accept_cb a d)
  fires :
      {S : Type 0} (read : Reader S) (lg : Logger) (fd : ℕ) (error : Bool) (stale : List ℕ) (s : S)
      (d : Daemon)
      → d.overrun ≡ false
      → Step d (pl2rld_client_evio_cb read lg fd error stale s d).0
  ends : (d : Daemon) → d.overrun ≡ false → Step d (pl2rld_client_cleanup d)

pub data Reach : Daemon → Daemon → Type 1 where
  here : {d : Daemon} → Reach d d
  next : {a b c : Daemon} → Reach a b → Step b c → Reach a c

cleanup_loop-Owned : (xs : List PClient) (d : Daemon) → Owned d → Owned (cleanup_loop xs d)
unfolding cleanup_loop
cleanup_loop-Owned [] d h = h
cleanup_loop-Owned (x ∷ xs) d h = cleanup_loop-Owned xs _ (remove-Owned x.fd d h)

Step-Owned : {a b : Daemon} → Step a b → Owned a → Owned b
unfolding pl2rld_client_cleanup
Step-Owned (accepts a d defined) h = accept-Owned a d h
Step-Owned (fires read lg fd error stale s d defined) h =
    evio_cb-keeps Owned Owned (λ pc. Unit) (λ d h. h) remove-Owned (λ d h. h) unwatched-Owned
      recv_reg-Owned read lg (λ pc buf d k. recv_log-Owned lg pc buf d) fd error stale s d
      (λ pc e. tt) h
Step-Owned (ends d defined) h = cleanup_loop-Owned d.clients d h

cleanup_loop-empty :
    (xs : List PClient) (d : Daemon) → d.clients ≡ xs → (cleanup_loop xs d).clients ≡ []
unfolding cleanup_loop pl2rld_client_remove without
cleanup_loop-empty [] d h = h
cleanup_loop-empty (x ∷ xs) d h = cleanup_loop-empty xs _ (ap (without x.fd) h ∙ ground arith)

cleanup-Owned :
    (d : Daemon)
    → Owned d
    → Owned d
      × ((pl2rld_client_cleanup d).clients ≡ [])
      × ((pl2rld_client_cleanup d).watched ≡ [])
      × ((pl2rld_client_cleanup d).open_fds ≡ [])
unfolding pl2rld_client_cleanup
cleanup-Owned d h =
    let e = cleanup_loop-empty d.clients d refl in
    let (w, o) = cleanup_loop-Owned d.clients d h in (h, e, w ∙ ap fds e, o ∙ ap fds e)

Reach-keeps : {a b : Daemon} → Reach a b → Owned a → Owned b
Reach-keeps here h = h
Reach-keeps (next r s) h = Step-Owned s (Reach-keeps r h)

-- In every state that the daemon reaches from its start without a read that runs over the buffer, the open client descriptors and the started
-- watchers are, in order, those of the clients in its list; and the cleanup from that state leaves
-- no client, no watcher and no open client descriptor.
pub Reach-Owned :
    (a b : Daemon)
    → a.clients ≡ []
    → a.watched ≡ []
    → a.open_fds ≡ []
    → b.overrun ≡ false
    → Reach a b
    → Owned b
      × ((pl2rld_client_cleanup b).clients ≡ [])
      × ((pl2rld_client_cleanup b).watched ≡ [])
      × ((pl2rld_client_cleanup b).open_fds ≡ [])
Reach-Owned a b c w o defined r =
    cleanup-Owned b (Reach-keeps r (w ∙ sym (ap fds c), o ∙ sym (ap fds c)))
