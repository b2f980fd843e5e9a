-- ===== src/Pl2rl/Daemon/Keeps.antt =====
-- The callback of a client's watcher in the logging daemon, src/pl2rld/pl2rld.c, by its ends: it
-- does nothing, removes the client, registers it, or logs for it. A predicate before the call and one
-- after it, which every end links, are linked by the call.
use opensync_platform_rdk.Common.{
  ℕ, drop, ◌-◌, Bool, true, false, ltb, leb, List, ◌++◌, none, some, ◌==◌, ◌≡◌, ◌⊎◌, refl, inl, inr,
  Bool-cases, Option-cases, if◌then◌else◌, length,
}
use opensync_platform_rdk.Pl2rl.{type_register, u16_at, type_max, buf_size}
use opensync_platform_rdk.Pl2rl.Client.{remove_fd}
use opensync_platform_rdk.Pl2rl.Daemon.{
  PClient, Logger, Daemon, pl2rld_client_remove, pl2rld_client_by_evio, pl2rld_client_recv_reg,
  pl2rld_client_recv_log,
}
use opensync_platform_rdk.Pl2rl.Daemon.Handlers.{
  Read, Reader, handle_message, recv_rest, rest_size, pl2rld_client_recv, pl2rld_client_evio_cb,
  again, failed, bytes_read,
}

Read-cases : (r : Read) → (r ≡ again) ⊎ ((r ≡ failed) ⊎ ((bs : List ℕ) × (r ≡ bytes_read bs)))
Read-cases again = inl refl
Read-cases failed = inr (inl refl)
Read-cases (bytes_read bs) = inr (inr (bs, refl))

if-holds : {A : Type 0} (P : A → Type 0) (b : Bool) {x y : A} → P x → P y → P (if b then x else y)
if-holds P true px py = px
if-holds P false px py = py

module _ (P Q : Daemon → Type 0) (R : PClient → Type 0) (idle : (d : Daemon) → P d → Q d)
    (removed : (fd : ℕ) (d : Daemon) → P d → Q (pl2rld_client_remove fd d))
    (flagged : (d : Daemon) → P d → Q (record d { overrun = true }))
    (unwatched : (fd : ℕ) (d : Daemon)
      → pl2rld_client_by_evio fd d ≡ none
      → P d
      → Q (record d { watched = remove_fd fd d.watched }))
    (registers : (pc : PClient) (buf : List ℕ) (d : Daemon)
      → P d
      → Q (pl2rld_client_recv_reg pc buf d))
    {S : Type 0} (read : Reader S) (lg : Logger)
    (logs : (pc : PClient) (buf : List ℕ) (d : Daemon)
      → R pc
      → P d
      → Q (pl2rld_client_recv_log lg pc buf d)) where
  message-keeps :
      (pc : PClient) (message stale : List ℕ) (d : Daemon)
      → R pc
      → P d
      → Q (handle_message read lg pc message stale d)
  unfolding handle_message
  message-keeps pc message stale d k h =
      let buf = message ++ drop (length message) stale in
      if-holds Q (u16_at message 0 == type_register) (registers pc buf d h) (logs pc buf d k h)

  rest-keeps :
      (pc : PClient) (hdr stale : List ℕ) (s : S) (d : Daemon)
      → R pc
      → P d
      → Q (recv_rest read lg pc hdr stale s d).0
  unfolding recv_rest
  rest-keeps pc hdr stale s d k h = elim (Read-cases (read s (rest_size (u16_at hdr 2))).0) [
    | inl e ↦ rw (recv_rest, e) (removed pc.fd d h)
    | inr (inl e) ↦ rw (recv_rest, e) (removed pc.fd d h)
    | inr (inr (bs, e)) ↦ elim (Bool-cases (ltb (buf_size - 4) (length bs))) [
      | inl o ↦ rw (recv_rest, e, o) (flagged d h)
      | inr o ↦ elim (Bool-cases (leb 4 (u16_at hdr 2))) [
        | inr f ↦ rw (recv_rest, e, o, f) (removed pc.fd d h)
        | inl f ↦ elim (Bool-cases (length bs == rest_size (u16_at hdr 2))) [
          | inl g ↦ rw (recv_rest, e, o, f, g) (message-keeps pc (hdr ++ bs) stale d k h)
          | inr g ↦ rw (recv_rest, e, o, f, g) (removed pc.fd d h)
        ]
      ]
    ]
  ]

  recv-keeps :
      (pc : PClient) (stale : List ℕ) (s : S) (d : Daemon)
      → R pc
      → P d
      → Q (pl2rld_client_recv read lg pc stale s d).0
  unfolding pl2rld_client_recv
  recv-keeps pc stale s d k h = elim (Read-cases (read s 4).0) [
    | inl e ↦ rw (pl2rld_client_recv, e) (idle d h)
    | inr (inl e) ↦ rw (pl2rld_client_recv, e) (removed pc.fd d h)
    | inr (inr (hdr, e)) ↦ elim (Bool-cases (length hdr == 4)) [
      | inr f ↦ rw (pl2rld_client_recv, e, f) (removed pc.fd d h)
      | inl f ↦ elim (Bool-cases (leb type_max (u16_at hdr 0))) [
        | inl g ↦ rw (pl2rld_client_recv, e, f, g) (removed pc.fd d h)
        | inr g ↦ rw (pl2rld_client_recv, e, f, g) (rest-keeps pc hdr stale (read s 4).1 d k h)
      ]
    ]
  ]

  pub evio_cb-keeps :
      (fd : ℕ) (error : Bool) (stale : List ℕ) (s : S) (d : Daemon)
      → ((pc : PClient) → pl2rld_client_by_evio fd d ≡ some pc → R pc)
      → P d
      → Q (pl2rld_client_evio_cb read lg fd error stale s d).0
  unfolding pl2rld_client_evio_cb
  evio_cb-keeps fd true stale s d k h = elim (Option-cases (pl2rld_client_by_evio fd d)) [
    | inl e ↦ rw (pl2rld_client_evio_cb, e) (unwatched fd d e h)
    | inr (pc, e) ↦ rw (pl2rld_client_evio_cb, e) (removed pc.fd d h)
  ]
  evio_cb-keeps fd false stale s d k h = elim (Option-cases (pl2rld_client_by_evio fd d)) [
    | inl e ↦ rw (pl2rld_client_evio_cb, e) (unwatched fd d e h)
    | inr (pc, e) ↦ rw (pl2rld_client_evio_cb, e) (recv-keeps pc stale s d (k pc e) h)
  ]
