-- ===== src/Pl2rl/Daemon/Handlers.antt =====
-- The callbacks of the logging daemon, src/pl2rld/pl2rld.c: a client to accept, and a client with
-- something to read.
use opensync_platform_rdk.Common.{
  ℕ, ◌+◌, ◌-◌, ◌^◌, Bool, true, false, not, List, ◌∷◌, ◌++◌, Option, none, some, if◌then◌else◌,
  ◌==◌, ltb, leb, drop, length,
}
use opensync_platform_rdk.Pl2rl.{type_register, type_max, buf_size, u16_at}
use opensync_platform_rdk.Pl2rl.Client.{remove_fd}
use opensync_platform_rdk.Pl2rl.Daemon.{
  PClient, Logger, Daemon, pl2rld_client_add, pl2rld_client_remove, pl2rld_client_by_evio,
  pl2rld_client_recv_reg, pl2rld_client_recv_log,
}

-- What the system's read returns.
pub data Read : Type 0 where
  bytes_read : List ℕ → Read
  again failed : Read

-- A stream socket: a read of at most so many bytes, and what it leaves.
abbrev pub Reader : Type 0 → Type 0
Reader S = S → ℕ → Read × S

-- How accept and fcntl end: no client, a client whose socket cannot be made non-blocking, a client.
pub data Accepted : Type 0 where
  no_client : Accepted
  blocking accepted : ℕ → Accepted

unfoldable pub pl2rld_client_accept_cb : Accepted → Daemon → Daemon
unfolding pl2rld_client_add remove_fd
pl2rld_client_accept_cb no_client d = d
pl2rld_client_accept_cb (blocking fd) d = record d { open_fds = remove_fd fd (fd ∷ d.open_fds) }
pl2rld_client_accept_cb (accepted fd) d = pl2rld_client_add fd d

-- The listening socket: pl2rld_listener_fd, whether its watcher is started, the open descriptors.
pub record Listener : Type 0 where
  pub fd : Option ℕ
  pub watched : Bool
  pub open_fds : List ℕ

-- How socket, bind and listen end.
pub data Listening : Type 0 where
  no_socket : Listening
  bind_fails listen_fails listens : ℕ → Listening

unfoldable pub pl2rld_client_listener_init : Listening → Listener → Listener × Bool
unfolding remove_fd
pl2rld_client_listener_init no_socket l = (l, false)
pl2rld_client_listener_init (bind_fails fd) l =
    (record l { open_fds = remove_fd fd (fd ∷ l.open_fds) }, false)
pl2rld_client_listener_init (listen_fails fd) l =
    (record l { open_fds = remove_fd fd (fd ∷ l.open_fds) }, false)
pl2rld_client_listener_init (listens fd) l =
    (record l { fd = some fd; watched = true; open_fds = fd ∷ l.open_fds }, true)

unfoldable pub pl2rld_client_listener_cleanup : Listener → Listener × Bool
unfolding remove_fd
pl2rld_client_listener_cleanup l = elim (l.fd) [
  | none ↦ (l, true)
  | some fd ↦ (record l { fd = none; watched = false; open_fds = remove_fd fd l.open_fds }, true)
]

-- rlen, an int below zero for a length below the header's own, as the size that read takes.
unfoldable pub rest_size : ℕ → ℕ
rest_size len = if ltb len 4 then 2 ^ 64 + len - 4 else len - 4

module _ {S : Type 0} (read : Reader S) (lg : Logger) where
  -- The switch on the type of a whole message. `stale` is what the array held behind it.
  unfoldable pub handle_message : PClient → List ℕ → List ℕ → Daemon → Daemon
  unfolding pl2rld_client_recv_reg pl2rld_client_recv_log
  handle_message pc message stale d =
      let buf = message ++ drop (length message) stale in
      (if u16_at message 0 == type_register
        then pl2rld_client_recv_reg pc buf d
        else pl2rld_client_recv_log lg pc buf d)

  -- The rest of a message, whose size is compared with rlen: below zero it never agrees. A read of more
  -- bytes than the buffer has left ends the model, with the mark of the overrun.
  unfoldable pub recv_rest : PClient → List ℕ → List ℕ → S → Daemon → Daemon × S
  unfolding rest_size handle_message pl2rld_client_remove
  recv_rest pc hdr stale s d =
      let rlen = rest_size (u16_at hdr 2) in
      let (r, s1) = read s rlen in
      elim r [
        | again ↦ (pl2rld_client_remove pc.fd d, s1)
        | failed ↦ (pl2rld_client_remove pc.fd d, s1)
        | bytes_read bs ↦
            (if ltb (buf_size - 4) (length bs)
              then (record d { overrun = true }, s1)
              else (if leb 4 (u16_at hdr 2)
                  then (if length bs == rlen
                      then (handle_message pc (hdr ++ bs) stale d, s1)
                      else (pl2rld_client_remove pc.fd d, s1))
                  else (pl2rld_client_remove pc.fd d, s1)))
      ]

  unfoldable pub pl2rld_client_recv : PClient → List ℕ → S → Daemon → Daemon × S
  unfolding recv_rest pl2rld_client_remove
  pl2rld_client_recv pc stale s d =
      let (r, s1) = read s 4 in
      elim r [
        | again ↦ (d, s1)
        | failed ↦ (pl2rld_client_remove pc.fd d, s1)
        | bytes_read hdr ↦
            (if not (length hdr == 4)
              then (pl2rld_client_remove pc.fd d, s1)
              else (if leb type_max (u16_at hdr 0)
                  then (pl2rld_client_remove pc.fd d, s1)
                  else recv_rest pc hdr stale s1 d))
      ]

  -- `error` is EV_ERROR in revents.
  unfoldable pub pl2rld_client_evio_cb : ℕ → Bool → List ℕ → S → Daemon → Daemon × S
  unfolding pl2rld_client_by_evio pl2rld_client_remove pl2rld_client_recv remove_fd
  pl2rld_client_evio_cb fd error stale s d = elim (pl2rld_client_by_evio fd d) [
    | none ↦ (record d { watched = remove_fd fd d.watched }, s)
    | some pc ↦
        (if error then (pl2rld_client_remove pc.fd d, s) else pl2rld_client_recv pc stale s d)
  ]
