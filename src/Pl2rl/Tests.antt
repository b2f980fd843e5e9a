-- ===== src/Pl2rl/Tests.antt =====
-- The theorems on remote logging at concrete inputs.
use opensync_platform_rdk.Common.{
  ℕ, ◌≡◌, ◌↔◌, ◌≤◌, ◌%◌, ◌+◌, suc, refl, true, false, List, [], ◌∷◌, ◌++◌, map, some, none, arith,
  take, drop, length, bytes, strscpy,
}
use opensync_platform_rdk.Pl2rl.{register_message, LogMsg}
use opensync_platform_rdk.Pl2rl.Client.{
  Sender, System, took, connected, pl2rl_init, pl2rl_log, failed,
}
use opensync_platform_rdk.Pl2rl.Client.Bounds.{initialise, log, run, held, run-Owned, log-overrun}
use opensync_platform_rdk.Pl2rl.Daemon.{
  Logger, Daemon, by_fd, info, pl2rld_client_cleanup, pl2rld_client_by_evio,
}
use opensync_platform_rdk.Pl2rl.Daemon.Handlers.{
  Reader, accepted, pl2rld_client_accept_cb, pl2rld_client_evio_cb, bytes_read,
}
use opensync_platform_rdk.Pl2rl.Daemon.Owned.{Owned, Reach, Step, Reach-Owned}
use opensync_platform_rdk.Pl2rl.Daemon.Cleanup.{cleanup_while, cleanup-ends}
use opensync_platform_rdk.Pl2rl.Daemon.Logged.{Logs, evio_cb-Logs}
use opensync_platform_rdk.Pl2rl.Delivery.Messages.{NonZero}
use opensync_platform_rdk.Pl2rl.Delivery.Streams.{Stream}
use opensync_platform_rdk.Pl2rl.Delivery.Sending.{kept, log_all}
use opensync_platform_rdk.Pl2rl.Delivery.Lines.{serve, line_for, log_delivery}

abbrev sys : System
sys = record {
  now = 100;
  attempt = connected 5;
  send = λ rest n. took (length rest);
  pid = 4242;
  name = bytes "WM";
}

abbrev idle : Sender
idle = record { fd = none; last_attempt = 0; open_fds = []; wire = []; overrun = false }

abbrev online : Sender
online = record { fd = some 5; last_attempt = 0; open_fds = 5 ∷ []; wire = []; overrun = false }

abbrev msg : LogMsg
msg = record { severity = 4; mod_id = 7; text = bytes "radio up" }

abbrev logger : Logger
logger = record { severity = λ n. some info; module_str = λ n. bytes "TARGET" }

abbrev empty : Daemon
empty = record { clients = []; watched = []; open_fds = []; lines = []; overrun = false }

abbrev registered : Daemon
registered = record {
  clients = record { fd = 9; pid = 4242; name = bytes "WM"; registered = true } ∷ [];
  watched = 9 ∷ [];
  open_fds = 9 ∷ [];
  lines = [];
  overrun = false;
}

-- A socket whose peer has closed: a read takes what is there.
abbrev read_list : Reader (List ℕ)
read_list xs n = (bytes_read (take n xs), drop n xs)

abbrev stream : Stream (List ℕ) read_list
stream = record {
  contents = λ s. s;
  left = λ s n. drop n s;
  takes = λ s n h. refl;
  leaves = λ s n h. refl;
}

run-Owned_example :
    (run (initialise sys ∷ log (record sys { send = λ rest n. failed }) msg ∷ []) idle).open_fds
    ≡ held (run (initialise sys ∷ log (record sys { send = λ rest n. failed }) msg ∷ []) idle).fd
unfolding run pl2rl_init register_message
run-Owned_example =
    run-Owned (initialise sys ∷ log (record sys { send = λ rest n. failed }) msg ∷ []) idle refl
      refl refl

log-overrun_example :
    ((pl2rl_log sys msg online).overrun ≡ true)
    ↔ ((65528 ≤ length (bytes "radio up")) × ((8 + length (bytes "radio up")) % 65536 ≤ 4096))
log-overrun_example = log-overrun sys msg online 5 refl refl

Reach-Owned_example :
    let d = pl2rld_client_accept_cb (accepted 9) empty in
    Owned d
    × ((pl2rld_client_cleanup d).clients ≡ [])
    × ((pl2rld_client_cleanup d).watched ≡ [])
    × ((pl2rld_client_cleanup d).open_fds ≡ [])
unfolding pl2rld_client_accept_cb
Reach-Owned_example =
    Reach-Owned empty (pl2rld_client_accept_cb (accepted 9) empty) refl refl refl refl
      (Reach.next Reach.here (Step.accepts (accepted 9) empty refl))

evio_cb-Logs_example :
    Logs 9 registered
      (pl2rld_client_evio_cb read_list logger 9 false []
        (1 ∷ 0 ∷ 9 ∷ 0 ∷ 6 ∷ 7 ∷ 1 ∷ 0 ∷ 65 ∷ [])
        registered).0
unfolding pl2rld_client_evio_cb
evio_cb-Logs_example =
    evio_cb-Logs read_list logger 9 false [] (1 ∷ 0 ∷ 9 ∷ 0 ∷ 6 ∷ 7 ∷ 1 ∷ 0 ∷ 65 ∷ []) registered
      refl

radio_up-NonZero : NonZero (bytes "radio up")
radio_up-NonZero = (refl, (refl, (refl, (refl, (refl, (refl, (refl, (refl, tt))))))))

log_delivery_example :
    (serve stream logger 9 []
      (suc (length (kept (msg ∷ []))))
      (log_all sys (msg ∷ []) (pl2rl_init sys idle).0).wire
      (pl2rld_client_accept_cb (accepted 9) empty)).0.lines
    ≡ [] ++ map (line_for logger (strscpy 31 (bytes "WM")) 4242) (kept (msg ∷ []))
unfolding pl2rld_client_by_evio by_fd
log_delivery_example =
    log_delivery stream logger 9 [] sys idle 5 (msg ∷ [])
      (log_all sys (msg ∷ []) (pl2rl_init sys idle).0).wire empty (λ rest n. refl) refl refl refl
      (omega arith) (refl, (refl, tt))
      ((omega arith, omega arith, omega arith, radio_up-NonZero), tt) refl refl

cleanup-ends_example : cleanup_while 1 registered ≡ some (pl2rld_client_cleanup registered)
cleanup-ends_example = cleanup-ends 1 registered (omega arith)
