-- ===== src/Pl2rl/Client.antt =====
-- The sending side of remote logging, src/lib/pl2rl/pl2rl.c. The address of the daemon is constant.
pub mod Bounds
use opensync_platform_rdk.Common.{
  ℕ, zero, suc, ◌+◌, ◌-◌, Bool, true, false, not, ◌&&◌, List, [], ◌∷◌, ◌++◌, Option, none, some,
  if◌then◌else◌, ◌==◌, ltb, CString, take, drop, length,
}
use opensync_platform_rdk.Pl2rl.{LogMsg, buf_size, register_message, log_message, message_length}

-- What the system's send returns: bytes taken, EAGAIN, or another error.
pub data Sent : Type 0 where
  took : ℕ → Sent
  again failed : Sent

-- How the calls of an attempt to connect end: no socket, a socket that does not connect or that
-- cannot be made non-blocking, or a connection.
pub data Attempt : Type 0 where
  no_socket : Attempt
  refused blocking connected : ℕ → Attempt

-- The statics pl2rl_fd and pl2rl_last_attempt. Beside them: the descriptors that the file opened
-- and has not closed, the bytes that the present connection took, and whether a copy ran over the
-- buffer: what follows has no defined behaviour in C, and the model goes no further.
pub record Sender : Type 0 where
  pub fd : Option ℕ
  pub last_attempt : ℕ
  pub open_fds : List ℕ
  pub wire : List ℕ
  pub overrun : Bool

-- The system as one call of the file meets it: the clock, the attempt to connect, and the answer of
-- send by what is being sent and by the attempts left. The process has an id and a name.
pub record System : Type 0 where
  pub now : ℕ
  pub attempt : Attempt
  pub send : List ℕ → ℕ → Sent
  pub pid : ℕ
  pub name : CString

-- PL2RL_RETRIES and PL2RL_CONNECT_RATE
abbrev pub retries : ℕ
retries = 3

abbrev pub connect_rate : ℕ
connect_rate = 1

unfoldable pub remove_fd : ℕ → List ℕ → List ℕ
remove_fd fd [] = []
remove_fd fd (x ∷ xs) = if x == fd then xs else x ∷ remove_fd fd xs

unfoldable pub pl2rl_disconnect : Sender → Sender
unfolding remove_fd
pl2rl_disconnect c = elim (c.fd) [
  | none ↦ c
  | some fd ↦ record c { fd = none; last_attempt = 0; open_fds = remove_fd fd c.open_fds }
]

-- The loop of pl2rl_send: the attempts left, and the data that is not sent yet.
unfoldable pub send_loop : System → ℕ → List ℕ → Sender → Sender × Bool
unfolding pl2rl_disconnect
send_loop sys zero rest c = (c, false)
send_loop sys (suc n) rest c =
    let retry = send_loop sys n rest c in
    elim (sys.send rest (suc n)) [
      | took k ↦
          let c' = record c { wire = c.wire ++ take k rest } in
          let more = send_loop sys n (drop k rest) c' in
          (if k == length rest then (c', true) else more)
      | again ↦ retry
      | failed ↦ (pl2rl_disconnect c, false)
    ]

unfoldable pub pl2rl_send : System → List ℕ → Sender → Sender × Bool
unfolding send_loop
pl2rl_send sys content c = elim (c.fd) [
  | none ↦ (c, false)
  | some fd ↦ send_loop sys retries content c
]

-- The register message of a new connection: whether it was sent, else the connection is given up.
unfoldable pub register : System → Sender → Sender × Bool
unfolding pl2rl_send pl2rl_disconnect
register sys c =
    let (c', ok) = pl2rl_send sys (register_message sys.pid sys.name) c in
    (if ok then (c', true) else (pl2rl_disconnect c', false))

-- The statics of a new connection.
unfoldable pub opened : ℕ → Sender → Sender
opened fd c = record c { fd = some fd; last_attempt = 0; open_fds = fd ∷ c.open_fds; wire = [] }

unfoldable pub attempt_connect : System → Sender → Sender × Bool
unfolding register opened remove_fd
attempt_connect sys c = elim (sys.attempt) [
  | no_socket ↦ (c, false)
  | refused fd ↦ (record c { open_fds = remove_fd fd (fd ∷ c.open_fds) }, false)
  | blocking fd ↦ (record c { open_fds = remove_fd fd (fd ∷ c.open_fds) }, false)
  | connected fd ↦ register sys (opened fd c)
]

-- Without a connection: an attempt, unless there was one too recently.
unfoldable pub connect_anew : System → Sender → Sender × Bool
unfolding attempt_connect
connect_anew sys c =
    let recent = ltb sys.now (c.last_attempt + connect_rate) in
    (if not (c.last_attempt == 0) && recent
      then (c, false)
      else attempt_connect sys (record c { last_attempt = sys.now }))

unfoldable pub pl2rl_connect : System → Sender → Sender × Bool
unfolding connect_anew
pl2rl_connect sys c = elim (c.fd) [ some fd ↦ (c, true) | none ↦ connect_anew sys c ]

unfoldable pub pl2rl_init : System → Sender → Sender × Bool
unfolding pl2rl_connect
pl2rl_init sys c = ((pl2rl_connect sys c).0, true)

-- pl2rl_log, once there is a connection: the test of the length, the copy of the text, and the send
-- of as many bytes of the buffer as the header says.
unfoldable pub log_connected : System → LogMsg → Sender → Sender
unfolding message_length pl2rl_send
log_connected sys m c =
    if ltb buf_size (message_length m)
    then c
    else (if ltb buf_size (8 + length m.text)
        then record c { overrun = true }
        else (pl2rl_send sys (take (message_length m) (log_message m)) c).0)

-- Without a connection the message is dropped if there is none to be had.
unfoldable pub log_anew : System → LogMsg → Sender → Sender
unfolding log_connected pl2rl_connect
log_anew sys m c = let (c', ok) = pl2rl_connect sys c in (if ok then log_connected sys m c' else c')

unfoldable pub pl2rl_log : System → LogMsg → Sender → Sender
unfolding log_connected log_anew
pl2rl_log sys m c = elim (c.fd) [ some fd ↦ log_connected sys m c | none ↦ log_anew sys m c ]
