-- ===== src/Pl2rl/Daemon.antt =====
-- The logging daemon, src/pl2rld/pl2rld.c: its clients, and what it reads from them. A client is
-- known by its descriptor, which the system keeps distinct while it is open, where the source
-- compares the addresses of the structs and of the watchers inside them.
pub mod Handlers
pub mod Keeps
pub mod Logged
pub mod Owned
pub mod Cleanup
use opensync_platform_rdk.Common.{
  ℕ, zero, suc, ◌+◌, ◌-◌, Bool, true, false, not, List, [], ◌∷◌, ◌++◌, Option, none, some,
  if◌then◌else◌, ◌==◌, ltb, leb, CString, take, drop, length,
}
use opensync_platform_rdk.Pl2rl.{
  type_register, type_log, type_max, name_len, buf_size, u8_at, u16_at, u32_at,
}
use opensync_platform_rdk.Pl2rl.Client.{remove_fd}

-- pclient_t
pub record PClient : Type 0 where
  pub fd : ℕ
  pub pid : ℕ
  pub name : CString
  pub registered : Bool

-- The severities that the switch names; the values themselves are the logger's.
pub data Severity : Type 0 where
  emerg alert crit err warning notice info debug trace : Severity

-- The levels of the RDK logger that the switch yields.
pub data RdkLevel : Type 0 where
  rdk_fatal rdk_error rdk_warn rdk_notice rdk_info rdk_trace1 rdk_debug : RdkLevel

-- A line that the daemon hands to RDK_LOG: the level, and the values of the format "%s[%u]: %s: %.*s".
pub record Line : Type 0 where
  pub level : RdkLevel
  pub name : CString
  pub pid : ℕ
  pub mod_name : CString
  pub text : CString

-- The logger's names: which severity a byte stands for, if any, and the name of a module.
pub record Logger : Type 0 where
  pub severity : ℕ → Option Severity
  pub module_str : ℕ → CString

-- The list of the clients, the watchers that are started, the descriptors that are open, the lines
-- logged, and whether a read wrote more bytes than the buffer holds. What follows such a read has no
-- defined behaviour in C: the model goes no further.
pub record Daemon : Type 0 where
  pub clients : List PClient
  pub watched : List ℕ
  pub open_fds : List ℕ
  pub lines : List Line
  pub overrun : Bool

unfoldable pub pl2rld_client_add : ℕ → Daemon → Daemon
pl2rld_client_add fd d =
    let pc : PClient = record { fd = fd; pid = 0; name = []; registered = false } in
    record d {
      clients = d.clients ++ pc ∷ [];
      watched = d.watched ++ fd ∷ [];
      open_fds = d.open_fds ++ fd ∷ [];
    }

unfoldable pub without : ℕ → List PClient → List PClient
without fd [] = []
without fd (x ∷ xs) = if x.fd == fd then xs else x ∷ without fd xs

unfoldable pub pl2rld_client_remove : ℕ → Daemon → Daemon
unfolding without remove_fd
pl2rld_client_remove fd d = record d {
  clients = without fd d.clients;
  watched = remove_fd fd d.watched;
  open_fds = remove_fd fd d.open_fds;
}

-- The loop takes the head of the list that it finds, as often as there are clients.
unfoldable pub cleanup_loop : List PClient → Daemon → Daemon
unfolding pl2rld_client_remove
cleanup_loop [] d = d
cleanup_loop (pc ∷ rest) d = cleanup_loop rest (pl2rld_client_remove pc.fd d)

unfoldable pub pl2rld_client_cleanup : Daemon → Daemon
unfolding cleanup_loop
pl2rld_client_cleanup d = cleanup_loop d.clients d

unfoldable pub by_fd : ℕ → List PClient → Option PClient
by_fd fd [] = none
by_fd fd (x ∷ xs) = if x.fd == fd then some x else by_fd fd xs

unfoldable pub pl2rld_client_by_evio : ℕ → Daemon → Option PClient
unfolding by_fd
pl2rld_client_by_evio fd d = by_fd fd d.clients

-- A client's fields change in place.
unfoldable pub update : PClient → List PClient → List PClient
update pc [] = []
update pc (x ∷ xs) = if x.fd == pc.fd then pc ∷ xs else x ∷ update pc xs

-- A string in an array: its bytes up to the first zero.
unfoldable pub c_string : List ℕ → CString
c_string [] = []
c_string (b ∷ bs) = if b == 0 then [] else b ∷ c_string bs

unfoldable pub pl2rld_client_recv_reg : PClient → List ℕ → Daemon → Daemon
unfolding update c_string
pl2rld_client_recv_reg pc buf d =
    let pc' = record pc {
      name = c_string (take (name_len - 1) (drop 8 buf));
      pid = u32_at buf 4;
      registered = true;
    } in
    record d { clients = update pc' d.clients }

unfoldable pub rdk_level : Option Severity → RdkLevel
rdk_level (some emerg) = rdk_fatal
rdk_level (some alert) = rdk_error
rdk_level (some crit) = rdk_error
rdk_level (some err) = rdk_error
rdk_level (some warning) = rdk_warn
rdk_level (some notice) = rdk_notice
rdk_level (some info) = rdk_info
rdk_level (some trace) = rdk_trace1
rdk_level (some debug) = rdk_debug
rdk_level none = rdk_debug

-- The call of RDK_LOG for a message.
unfoldable pub line_of : Logger → PClient → List ℕ → Line
unfolding rdk_level c_string
line_of lg pc buf = record {
  level = rdk_level (lg.severity (u8_at buf 4));
  name = pc.name;
  pid = pc.pid;
  mod_name = lg.module_str (u8_at buf 5);
  text = c_string (take (u16_at buf 6) (drop 8 buf));
}

unfoldable pub pl2rld_client_recv_log : Logger → PClient → List ℕ → Daemon → Daemon
unfolding pl2rld_client_remove line_of
pl2rld_client_recv_log lg pc buf d =
    if not pc.registered
    then pl2rld_client_remove pc.fd d
    else record d { lines = d.lines ++ line_of lg pc buf ∷ [] }
