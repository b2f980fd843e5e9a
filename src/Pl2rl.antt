-- ===== src/Pl2rl.antt =====
-- Remote logging: the messages that a process sends to the logging daemon, src/lib/pl2rl. Its
-- children are the sending side, pl2rl.c, and the daemon, src/pl2rld/pl2rld.c. The structs are
-- packed, and both ends run on one host, taken to be little-endian.
pub mod Client
pub mod Daemon
pub mod Delivery
mod Tests
use opensync_platform_rdk.Common.{
  ℕ, suc, ◌+◌, ◌-◌, ◌*◌, ◌/◌, ◌%◌, ◌^◌, List, [], ◌∷◌, ◌++◌, CString, take, length, replicate,
  get_or, strscpy,
}

-- The fields of logger_msg_t that the client reads.
pub record LogMsg : Type 0 where
  pub severity : ℕ
  pub mod_id : ℕ
  pub text : CString

-- PL2RL_MSG_TYPE_REGISTER, PL2RL_MSG_TYPE_LOG, PL2RL_MSG_TYPE_MAX and PL2RL_NAME_LEN
abbrev pub type_register : ℕ
type_register = 0

abbrev pub type_log : ℕ
type_log = 1

abbrev pub type_max : ℕ
type_max = 2

abbrev pub name_len : ℕ
name_len = 32

-- PL2RL_BUF of the client and PL2RLD_CLIENTS_BUF of the daemon.
abbrev pub buf_size : ℕ
buf_size = 4096

-- Fields of one, two and four bytes: a value is cut to the field.
unfoldable pub u8_bytes : ℕ → List ℕ
u8_bytes n = n % 256 ∷ []

unfoldable pub u16_bytes : ℕ → List ℕ
u16_bytes n = n % 256 ∷ n / 256 % 256 ∷ []

unfoldable pub u32_bytes : ℕ → List ℕ
u32_bytes n = n % 256 ∷ n / 256 % 256 ∷ n / 65536 % 256 ∷ n / 16777216 % 256 ∷ []

-- The same fields at an offset of a buffer.
abbrev pub u8_at : List ℕ → ℕ → ℕ
u8_at buf i = get_or buf i 0

abbrev pub u16_at : List ℕ → ℕ → ℕ
u16_at buf i = get_or buf i 0 + 256 * get_or buf (i + 1) 0

abbrev pub u32_at : List ℕ → ℕ → ℕ
u32_at buf i =
    get_or buf i 0
    + 256 * get_or buf (i + 1) 0
    + 65536 * get_or buf (i + 2) 0
    + 16777216 * get_or buf (i + 3) 0

-- pl2rl_msg_hdr_t
unfoldable pub header : ℕ → ℕ → List ℕ
unfolding u16_bytes
header msg_type len = u16_bytes msg_type ++ u16_bytes len

-- The register message on the cleared buffer: snprintf writes at most sizeof(name) - 2 bytes.
unfoldable pub register_message : ℕ → CString → List ℕ
unfolding header u32_bytes
register_message pid name =
    let shown = strscpy (name_len - 1) name in
    header type_register 40 ++ u32_bytes pid ++ shown ++ replicate (name_len - length shown) 0

-- The log message as it stands in the buffer, before the cut to the header's length.
unfoldable pub log_message : LogMsg → List ℕ
unfolding header u8_bytes u16_bytes
log_message m =
    header type_log (8 + length m.text)
    ++ u8_bytes m.severity
    ++ u8_bytes m.mod_id
    ++ u16_bytes (length m.text)
    ++ m.text

-- hdr.length of the log message, a field of two bytes.
unfoldable pub message_length : LogMsg → ℕ
message_length m = (8 + length m.text) % 65536
