-- ===== src/Pl2rl/Delivery/Messages.antt =====
-- The messages of remote logging in the daemon's buffer: src/lib/pl2rl/pl2rl.c writes them and
-- src/pl2rld/pl2rld.c takes them apart.
use opensync_platform_rdk.Common.{
  ℕ, zero, suc, ◌+◌, ◌-◌, ◌*◌, ◌/◌, ◌%◌, ◌≤◌, ◌<◌, false, List, [], ◌∷◌, ◌++◌, ◌≡◌, refl, ap, ◌∙◌,
  arith, length, take, drop, replicate, All, strscpy, CString, ◌==◌, length-take,
}
use mathlib.Core.List.{append_assoc}
use opensync_platform_rdk.Pl2rl.{
  LogMsg, header, u8_bytes, u16_bytes, u32_bytes, u16_at, u32_at, register_message, log_message,
}
use opensync_platform_rdk.Pl2rl.Daemon.{c_string, PClient, Logger, line_of, rdk_level}

-- A string has no zero byte before its end.
abbrev pub NonZero : CString → Type 0
NonZero s = All (λ b. (b == 0) ≡ false) s

u16_lem : (n : ℕ) → n < 65536 → n % 256 + 256 * (n / 256 % 256) ≡ n
u16_lem n h = omega arith

u32_lem :
    (n : ℕ)
    → n < 4294967296
    → n % 256 + 256 * (n / 256 % 256) + 65536 * (n / 65536 % 256) + 16777216 * (n / 16777216 % 256)
      ≡ n
u32_lem n h = omega arith

pub header-type : (t len : ℕ) (body : List ℕ) → t < 65536 → u16_at (header t len ++ body) 0 ≡ t
unfolding header u16_bytes
header-type t len body h = u16_lem t h

pub header-length :
    (t len : ℕ) (body : List ℕ) → len < 65536 → u16_at (header t len ++ body) 2 ≡ len
unfolding header u16_bytes
header-length t len body h = u16_lem len h

take-length-append : (xs ys : List ℕ) → take (length xs) (xs ++ ys) ≡ xs
take-length-append [] ys = refl
take-length-append (x ∷ xs) ys = ap (λ l. x ∷ l) (take-length-append xs ys)

c_string-whole : (s : CString) → NonZero s → c_string s ≡ s
unfolding c_string
c_string-whole [] h = refl
c_string-whole (b ∷ bs) (h, hs) = ground (arith, h, c_string-whole bs hs)

c_string-ended :
    (n : ℕ) (s : CString) (rest : List ℕ)
    → length s < n
    → NonZero s
    → c_string (take n (s ++ 0 ∷ rest)) ≡ s
unfolding c_string
c_string-ended (suc n) [] rest fits h = refl
c_string-ended (suc n) (b ∷ bs) rest fits (h, hs) =
    ground (arith, h, c_string-ended n bs rest (omega arith) hs)
c_string-ended zero s rest fits h = ground (arith, fits)

take-NonZero : (n : ℕ) (s : CString) → NonZero s → NonZero (take n s)
take-NonZero zero s h = tt
take-NonZero (suc n) [] h = tt
take-NonZero (suc n) (b ∷ bs) (h, hs) = (h, take-NonZero n bs hs)

sub_suc : (m n : ℕ) → n < m → m - n ≡ suc (m - n - 1)
sub_suc m n h = omega arith

zeros : (m n : ℕ) → n < m → replicate {A = ℕ} (m - n) 0 ≡ 0 ∷ replicate (m - n - 1) 0
zeros m n h = ap (λ k. replicate {A = ℕ} k 0) (sub_suc m n h)

-- The name and the process id in the buffer of a register message.
pub register-name :
    (pid : ℕ) (name : CString) (stale : List ℕ)
    → NonZero name
    → c_string (take 31 (drop 8 (register_message pid name ++ stale))) ≡ strscpy 31 name
unfolding register_message header u16_bytes u32_bytes
register-name pid name stale h =
    let shown = strscpy 31 name in
    let short : length shown ≤ 30 = omega (arith, length-take 30 name) in
    ap (λ l. c_string (take 31 l)) (append_assoc shown (replicate (32 - length shown) 0) stale)
    ∙ ap (λ l. c_string (take 31 (shown ++ (l ++ stale)))) (zeros 32 (length shown) (omega arith))
    ∙ c_string-ended 31 shown (replicate {A = ℕ} (32 - length shown - 1) 0 ++ stale) (omega arith)
        (take-NonZero 30 name h)

pub register-pid :
    (pid : ℕ) (name : CString) (stale : List ℕ)
    → pid < 4294967296
    → u32_at (register_message pid name ++ stale) 4 ≡ pid
unfolding register_message header u16_bytes u32_bytes
register-pid pid name stale h = u32_lem pid h

-- The line of a log message whose numbers fit their fields.
pub line_of-message :
    (lg : Logger) (pc : PClient) (m : LogMsg) (stale : List ℕ)
    → m.severity < 256
    → m.mod_id < 256
    → length m.text < 65536
    → NonZero m.text
    → line_of lg pc (log_message m ++ stale) ≡ record {
      level = rdk_level (lg.severity m.severity);
      name = pc.name;
      pid = pc.pid;
      mod_name = lg.module_str m.mod_id;
      text = m.text;
    }
unfolding line_of log_message header u8_bytes u16_bytes
line_of-message lg pc m stale sev mod_ok len nz =
    let s : m.severity % 256 ≡ m.severity = omega arith in
    let i : m.mod_id % 256 ≡ m.mod_id = omega arith in
    let l = length m.text in
    let t : c_string (take (l % 256 + 256 * (l / 256 % 256)) (m.text ++ stale)) ≡ m.text =
      ap (λ n. c_string (take n (m.text ++ stale))) (u16_lem l len)
      ∙ ap c_string (take-length-append m.text stale)
      ∙ c_string-whole m.text nz in
    rw (line_of, s, i, t) refl
