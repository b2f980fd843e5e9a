-- ===== src/Pl2rl/Delivery/Sending.antt =====
-- The sending side of remote logging on a connection that takes all that is sent,
-- src/lib/pl2rl/pl2rl.c: the bytes of a process and its messages.
use opensync_platform_rdk.Common.{
  ℕ, ◌+◌, ◌≤◌, ◌<◌, Bool, true, false, List, [], ◌∷◌, ◌++◌, none, some, ◌≡◌, refl, sym, ap, ◌∙◌,
  arith, length, ◌==◌, ltb, leb, if◌then◌else◌, take_of_length-le, All, Bool-cases, inl, inr,
}
use mathlib.Core.List.{append_assoc, append-nil}
use opensync_platform_rdk.Pl2rl.{
  LogMsg, buf_size, header, u8_bytes, u16_bytes, register_message, log_message, message_length,
}
use opensync_platform_rdk.Pl2rl.Client.{
  Sender, System, retries, took, send_loop, pl2rl_send, register, attempt_connect, connect_anew,
  pl2rl_connect, pl2rl_init, log_connected, pl2rl_log, log_anew, no_socket, refused, blocking,
  connected, opened, remove_fd,
}

-- Every send of this process takes all that it is given.
abbrev pub Accepting : System → Type 0
Accepting sys = (rest : List ℕ) (n : ℕ) → sys.send rest n ≡ took (length rest)

loop-Accepting :
    (sys : System) (content : List ℕ) (c : Sender)
    → Accepting sys
    → send_loop sys retries content c ≡ (record c { wire = c.wire ++ content }, true)
unfolding send_loop
loop-Accepting sys content c all =
    let f : (length content == length content) ≡ true = ground arith in
    let g = take_of_length-le (length content) content (omega arith) in
    rw (send_loop, all content 3, f, g) refl

send-Accepting :
    (sys : System) (content : List ℕ) (c : Sender) (fd : ℕ)
    → Accepting sys
    → c.fd ≡ some fd
    → pl2rl_send sys content c ≡ (record c { wire = c.wire ++ content }, true)
unfolding pl2rl_send
send-Accepting sys content c fd all e =
    ap
      (λ o. elim o as (λ x. Sender × Bool) [
        | none ↦ (c, false)
        | some x ↦ send_loop sys retries content c
      ])
      e
    ∙ loop-Accepting sys content c all

log-connected :
    (sys : System) (m : LogMsg) (c : Sender) (fd : ℕ)
    → c.fd ≡ some fd
    → pl2rl_log sys m c ≡ log_connected sys m c
unfolding pl2rl_log
log-connected sys m c fd e =
    ap (λ o. elim o as (λ x. Sender) [ some x ↦ log_connected sys m c | none ↦ log_anew sys m c ]) e

-- A text that leaves the sum of the lengths in two bytes, and one that the buffer holds.
abbrev pub fits : LogMsg → Bool
fits m = leb (8 + length m.text) buf_size

abbrev pub kept : List LogMsg → List LogMsg
kept [] = []
kept (m ∷ ms) = if fits m then m ∷ kept ms else kept ms

abbrev pub wires : List LogMsg → List ℕ
wires [] = []
wires (m ∷ ms) = log_message m ++ wires ms

unfoldable pub log_all : System → List LogMsg → Sender → Sender
unfolding pl2rl_log
log_all sys [] c = c
log_all sys (m ∷ ms) c = log_all sys ms (pl2rl_log sys m c)

length-log_message : (m : LogMsg) → length (log_message m) ≡ 8 + length m.text
unfolding log_message header u8_bytes u16_bytes
length-log_message m = omega arith

log-fits :
    (sys : System) (m : LogMsg) (c : Sender) (fd : ℕ)
    → Accepting sys
    → c.fd ≡ some fd
    → fits m ≡ true
    → pl2rl_log sys m c ≡ record c { wire = c.wire ++ log_message m }
unfolding log_connected message_length
log-fits sys m c fd all e f =
    let l : 8 + length m.text ≤ buf_size = ground (arith, f) in
    let g : ltb buf_size (message_length m) ≡ false = ground (arith, l) in
    let h : ltb buf_size (8 + length m.text) ≡ false = ground (arith, l) in
    let k =
      take_of_length-le (message_length m) (log_message m)
        (omega (arith, length-log_message m, l)) in
    log-connected sys m c fd e
    ∙ rw (log_connected, g, h, k)
        (ap (λ (x : Sender × Bool). x.0) (send-Accepting sys (log_message m) c fd all e))

log-long :
    (sys : System) (m : LogMsg) (c : Sender) (fd : ℕ)
    → c.fd ≡ some fd
    → fits m ≡ false
    → length m.text < 65528
    → pl2rl_log sys m c ≡ c
unfolding log_connected message_length
log-long sys m c fd e f short =
    let g : ltb buf_size (message_length m) ≡ true = ground (arith, f, short) in
    log-connected sys m c fd e ∙ rw (log_connected, g) refl

-- The texts whose length with the 8 bytes before it does not wrap.
abbrev pub Short : LogMsg → Type 0
Short m = length m.text < 65528

pub log_all-wire :
    (sys : System) (ms : List LogMsg) (c : Sender) (fd : ℕ)
    → Accepting sys
    → c.fd ≡ some fd
    → All Short ms
    → (log_all sys ms c).wire ≡ c.wire ++ wires (kept ms)
unfolding log_all
log_all-wire sys [] c fd all e short = sym (append-nil c.wire)
log_all-wire sys (m ∷ ms) c fd all e (s, short) = elim (Bool-cases (fits m)) [
  | inl f ↦
      ap (λ x. (log_all sys ms x).wire) (log-fits sys m c fd all e f)
      ∙ log_all-wire sys ms (record c { wire = c.wire ++ log_message m }) fd all e short
      ∙ rw (f) (append_assoc c.wire (log_message m) (wires (kept ms)))
  | inr f ↦
      ap (λ x. (log_all sys ms x).wire) (log-long sys m c fd e f s)
      ∙ rw (f) (log_all-wire sys ms c fd all e short)
]

register-Accepting :
    (sys : System) (c : Sender) (fd : ℕ)
    → Accepting sys
    → register sys (opened fd c)
      ≡ (record (opened fd c) { wire = register_message sys.pid sys.name }, true)
unfolding register opened
register-Accepting sys c fd all =
    let e = send-Accepting sys (register_message sys.pid sys.name) (opened fd c) fd all refl in
    rw (register, e) refl

connect-Accepting :
    (sys : System) (c : Sender) (fd : ℕ)
    → Accepting sys
    → c.fd ≡ none
    → c.last_attempt ≡ 0
    → sys.attempt ≡ connected fd
    → pl2rl_connect sys c ≡ (
      record (opened fd (record c { last_attempt = sys.now })) {
        wire = register_message sys.pid sys.name;
      },
      true,
    )
unfolding pl2rl_connect connect_anew attempt_connect
connect-Accepting sys c fd all e first att =
    let c' = record c { last_attempt = sys.now } in
    let f : (c.last_attempt == 0) ≡ true = ground (arith, first) in
    ap (λ o. elim o as (λ x. Sender × Bool) [ some x ↦ (c, true) | none ↦ connect_anew sys c ]) e
    ∙ rw (connect_anew, f) refl
    ∙ ap
        (λ a. elim a as (λ x. Sender × Bool) [
          | no_socket ↦ (c', false)
          | refused x ↦ (record c' { open_fds = remove_fd x (x ∷ c.open_fds) }, false)
          | blocking x ↦ (record c' { open_fds = remove_fd x (x ∷ c.open_fds) }, false)
          | connected x ↦ register sys (opened x c')
        ])
        att
    ∙ register-Accepting sys c' fd all

-- From no connection, the initialisation sends the register message on a new one.
pub init-Accepting :
    (sys : System) (c : Sender) (fd : ℕ)
    → Accepting sys
    → c.fd ≡ none
    → c.last_attempt ≡ 0
    → sys.attempt ≡ connected fd
    → ((pl2rl_init sys c).0.fd ≡ some fd)
      × ((pl2rl_init sys c).0.wire ≡ register_message sys.pid sys.name)
unfolding pl2rl_init opened
init-Accepting sys c fd all e first att =
    let p = connect-Accepting sys c fd all e first att in
    (ap (λ (x : Sender × Bool). x.0.fd) p, ap (λ (x : Sender × Bool). x.0.wire) p)
