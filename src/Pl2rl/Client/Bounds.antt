-- ===== src/Pl2rl/Client/Bounds.antt =====
-- The buffer and the descriptor of the sending side, src/lib/pl2rl/pl2rl.c.
use opensync_platform_rdk.Common.{
  if◌then◌else◌, ℕ, zero, suc, ◌+◌, ◌%◌, ◌≤◌, Bool, true, false, not, ◌&&◌, List, [], ◌∷◌, Option,
  none, some, ◌≡◌, ◌↔◌, ◌⊎◌, refl, sym, inl, inr, Bool-cases, Option-cases, arith, length, take,
  drop, ltb, ◌==◌, ap, ◌∙◌,
}
use opensync_platform_rdk.Pl2rl.{LogMsg, buf_size, register_message, log_message, message_length}
use opensync_platform_rdk.Pl2rl.Client.{
  Sender, System, retries, remove_fd, pl2rl_disconnect, send_loop, pl2rl_send, register,
  attempt_connect, opened, connect_anew, connect_rate, log_anew, pl2rl_connect, pl2rl_init,
  log_connected, pl2rl_log, Sent, took, again, failed, no_socket, refused, blocking, connected,
}

Sent-cases : (r : Sent) → (r ≡ again) ⊎ ((r ≡ failed) ⊎ ((k : ℕ) × (r ≡ took k)))
Sent-cases again = inl refl
Sent-cases failed = inr (inl refl)
Sent-cases (took k) = inr (inr (k, refl))

-- The open descriptors are the one of the connection, if there is one.
abbrev pub held : Option ℕ → List ℕ
held none = []
held (some fd) = fd ∷ []

abbrev pub Owned : Sender → Type 0
Owned c = c.open_fds ≡ held c.fd

disconnect-Owned : (c : Sender) → Owned c → Owned (pl2rl_disconnect c)
unfolding pl2rl_disconnect remove_fd
disconnect-Owned c h = elim (Option-cases c.fd) [
  | inl e ↦ rw (e) (h ∙ ap held e)
  | inr (fd, e) ↦ ground (arith, h ∙ ap held e, e)
]

disconnect-overrun : (c : Sender) → (pl2rl_disconnect c).overrun ≡ c.overrun
unfolding pl2rl_disconnect
disconnect-overrun c = elim (Option-cases c.fd) [ inl e ↦ rw (e) refl | inr (fd, e) ↦ rw (e) refl ]

-- What a disconnection and the bytes sent keep, a send keeps.
module _ (P : Sender → Type 0) (closes : (c : Sender) → P c → P (pl2rl_disconnect c))
    (writes : (c : Sender) (w : List ℕ) → P c → P (record c { wire = w })) (sys : System) where
  send_loop-keeps : (n : ℕ) (rest : List ℕ) (c : Sender) → P c → P (send_loop sys n rest c).0
  unfolding send_loop
  send_loop-keeps zero rest c h = h
  send_loop-keeps (suc n) rest c h = elim (Sent-cases (sys.send rest (suc n))) [
    | inl e ↦ rw (send_loop, e) (send_loop-keeps n rest c h)
    | inr (inl e) ↦ rw (send_loop, e) (closes c h)
    | inr (inr (k, e)) ↦ elim (Bool-cases (k == length rest)) [
      | inl f ↦ rw (send_loop, e, f) (writes c _ h)
      | inr f ↦ rw (send_loop, e, f) (send_loop-keeps n (drop k rest) _ (writes c _ h))
    ]
  ]

  send-keeps : (content : List ℕ) (c : Sender) → P c → P (pl2rl_send sys content c).0
  unfolding pl2rl_send
  send-keeps content c h =
      elim c.fd
        as (λ o.
          P
            (elim o as (λ x. Sender × Bool) [
              | none ↦ (c, false)
              | some fd ↦ send_loop sys retries content c
            ]).0) [ none ↦ h | some fd ↦ send_loop-keeps retries content c h ]

  register-keeps : (c : Sender) → P c → P (register sys c).0
  unfolding register
  register-keeps c h =
      let sent = send-keeps (register_message sys.pid sys.name) c h in
      elim (Bool-cases (pl2rl_send sys (register_message sys.pid sys.name) c).1) [
        | inl e ↦ rw (register, e) sent
        | inr e ↦ rw (register, e) (closes _ sent)
      ]

  -- The messages of a connected process, whatever becomes of the connection.
  log_connected-keeps :
      (m : LogMsg) (c : Sender) → P c → P (record c { overrun = true }) → P (log_connected sys m c)
  unfolding log_connected
  log_connected-keeps m c h o =
      let sent = send-keeps (take (message_length m) (log_message m)) in
      elim (Bool-cases (ltb buf_size (message_length m))) [
        | inl e ↦ rw (log_connected, e) h
        | inr e ↦ elim (Bool-cases (ltb buf_size (8 + length m.text))) [
          | inl f ↦ rw (log_connected, e, f) o
          | inr f ↦ rw (log_connected, e, f) (sent _ h)
        ]
      ]

closes-Owned : (fd : ℕ) (c : Sender) → Owned c → remove_fd fd (fd ∷ c.open_fds) ≡ held c.fd
unfolding remove_fd
closes-Owned fd c h = ground (arith, h)

attempt-Owned :
    (sys : System) (c : Sender) → c.fd ≡ none → Owned c → Owned (attempt_connect sys c).0
unfolding attempt_connect opened
attempt-Owned sys c e h =
    elim sys.attempt
      as (λ a.
        Owned
          (elim a as (λ x. Sender × Bool) [
            | no_socket ↦ (c, false)
            | refused fd ↦ (record c { open_fds = remove_fd fd (fd ∷ c.open_fds) }, false)
            | blocking fd ↦ (record c { open_fds = remove_fd fd (fd ∷ c.open_fds) }, false)
            | connected fd ↦ register sys (opened fd c)
          ]).0) [
            | no_socket ↦ h
            | refused fd ↦ closes-Owned fd c h
            | blocking fd ↦ closes-Owned fd c h
            | connected fd ↦
                register-keeps Owned disconnect-Owned (λ c w h. h) sys (opened fd c)
                  (ap (λ l. fd ∷ l) (h ∙ ap held e))
          ]

anew-Owned : (sys : System) (c : Sender) → c.fd ≡ none → Owned c → Owned (connect_anew sys c).0
unfolding connect_anew
anew-Owned sys c e h =
    elim (Bool-cases (not (c.last_attempt == 0) && ltb sys.now (c.last_attempt + connect_rate))) [
      | inl f ↦ rw (connect_anew, f) h
      | inr f ↦ rw (connect_anew, f) (attempt-Owned sys (record c { last_attempt = sys.now }) e h)
    ]

connect-Owned : (sys : System) (c : Sender) → Owned c → Owned (pl2rl_connect sys c).0
unfolding pl2rl_connect
connect-Owned sys c h =
    (elim c.fd
        as (λ o.
          c.fd ≡ o
          → Owned
              (elim o as (λ x. Sender × Bool) [
                | some fd ↦ (c, true)
                | none ↦ connect_anew sys c
              ]).0) [ some fd ↦ λ e. h | none ↦ λ e. anew-Owned sys c e h ])
      refl

connected-Owned : (sys : System) (m : LogMsg) (c : Sender) → Owned c → Owned (log_connected sys m c)
connected-Owned sys m c h = log_connected-keeps Owned disconnect-Owned (λ c w h. h) sys m c h h

log_anew-Owned : (sys : System) (m : LogMsg) (c : Sender) → Owned c → Owned (log_anew sys m c)
unfolding log_anew
log_anew-Owned sys m c h = elim (Bool-cases (pl2rl_connect sys c).1) [
  | inl e ↦ rw (log_anew, e) (connected-Owned sys m _ (connect-Owned sys c h))
  | inr e ↦ rw (log_anew, e) (connect-Owned sys c h)
]

log-Owned : (sys : System) (m : LogMsg) (c : Sender) → Owned c → Owned (pl2rl_log sys m c)
unfolding pl2rl_log
log-Owned sys m c h =
    elim c.fd
      as (λ o.
        Owned
          (elim o as (λ x. Sender) [ some fd ↦ log_connected sys m c | none ↦ log_anew sys m c ])) [
            | some fd ↦ connected-Owned sys m c h
            | none ↦ log_anew-Owned sys m c h
          ]

-- The calls of the file that a process makes.
pub data ProcessCall : Type 0 where
  initialise : System → ProcessCall
  log : System → LogMsg → ProcessCall

-- The calls one after another, as long as no copy ran over the buffer.
unfoldable pub run : List ProcessCall → Sender → Sender
unfolding pl2rl_init pl2rl_log
run [] c = c
run (initialise sys ∷ calls) c = if c.overrun then c else run calls (pl2rl_init sys c).0
run (log sys m ∷ calls) c = if c.overrun then c else run calls (pl2rl_log sys m c)

if-Owned : (b : Bool) (x y : Sender) → Owned x → Owned y → Owned (if b then x else y)
if-Owned true x y h k = h
if-Owned false x y h k = k

run-keeps : (calls : List ProcessCall) (c : Sender) → Owned c → Owned (run calls c)
unfolding run pl2rl_init
run-keeps [] c h = h
run-keeps (initialise sys ∷ calls) c h =
    if-Owned c.overrun c _ h (run-keeps calls (pl2rl_init sys c).0 (connect-Owned sys c h))
run-keeps (log sys m ∷ calls) c h =
    if-Owned c.overrun c _ h (run-keeps calls (pl2rl_log sys m c) (log-Owned sys m c h))

-- After any calls, whatever the system answers to them, of which none copies a text beyond the buffer,
-- the descriptors that a process without connection at first has open are the one of its
-- connection, or none if it has no connection: no failed attempt and no broken connection leaves a
-- descriptor behind.
pub run-Owned :
    (calls : List ProcessCall) (c : Sender)
    → c.fd ≡ none
    → c.open_fds ≡ []
    → (run calls c).overrun ≡ false
    → (run calls c).open_fds ≡ held (run calls c).fd
run-Owned calls c e o defined = run-keeps calls c (o ∙ sym (ap held e))

connected-overrun :
    (sys : System) (m : LogMsg) (c : Sender) (fd : ℕ)
    → c.fd ≡ some fd
    → c.overrun ≡ false
    → (pl2rl_log sys m c).overrun
      ≡ not (ltb buf_size (message_length m)) && ltb buf_size (8 + length m.text)
unfolding pl2rl_log log_connected
connected-overrun sys m c fd e h =
    let sent = (λ (b : Bool) (c' : Sender) (h' : c'.overrun ≡ b).
      send-keeps (λ c1. c1.overrun ≡ b) (λ c1 h1. disconnect-overrun c1 ∙ h1) (λ c1 w h1. h1) sys
        (take (message_length m) (log_message m)) c' h') in
    elim (Bool-cases (ltb buf_size (message_length m))) [
      | inl f ↦ rw (pl2rl_log, log_connected, e, f) h
      | inr f ↦ elim (Bool-cases (ltb buf_size (8 + length m.text))) [
        | inl g ↦ rw (pl2rl_log, log_connected, e, f, g) refl
        | inr g ↦ rw (pl2rl_log, log_connected, e, f, g) (sent false c h)
      ]
    ]

-- On an open connection, where no copy ran over the buffer before, logging a message copies beyond
-- the buffer exactly if its text has at least 65528 bytes and its length with the 8 bytes before it
-- is, cut to the two bytes of the header, at most the buffer's.
pub log-overrun :
    (sys : System) (m : LogMsg) (c : Sender) (fd : ℕ)
    → c.fd ≡ some fd
    → c.overrun ≡ false
    → ((pl2rl_log sys m c).overrun ≡ true)
      ↔ ((65528 ≤ length m.text) × ((8 + length m.text) % 65536 ≤ 4096))
unfolding message_length
log-overrun sys m c fd e h = ground (arith, connected-overrun sys m c fd e h)
