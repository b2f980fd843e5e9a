-- ===== src/Pl2rl/Delivery/Lines.antt =====
-- What a process logs and what the daemon hands on, src/lib/pl2rl/pl2rl.c and src/pl2rld/pl2rld.c.
use opensync_platform_rdk.Common.{
  length-replicate, ℕ, zero, suc, ◌+◌, ◌-◌, ◌≤◌, ◌<◌, true, false, List, [], ◌∷◌, ◌++◌, map, drop,
  none, some, ◌≡◌, refl, sym, ap, ◌∙◌, arith, length, replicate, All, length-append, length-take,
  CString, strscpy, Bool-cases, inl, inr,
}
use mathlib.Core.List.{append_assoc, append-nil}
use opensync_platform_rdk.Pl2rl.{
  LogMsg, buf_size, header, u8_bytes, u16_bytes, u32_bytes, register_message, log_message, type_log,
  type_register,
}
use opensync_platform_rdk.Pl2rl.Client.{Sender, System, pl2rl_init, connected}
use opensync_platform_rdk.Pl2rl.Daemon.{
  PClient, Line, Logger, Daemon, by_fd, update, pl2rld_client_add, pl2rld_client_by_evio, rdk_level,
  pl2rld_client_recv_reg, pl2rld_client_recv_log,
}
use opensync_platform_rdk.Pl2rl.Daemon.Handlers.{
  Reader, accepted, pl2rld_client_accept_cb, handle_message, pl2rld_client_recv,
  pl2rld_client_evio_cb,
}
use opensync_platform_rdk.Pl2rl.Delivery.Messages.{
  NonZero, register-name, register-pid, line_of-message,
}
use opensync_platform_rdk.Pl2rl.Delivery.Streams.{Stream, behind, recv-message, behind-contents}
use opensync_platform_rdk.Pl2rl.Delivery.Sending.{
  Accepting, Short, fits, kept, wires, log_all, log_all-wire, init-Accepting,
}

-- The line for a message of a process with this name and id.
abbrev pub line_for : Logger → CString → ℕ → LogMsg → Line
line_for lg name pid m = record {
  level = rdk_level (lg.severity m.severity);
  name = name;
  pid = pid;
  mod_name = lg.module_str m.mod_id;
  text = m.text;
}

-- A message whose numbers fit their fields, with a text that is a string.
abbrev pub WellFormed : LogMsg → Type 0
WellFormed m = (m.severity < 256) × (m.mod_id < 256) × (length m.text < 65528) × NonZero m.text

All-Short : (ms : List LogMsg) → All WellFormed ms → All Short ms
All-Short [] wf = tt
All-Short (m ∷ ms) ((sev, i, short, nz), wf) = (short, All-Short ms wf)

by_fd-append :
    (fd : ℕ) (xs : List PClient) (pc : PClient)
    → by_fd fd xs ≡ none
    → pc.fd ≡ fd
    → by_fd fd (xs ++ pc ∷ []) ≡ some pc
unfolding by_fd
by_fd-append fd [] pc h e = ground (arith, e)
by_fd-append fd (x ∷ xs) pc h e = ground (arith, by_fd-append fd xs pc, h, e)

by_fd-update :
    (fd : ℕ) (xs : List PClient) (old pc : PClient)
    → by_fd fd xs ≡ some old
    → pc.fd ≡ fd
    → by_fd fd (update pc xs) ≡ some pc
unfolding by_fd update
by_fd-update fd [] old pc h e = ground (arith, h)
by_fd-update fd (x ∷ xs) old pc h e = ground (arith, by_fd-update fd xs old pc, h, e)

module _ {S : Type 0} {read : Reader S} (stream : Stream S read) (lg : Logger) (fd : ℕ)
    (stale : List ℕ) where
  -- The watcher of one client fires so many times.
  unfoldable pub serve : ℕ → S → Daemon → Daemon × S
  unfolding pl2rld_client_evio_cb
  serve zero s d = (d, s)
  serve (suc n) s d =
      let (d', s') = pl2rld_client_evio_cb read lg fd false stale s d in serve n s' d'

  evio-recv :
      (pc : PClient) (s : S) (d : Daemon)
      → pl2rld_client_by_evio fd d ≡ some pc
      → pl2rld_client_evio_cb read lg fd false stale s d ≡ pl2rld_client_recv read lg pc stale s d
  unfolding pl2rld_client_evio_cb
  evio-recv pc s d e = rw (pl2rld_client_evio_cb, e) refl

  log_body : LogMsg → List ℕ
  unfolding u8_bytes u16_bytes
  log_body m = u8_bytes m.severity ++ u8_bytes m.mod_id ++ u16_bytes (length m.text) ++ m.text

  -- A log message at the front of the stream of a registered client.
  evio-log :
      (pc : PClient) (m : LogMsg) (rest : List ℕ) (s : S) (d : Daemon)
      → pl2rld_client_by_evio fd d ≡ some pc
      → pc.registered ≡ true
      → WellFormed m
      → fits m ≡ true
      → stream.contents s ≡ log_message m ++ rest
      → pl2rld_client_evio_cb read lg fd false stale s d ≡ (
        record d { lines = d.lines ++ line_for lg pc.name pc.pid m ∷ [] },
        behind stream lg (log_body m) s,
      )
  unfolding log_body log_message header u16_bytes u8_bytes handle_message pl2rld_client_recv_log
  evio-log pc m rest s d found reg (sev, i, short, nz) f holds =
      let l : 8 + length m.text ≤ buf_size = ground (arith, f) in
      evio-recv pc s d found
      ∙ recv-message stream lg pc type_log (8 + length m.text) (log_body m) rest stale s d
          (omega arith) (omega arith) l holds
      ∙ ap (λ d'. (d', behind stream lg (log_body m) s))
          (rw (pl2rld_client_recv_log, reg)
            (ap (λ x. record d { lines = d.lines ++ x ∷ [] })
              (line_of-message lg pc m (drop (length (log_message m)) stale) sev i (omega arith)
                nz)))

  log-behind :
      (m : LogMsg) (rest : List ℕ) (s : S)
      → stream.contents s ≡ log_message m ++ rest
      → stream.contents (behind stream lg (log_body m) s) ≡ rest
  unfolding log_body log_message header u16_bytes u8_bytes
  log-behind m rest s holds =
      behind-contents stream lg (header type_log (8 + length m.text)) (log_body m) rest s refl holds

  -- The log messages that the stream holds are handed on one by one, each as its line.
  serve-lines :
      (pc : PClient) (ms : List LogMsg) (s : S) (d : Daemon)
      → pl2rld_client_by_evio fd d ≡ some pc
      → pc.registered ≡ true
      → All WellFormed ms
      → stream.contents s ≡ wires (kept ms)
      → (serve (length (kept ms)) s d).0.lines
        ≡ d.lines ++ map (line_for lg pc.name pc.pid) (kept ms)
  unfolding serve pl2rld_client_by_evio
  serve-lines pc [] s d found reg wf holds = sym (append-nil d.lines)
  serve-lines pc (m ∷ ms) s d found reg (w, wf) holds = elim (Bool-cases (fits m)) [
    | inr f ↦ rw (f) (serve-lines pc ms s d found reg wf (holds ∙ rw (f) refl))
    | inl f ↦
        let holds' : stream.contents s ≡ log_message m ++ wires (kept ms) = holds ∙ rw (f) refl in
        let d' = record d { lines = d.lines ++ line_for lg pc.name pc.pid m ∷ [] } in
        rw (f) (
          ap (λ (x : Daemon × S). (serve (length (kept ms)) x.1 x.0).0.lines)
            (evio-log pc m (wires (kept ms)) s d found reg w f holds')
          ∙ serve-lines pc ms (behind stream lg (log_body m) s) d' found reg wf
              (log-behind m (wires (kept ms)) s holds')
          ∙ append_assoc d.lines _ _)
  ]

  register_body : ℕ → CString → List ℕ
  unfolding u32_bytes
  register_body pid name =
      u32_bytes pid ++ (strscpy 31 name ++ replicate (32 - length (strscpy 31 name)) 0)

  length-register_body : (pid : ℕ) (name : CString) → length (register_body pid name) ≡ 36
  unfolding register_body u32_bytes
  length-register_body pid name =
      let k = length (strscpy 31 name) in
      omega (
        arith,
        length-append (strscpy 31 name) (replicate {A = ℕ} (32 - k) 0),
        length-replicate {A = ℕ} (32 - k) 0,
        length-take 30 name,
      )

  -- The register message at the front of the stream of a client.
  evio-register :
      (pc : PClient) (pid : ℕ) (name : CString) (rest : List ℕ) (s : S) (d : Daemon)
      → pl2rld_client_by_evio fd d ≡ some pc
      → pid < 4294967296
      → NonZero name
      → stream.contents s ≡ register_message pid name ++ rest
      → pl2rld_client_evio_cb read lg fd false stale s d ≡ (
        record d {
          clients =
              update (record pc { name = strscpy 31 name; pid = pid; registered = true }) d.clients;
        },
        behind stream lg (register_body pid name) s,
      )
  unfolding register_body register_message header u16_bytes u32_bytes handle_message
      pl2rld_client_recv_reg
  evio-register pc pid name rest s d found small nz holds =
      let body = register_body pid name in
      let old = drop (length (register_message pid name)) stale in
      evio-recv pc s d found
      ∙ recv-message stream lg pc type_register 40 body rest stale s d (omega arith)
          (omega (arith, length-register_body pid name)) (omega arith) holds
      ∙ ap (λ d'. (d', behind stream lg body s))
          (rw
            (pl2rld_client_recv_reg, register-name pid name old nz, register-pid pid name old small)
            refl)

  register-behind :
      (pid : ℕ) (name : CString) (rest : List ℕ) (s : S)
      → stream.contents s ≡ register_message pid name ++ rest
      → stream.contents (behind stream lg (register_body pid name) s) ≡ rest
  unfolding register_body register_message header u16_bytes u32_bytes
  register-behind pid name rest s holds =
      behind-contents stream lg (header type_register 40) (register_body pid name) rest s refl holds

  -- A process without connection connects to the daemon and registers, and then logs messages; the
  -- connection takes what is sent, the daemon accepts it under a descriptor that none of its clients
  -- has, and the stream holds what was sent. The name is a string, the process id fits four bytes, the
  -- severities and modules fit one, and the texts are strings of less than 65528 bytes. Then the
  -- daemon, called once for the registration and once for each message that the buffer holds, hands
  -- on exactly these messages, in order: each with its text, module name and level, under the
  -- process id and the first 30 bytes of the name.
  pub log_delivery :
      (sys : System) (c : Sender) (x : ℕ) (ms : List LogMsg) (s : S) (d : Daemon)
      → Accepting sys
      → c.fd ≡ none
      → c.last_attempt ≡ 0
      → sys.attempt ≡ connected x
      → sys.pid < 4294967296
      → NonZero sys.name
      → All WellFormed ms
      → pl2rld_client_by_evio fd d ≡ none
      → stream.contents s ≡ (log_all sys ms (pl2rl_init sys c).0).wire
      → (serve (suc (length (kept ms))) s (pl2rld_client_accept_cb (accepted fd) d)).0.lines
        ≡ d.lines ++ map (line_for lg (strscpy 31 sys.name) sys.pid) (kept ms)
  unfolding serve pl2rld_client_accept_cb pl2rld_client_add pl2rld_client_by_evio
  log_delivery sys c x ms s d all e first att small nz wf fresh holds =
      let (connects, sends) = init-Accepting sys c x all e first att in
      let new : PClient = record { fd = fd; pid = 0; name = []; registered = false } in
      let pc : PClient = record {
        fd = fd;
        pid = sys.pid;
        name = strscpy 31 sys.name;
        registered = true;
      } in
      let d1 = pl2rld_client_accept_cb (accepted fd) d in
      let found = by_fd-append fd d.clients new fresh refl in
      let holds' : stream.contents s ≡ register_message sys.pid sys.name ++ wires (kept ms) =
        holds
        ∙ log_all-wire sys ms _ x all connects (All-Short ms wf)
        ∙ ap (λ w. w ++ wires (kept ms)) sends in
      ap (λ (y : Daemon × S). (serve (length (kept ms)) y.1 y.0).0.lines)
        (evio-register new sys.pid sys.name (wires (kept ms)) s d1 found small nz holds')
      ∙ serve-lines pc ms (behind stream lg (register_body sys.pid sys.name) s)
          (record d1 { clients = update pc d1.clients })
          (by_fd-update fd d1.clients new pc found refl) refl wf
          (register-behind sys.pid sys.name (wires (kept ms)) s holds')
