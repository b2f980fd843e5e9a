-- ===== src/Pl2rl/Delivery/Streams.antt =====
-- The daemon of remote logging on a whole message in a stream socket, src/pl2rld/pl2rld.c.
use opensync_platform_rdk.Common.{
  ℕ, zero, suc, ◌+◌, ◌-◌, ◌≤◌, ◌<◌, true, false, List, [], ◌∷◌, ◌++◌, ◌≡◌, refl, ap, ◌∙◌, arith,
  length, take, drop, length-append, ◌==◌, leb, ltb,
}
use opensync_platform_rdk.Pl2rl.{header, u16_bytes, u16_at, type_max, buf_size}
use opensync_platform_rdk.Pl2rl.Daemon.{PClient, Logger, Daemon}
use opensync_platform_rdk.Pl2rl.Daemon.Handlers.{
  Reader, bytes_read, handle_message, rest_size, recv_rest, pl2rld_client_recv,
}
use opensync_platform_rdk.Pl2rl.Delivery.Messages.{header-type, header-length}

-- A stream socket that holds bytes: a read of no more than it holds takes that many from its front.
pub record Stream (S : Type 0) (read : Reader S) : Type 0 where
  pub contents : S → List ℕ
  pub left : S → ℕ → S
  pub takes :
      (s : S) (n : ℕ)
      → n ≤ length (contents s)
      → read s n ≡ (bytes_read (take n (contents s)), left s n)
  pub leaves : (s : S) (n : ℕ) → n ≤ length (contents s) → contents (left s n) ≡ drop n (contents s)

take_append : (xs ys : List ℕ) (n : ℕ) → length xs ≡ n → take n (xs ++ ys) ≡ xs
take_append [] ys zero h = refl
take_append [] ys (suc n) h = ground (arith, h)
take_append (x ∷ xs) ys zero h = ground (arith, h)
take_append (x ∷ xs) ys (suc n) h = ap (λ l. x ∷ l) (take_append xs ys n (omega arith))

drop_append : (xs ys : List ℕ) (n : ℕ) → length xs ≡ n → drop n (xs ++ ys) ≡ ys
drop_append [] ys zero h = refl
drop_append [] ys (suc n) h = ground (arith, h)
drop_append (x ∷ xs) ys zero h = ground (arith, h)
drop_append (x ∷ xs) ys (suc n) h = drop_append xs ys n (omega arith)

module _ {S : Type 0} {read : Reader S} (stream : Stream S read) (lg : Logger) where
  -- What is left behind a message of this body.
  abbrev pub behind : List ℕ → S → S
  behind body s = stream.left (stream.left s 4) (length body)

  rest-whole :
      (pc : PClient) (hdr body stale : List ℕ) (s s' : S) (d : Daemon)
      → u16_at hdr 2 ≡ 4 + length body
      → 4 + length body ≤ buf_size
      → read s (length body) ≡ (bytes_read body, s')
      → recv_rest read lg pc hdr stale s d ≡ (handle_message read lg pc (hdr ++ body) stale d, s')
  unfolding recv_rest rest_size
  rest-whole pc hdr body stale s s' d long fits e =
      let n = rest_size (u16_at hdr 2) in
      let size : n ≡ length body = ground (arith, long) in
      let e1 : read s n ≡ (bytes_read body, s') = ap (read s) size ∙ e in
      let f1 : leb 4 (u16_at hdr 2) ≡ true = ground (arith, long) in
      let f2 : (length body == n) ≡ true = ground (arith, size) in
      let f3 : ltb (buf_size - 4) (length body) ≡ false = ground (arith, fits) in
      rw (recv_rest, e1, f3, f1, f2, e1) refl

  front-contents :
      (hdr rest : List ℕ) (s : S)
      → length hdr ≡ 4
      → stream.contents s ≡ hdr ++ rest
      → stream.contents (stream.left s 4) ≡ rest
  front-contents hdr rest s four holds =
      let l1 = ap length holds ∙ length-append hdr rest in
      stream.leaves s 4 (omega (arith, l1)) ∙ ap (drop 4) holds ∙ drop_append hdr rest 4 four

  recv-whole :
      (pc : PClient) (hdr body rest stale : List ℕ) (s : S) (d : Daemon)
      → length hdr ≡ 4
      → u16_at hdr 0 < type_max
      → u16_at hdr 2 ≡ 4 + length body
      → 4 + length body ≤ buf_size
      → stream.contents s ≡ hdr ++ (body ++ rest)
      → pl2rld_client_recv read lg pc stale s d
        ≡ (handle_message read lg pc (hdr ++ body) stale d, behind body s)
  unfolding pl2rld_client_recv
  recv-whole pc hdr body rest stale s d four known long fits holds =
      let l1 = ap length holds ∙ length-append hdr (body ++ rest) in
      let e1 : read s 4 ≡ (bytes_read hdr, stream.left s 4) =
        stream.takes s 4 (omega (arith, l1))
        ∙ ap (λ x. (bytes_read (take 4 x), stream.left s 4)) holds
        ∙ ap (λ x. (bytes_read x, stream.left s 4)) (take_append hdr (body ++ rest) 4 four) in
      let c1 = front-contents hdr (body ++ rest) s four holds in
      let l2 = ap length c1 ∙ length-append body rest in
      let e2 : read (stream.left s 4) (length body) ≡ (bytes_read body, behind body s) =
        stream.takes (stream.left s 4) (length body) (omega (arith, l2))
        ∙ ap (λ x. (bytes_read (take (length body) x), behind body s)) c1
        ∙ ap (λ x. (bytes_read x, behind body s)) (take_append body rest (length body) refl) in
      let f1 : (length hdr == 4) ≡ true = ground (arith, four) in
      let f2 : leb type_max (u16_at hdr 0) ≡ false = ground (arith, known) in
      rw (pl2rld_client_recv, e1, f1, f2, e1) (rest-whole pc hdr body stale _ _ d long fits e2)

  -- A whole message at the front of the stream, of a length that its header states and the buffer
  -- holds, is handled, and the stream goes on behind it.
  pub recv-message :
      (pc : PClient) (t len : ℕ) (body rest stale : List ℕ) (s : S) (d : Daemon)
      → t < type_max
      → len ≡ 4 + length body
      → len ≤ buf_size
      → stream.contents s ≡ header t len ++ (body ++ rest)
      → pl2rld_client_recv read lg pc stale s d
        ≡ (handle_message read lg pc (header t len ++ body) stale d, behind body s)
  unfolding header u16_bytes
  recv-message pc t len body rest stale s d known long fits holds =
      recv-whole pc (header t len) body rest stale s d refl
        (omega (arith, header-type t len [] (omega arith)))
        (header-length t len [] (omega arith) ∙ long) (omega arith) holds

  pub behind-contents :
      (hdr body rest : List ℕ) (s : S)
      → length hdr ≡ 4
      → stream.contents s ≡ hdr ++ (body ++ rest)
      → stream.contents (behind body s) ≡ rest
  behind-contents hdr body rest s four holds =
      let c1 = front-contents hdr (body ++ rest) s four holds in
      let l2 = ap length c1 ∙ length-append body rest in
      stream.leaves (stream.left s 4) (length body) (omega (arith, l2))
      ∙ ap (drop (length body)) c1
      ∙ drop_append body rest (length body) refl
