-- ===== src/Pl2rl/Daemon/Cleanup.antt =====
-- The loop at the end of the logging daemon, src/pl2rld/pl2rld.c, as it is written: while there is a
-- head of the list, remove it.
use opensync_platform_rdk.Common.{
  ℕ, zero, suc, ◌≤◌, List, [], ◌∷◌, Option, none, some, ◌≡◌, refl, ap, ◌∙◌, arith, length,
}
use opensync_platform_rdk.Pl2rl.Daemon.{
  PClient, Daemon, without, pl2rld_client_remove, cleanup_loop, pl2rld_client_cleanup,
}

-- The loop with at most so many turns, `none` if it would take more.
unfoldable pub cleanup_while : ℕ → Daemon → Option Daemon
unfolding pl2rld_client_remove
cleanup_while zero d = elim (d.clients) [ [] ↦ some d | pc ∷ rest ↦ none ]
cleanup_while (suc n) d = elim (d.clients) [
  | [] ↦ some d
  | pc ∷ rest ↦ cleanup_while n (pl2rld_client_remove pc.fd d)
]

head-first : (x : PClient) (xs : List PClient) → without x.fd (x ∷ xs) ≡ xs
unfolding without
head-first x xs = ground arith

-- One turn on a list that is known.
turn_on : ℕ → Daemon → List PClient → Option Daemon
turn_on n d [] = some d
turn_on n d (pc ∷ rest) = cleanup_while n (pl2rld_client_remove pc.fd d)

while-turn :
    (n : ℕ) (d : Daemon) {xs : List PClient}
    → d.clients ≡ xs
    → cleanup_while (suc n) d ≡ turn_on n d xs
unfolding cleanup_while turn_on
while-turn n d e = ap (turn_on n d) e

while-loop :
    (n : ℕ) (xs : List PClient) (d : Daemon)
    → d.clients ≡ xs
    → length xs ≤ n
    → cleanup_while n d ≡ some (cleanup_loop xs d)
unfolding cleanup_while cleanup_loop turn_on
while-loop zero [] d e h =
    ap (λ l. elim l as (λ x. Option Daemon) [ [] ↦ some d | pc ∷ rest ↦ none ]) e
while-loop (suc n) [] d e h = while-turn n d e
while-loop zero (x ∷ xs) d e h = ground (arith, h)
while-loop (suc n) (x ∷ xs) d e h =
    while-turn n d e
    ∙ while-loop n xs (pl2rld_client_remove x.fd d) (ap (without x.fd) e ∙ head-first x xs)
        (omega arith)

-- The loop ends after at most as many turns as there are clients, and it has then done what the
-- removal of every client, one after the other, does.
pub cleanup-ends :
    (n : ℕ) (d : Daemon) → length d.clients ≤ n → cleanup_while n d ≡ some (pl2rld_client_cleanup d)
unfolding pl2rld_client_cleanup
cleanup-ends n d h = while-loop n d.clients d refl h
