-- ===== src/Clients/Tests.antt =====
-- Tests of clients.c, and its theorems at concrete inputs.
use opensync_platform_rdk.Common.{
  ◌≡◌, ◌≤◌, refl, true, false, [], ◌∷◌, ◌++◌, List, map, none, some, CString, str_dec, length,
  bytes, ◌==◌, if◌then◌else◌, arith, ℕ_discrete, replicate, str_lt,
}
use opensync_platform_rdk.Common.Tree.{find, insert, remove, adjust}
use opensync_platform_rdk.HalQueue.{push, wake, drain, start}
use opensync_platform_rdk.Clients.Fetched.{Outcome, fetch_existing-Lists}
use opensync_platform_rdk.Clients.Types.{Client, Update, Hal, State}
use opensync_platform_rdk.Clients.Reports.{Reported}
use opensync_platform_rdk.Clients.Repeats.{connection_twice, connection_cut_key}
use opensync_platform_rdk.Clients.Runs.{
  Event, associated, wakes, turn, fetch, run, step, blank, run-Reported,
}
use opensync_platform_rdk.Clients.{
  clients_connection, clients_hal_init, clients_hal_fetch_existing, clients_hal_assocdev_cb,
  clients_hal_async_cb,
}

-- Two access points; an address prints as 17 times its first byte.
abbrev print : CString → CString
print [] = replicate 17 b'0'
print (b ∷ bs) = replicate 17 b

abbrev hal : Hal
hal = record {
  get_ap_name =
      λ i. if i == 0 then some (bytes "wl0") else if i == 1 then some (bytes "wl1") else none;
  get_ap_security_mode = λ i. some (bytes "WPA2-Personal");
  get_multi_psk_client_key = λ i m. none;
  get_associated_devices = λ i. some ((b'b' ∷ []) ∷ []);
  format_mac = print;
  unmap_ifname = λ n. n;
  cached_key_id = λ i. bytes "key-1";
  multi_psk_support = false;
}

print-short : (d : CString) → length (hal.format_mac d) ≤ 17
print-short [] = omega arith
print-short (b ∷ bs) = omega arith

abbrev history : List Event
history =
    associated 0 (b'a' ∷ []) true
    ∷ wakes
    ∷ turn
    ∷ associated 1 (b'a' ∷ []) true
    ∷ associated 1 (b'b' ∷ []) true
    ∷ wakes
    ∷ turn
    ∷ fetch 1
    ∷ []

run-Reported_example : Reported hal (run hal history (clients_hal_init true blank).0)
run-Reported_example = run-Reported hal print-short history

-- The client of address a moved, and left without a callback; the one of address b stays.
stale_client :
    map
      (λ (e : CString × Client). e.0)
      (run hal history (clients_hal_init true blank).0).connected_clients
    ≡ replicate 17 b'b' ∷ []
unfolding run step clients_hal_init clients_hal_assocdev_cb clients_hal_async_cb
    clients_hal_fetch_existing push wake drain start find insert remove adjust str_dec str_lt
    ℕ_discrete
stale_client = refl

print-exact : (d : CString) → length (hal.format_mac d) ≡ 17
print-exact [] = refl
print-exact (b ∷ bs) = refl

fetch_existing-Lists_example :
    let s = (clients_hal_init true blank).0 in
    let m : CString = replicate 17 b'b' in
    let (t, ok) = clients_hal_fetch_existing hal 1 s in
    (ok ≡ true)
    × Outcome hal 1 m
        ((b'b' ∷ []) ∷ [])
        (find str_dec m s.connected_clients)
        (find str_dec m t.connected_clients)
unfolding run
fetch_existing-Lists_example =
    fetch_existing-Lists hal print-exact 1 (replicate 17 b'b') (bytes "wl1") ((b'b' ∷ []) ∷ []) _
      refl refl (run-Reported hal print-short [])

connection_twice_example :
    let again = clients_connection hal 0 (some (bytes "a")) (some (bytes "key")) blank in
    clients_connection hal 0 (some (bytes "a")) (some (bytes "key")) again ≡ again
connection_twice_example =
    connection_twice hal 0 (bytes "a") (bytes "key") blank (omega arith) (omega arith)

abbrev cut : Client
cut = record { mac = bytes "a"; key_id = replicate 63 b'k'; ap_index = 0 }

abbrev with_cut : State
with_cut = record blank { connected_clients = (bytes "a", cut) ∷ [] }

connection_cut_key_example :
    (off on : Update) × ((clients_connection hal 0
        (some (bytes "a"))
        (some (replicate 64 b'k'))
        with_cut).updates
      ≡ [] ++ (off ∷ on ∷ []))
    × (off.connected ≡ false)
    × (on.connected ≡ true)
    × (on.key_id ≡ cut.key_id)
unfolding find str_dec
connection_cut_key_example =
    connection_cut_key hal 0 (bytes "a") (replicate 64 b'k') (bytes "wl0") cut with_cut
      (omega arith) refl refl refl refl
