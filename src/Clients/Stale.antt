-- ===== src/Clients/Stale.antt =====
-- The search for clients that left without a callback (detect_disconnection).
use opensync_platform_rdk.Common.{
  ℕ, ◌≡◌, refl, ◌⊎◌, inl, inr, true, false, List, [], ◌∷◌, Option, none, some, Option-cases,
  Bool-cases, ite, if◌then◌else◌, CString, str_dec, ℕ_discrete, arith,
}
use opensync_platform_rdk.Common.Tree.{find, find-remove}
use opensync_platform_rdk.Clients.Types.{Client, Hal, State}
use opensync_platform_rdk.Clients.Reports.{Reported}
use opensync_platform_rdk.Clients.Steps.{detect_client-Reported}
use opensync_platform_rdk.Clients.{
  clients_disconnection, drop_client, is_listed, detect_client, detect_disconnection,
}

module _ (hal : Hal) (ap : ℕ) (devices : List CString) where
  -- What is left of an entry of the table: a client of this access point stays if it is listed.
  unfoldable pub survivor : Option Client → Option Client
  survivor none = none
  survivor (some c) =
      ite (ℕ_discrete c.ap_index ap) (if is_listed hal c.mac devices then some c else none) (some c)

  pub found_mac :
      (m : CString) (c : Client) (s : State)
      → Reported hal s
      → find str_dec m s.connected_clients ≡ some c
      → c.mac ≡ m
  found_mac m c s r e = ground (arith, r.shows m)

  -- The table after clients_disconnection and the removal by its caller.
  disconnected :
      (k m ifname : CString) (s : State)
      → hal.get_ap_name ap ≡ some ifname
      → Reported hal s
      → is_listed hal k devices ≡ false
      → find str_dec m (drop_client k (clients_disconnection hal ap (some k) s)).connected_clients
        ≡ ite
            (str_dec k m)
            (survivor (find str_dec m s.connected_clients))
            (find str_dec m s.connected_clients)
  unfolding clients_disconnection drop_client survivor
  disconnected k m ifname s named r gone =
      elim (Option-cases (find str_dec k s.connected_clients)) [
        | inl e ↦ ground arith
        | inr (c, e) ↦
            ground (arith, found_mac k c s r e, find-remove str_dec c.mac m s.connected_clients)
      ]

  survivor_listed :
      (m : CString) (s : State)
      → Reported hal s
      → is_listed hal m devices ≡ true
      → survivor (find str_dec m s.connected_clients) ≡ find str_dec m s.connected_clients
  unfolding survivor
  survivor_listed m s r listed = elim (Option-cases (find str_dec m s.connected_clients)) [
    | inl e ↦ ground arith
    | inr (c, e) ↦ ground (arith, found_mac m c s r e)
  ]

  survivor-survivor : (o : Option Client) → survivor (survivor o) ≡ survivor o
  unfolding survivor
  survivor-survivor none = refl
  survivor-survivor (some c) = ground arith

  detect_client-survivor :
      (c : Client) (m ifname : CString) (s : State)
      → hal.get_ap_name ap ≡ some ifname
      → Reported hal s
      → find str_dec m (detect_client hal ap devices c s).connected_clients
        ≡ ite
            (str_dec c.mac m)
            (ite
              (ℕ_discrete c.ap_index ap)
              (survivor (find str_dec m s.connected_clients))
              (find str_dec m s.connected_clients))
            (find str_dec m s.connected_clients)
  unfolding detect_client
  detect_client-survivor c m ifname s named r = elim (Bool-cases (is_listed hal c.mac devices)) [
    | inl listed ↦ ground (arith, survivor_listed c.mac s r listed)
    | inr gone ↦ ground (arith, disconnected c.mac m ifname s named r gone)
  ]

  -- Each entry of the table is either untouched or what survives of it.
  detect-either :
      (l : List (CString × Client)) (m ifname : CString) (s : State)
      → hal.get_ap_name ap ≡ some ifname
      → Reported hal s
      → let after = find str_dec m (detect_disconnection hal ap devices l s).connected_clients in
        let before = find str_dec m s.connected_clients in
        (after ≡ before) ⊎ (after ≡ survivor before)
  unfolding detect_disconnection
  detect-either [] m ifname s named r = inl refl
  detect-either ((k, c) ∷ l) m ifname s named r = ground (
    arith,
    detect-either l m ifname (detect_client hal ap devices c s) named
        (detect_client-Reported hal ap devices c s r),
    detect_client-survivor c m ifname s named r,
    survivor-survivor (find str_dec m s.connected_clients),
  )

  -- An entry of this access point that the iteration visits is replaced by what survives of it.
  detect_visited :
      (l : List (CString × Client)) (m ifname : CString) (c : Client) (s : State)
      → hal.get_ap_name ap ≡ some ifname
      → Reported hal s
      → find str_dec m l ≡ some c
      → c.mac ≡ m
      → c.ap_index ≡ ap
      → find str_dec m (detect_disconnection hal ap devices l s).connected_clients
        ≡ survivor (find str_dec m s.connected_clients)
  unfolding detect_disconnection find
  detect_visited [] m ifname c s named r e same here = cc
  detect_visited ((k, d) ∷ l) m ifname c s named r e same here =
      let s' = detect_client hal ap devices d s in
      let r' = detect_client-Reported hal ap devices d s r in
      elim (str_dec k m) [
        | yes top ↦ ground (
          arith,
          detect-either l m ifname s' named r',
          detect_client-survivor d m ifname s named r,
          survivor-survivor (find str_dec m s.connected_clients),
        )
        | no other ↦ ground (
          arith,
          detect_visited l m ifname c s' named r' (ground arith) same here,
          detect_client-survivor d m ifname s named r,
          survivor-survivor (find str_dec m s.connected_clients),
        )
      ]

  -- After a search with the HAL's list of devices of an access point, a client is in the table
  -- exactly as before, except that a client of that access point which the list does not name
  -- is gone.
  pub detect_disconnection-survivor :
      (m ifname : CString) (s : State)
      → hal.get_ap_name ap ≡ some ifname
      → Reported hal s
      → find str_dec m (detect_disconnection hal ap devices s.connected_clients s).connected_clients
        ≡ survivor (find str_dec m s.connected_clients)
  unfolding survivor
  detect_disconnection-survivor m ifname s named r =
      elim (Option-cases (find str_dec m s.connected_clients)) [
        | inl e ↦ ground (arith, detect-either s.connected_clients m ifname s named r)
        | inr (c, e) ↦ elim (ℕ_discrete c.ap_index ap) [
          | yes here ↦
              detect_visited s.connected_clients m ifname c s named r e (found_mac m c s r e) here
          | no away ↦ ground (arith, detect-either s.connected_clients m ifname s named r)
        ]
      ]
