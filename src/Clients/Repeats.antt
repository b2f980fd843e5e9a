-- ===== src/Clients/Repeats.antt =====
-- A connection that the HAL reports again (clients_connection), and the length of its key id.
use opensync_platform_rdk.Common.{
  ℕ, ◌≡◌, ◌≤◌, ◌∙◌, refl, sym, ◌≢◌, true, false, [], ◌∷◌, ◌++◌, none, some, Option-cases, inl, inr,
  ◌⊎◌, if_pos, if_neg, CString, str_dec, strscpy, take, length, length-take, take_of_length-le,
  ℕ_discrete, arith, ap,
}
use mathlib.Core.List.{append_assoc}
use opensync_platform_rdk.Common.Tree.{find, find-insert_self, find-adjust_self}
use opensync_platform_rdk.Clients.Types.{Client, Update, Hal, State}
use opensync_platform_rdk.Clients.{
  clients_update, report, connection_active, connection_new, connection_moves, connection_known,
  connection_on, clients_connection,
}

module _ (hal : Hal) (index : ℕ) (mac key_id ifname : CString) where
  -- The table holds the client as connection_active leaves it.
  pub Settled : State → Type 0
  Settled s =
      (c : Client) × (find str_dec mac s.connected_clients ≡ some c)
      × (c.ap_index ≡ index)
      × (c.key_id ≡ take 63 key_id)

  active-Settled :
      (c old : Client) (s : State)
      → find str_dec mac s.connected_clients ≡ some old
      → c.ap_index ≡ index
      → Settled (connection_active hal mac c key_id ifname s)
  unfolding connection_active Settled
  active-Settled c old s found here =
      let c' = record c { key_id = take 63 key_id } in
      (c', find-adjust_self str_dec mac (λ _. c') old s.connected_clients found, here, refl)

  -- A settled client whose key id fits the field is left alone.
  Settled-quiet :
      (s : State) → length key_id ≤ 63 → Settled s → connection_on hal index mac key_id ifname s ≡ s
  unfolding connection_on connection_known Settled
  Settled-quiet s fits (c, found, here, key) =
      let same : take 64 c.key_id ≡ take 64 key_id =
        ap (take 64) (key ∙ take_of_length-le 63 key_id fits) in
      rw
        (found, connection_on, if_pos (ℕ_discrete c.ap_index index) here, if_pos (str_dec _ _) same)

  -- A settled client whose key id was cut is taken for changed.
  Settled-cut :
      (s : State)
      → 64 ≤ length key_id
      → Settled s
      → (off on : Update) × ((connection_on hal index mac key_id ifname s).updates
          ≡ s.updates ++ (off ∷ on ∷ []))
        × (off.connected ≡ false)
        × (on.connected ≡ true)
        × (on.key_id ≡ take 63 key_id)
  unfolding connection_on connection_known connection_active clients_update Settled
  Settled-cut s long (c, found, here, key) =
      let differs : take 64 c.key_id ≢ take 64 key_id = λ e. omega (
        arith,
        ap length e,
        ap length key,
        length-take 64 c.key_id,
        length-take 64 key_id,
        length-take 63 key_id,
      ) in
      let off = clients_update hal c ifname false in
      let path : connection_on hal index mac key_id ifname s
          ≡ connection_active hal mac c key_id ifname (report off s) =
        rw (
          found,
          connection_on,
          if_pos (ℕ_discrete c.ap_index index) here,
          if_neg (str_dec (take 64 c.key_id) (take 64 key_id)) differs,
        ) in
      (
        off,
        clients_update hal (record c { key_id = take 63 key_id }) ifname true,
        ap (λ (t : State). t.updates) path ∙ append_assoc s.updates _ _,
        refl,
        refl,
        refl,
      )

  new-Settled :
      (s : State)
      → length mac ≤ 17
      → find str_dec mac s.connected_clients ≡ none
      → Settled (connection_new hal index mac key_id ifname s)
  unfolding connection_new
  new-Settled s short absent =
      let client : Client = record { mac = mac; key_id = []; ap_index = index } in
      let fits : strscpy 18 mac ≡ mac = take_of_length-le 17 mac short in
      rw fits (
        active-Settled client client _
          (find-insert_self str_dec _ mac client s.connected_clients absent) refl)

  known-Settled :
      (c : Client) (s : State)
      → find str_dec mac s.connected_clients ≡ some c
      → c.ap_index ≡ index
      → (connection_known hal mac c key_id ifname s ≡ s)
        ⊎ Settled (connection_known hal mac c key_id ifname s)
  unfolding connection_known
  known-Settled c s found here = elim (str_dec (take 64 c.key_id) (take 64 key_id)) [
    | yes same ↦ inl (if_pos (str_dec (take 64 c.key_id) (take 64 key_id)) same _ _)
    | no other ↦ inr (
        rw (if_neg (str_dec (take 64 c.key_id) (take 64 key_id)) other)
          (active-Settled c c _ found here))
  ]

  moves-Settled :
      (c : Client) (s : State)
      → find str_dec mac s.connected_clients ≡ some c
      → (connection_moves hal index mac c key_id ifname s ≡ s)
        ⊎ Settled (connection_moves hal index mac c key_id ifname s)
  unfolding connection_moves
  moves-Settled c s found = elim (Option-cases (hal.get_ap_name c.ap_index)) [
    | inl e ↦ inl (rw (e, connection_moves))
    | inr (old, e) ↦
        let moved = record c { ap_index = index } in
        inr (
          rw (e, connection_moves)
            (active-Settled moved moved _
              (find-adjust_self str_dec mac (λ _. moved) c s.connected_clients found) refl))
  ]

  -- What connection_on does: nothing, or it leaves the client settled.
  connection_on-cases :
      (s : State)
      → length mac ≤ 17
      → (connection_on hal index mac key_id ifname s ≡ s)
        ⊎ Settled (connection_on hal index mac key_id ifname s)
  unfolding connection_on
  connection_on-cases s short = elim (Option-cases (find str_dec mac s.connected_clients)) [
    | inl e ↦ rw (e, connection_on) (inr (new-Settled s short e))
    | inr (c, e) ↦ elim (ℕ_discrete c.ap_index index) [
      | yes here ↦
          rw (e, connection_on, if_pos (ℕ_discrete c.ap_index index) here)
            (known-Settled c s e here)
      | no away ↦
          rw (e, connection_on, if_neg (ℕ_discrete c.ap_index index) away) (moves-Settled c s e)
    ]
  ]

  on_twice :
      (s : State)
      → length mac ≤ 17
      → length key_id ≤ 63
      → let again = connection_on hal index mac key_id ifname s in
        connection_on hal index mac key_id ifname again ≡ again
  on_twice s short fits = elim (connection_on-cases s short) [
    | inl same ↦ ap (connection_on hal index mac key_id ifname) same
    | inr settled ↦ Settled-quiet _ fits settled
  ]

-- A connection that the HAL reports twice, with an address of at most 17 bytes and a key id of at
-- most 63, is reported to the upper layer once: the second call changes nothing.
pub connection_twice :
    (hal : Hal) (index : ℕ) (mac key_id : CString) (s : State)
    → length mac ≤ 17
    → length key_id ≤ 63
    → let again = clients_connection hal index (some mac) (some key_id) s in
      clients_connection hal index (some mac) (some key_id) again ≡ again
unfolding clients_connection
connection_twice hal index mac key_id s short fits = elim (Option-cases (hal.get_ap_name index)) [
  | inl e ↦ rw (e, clients_connection) (rw (e, clients_connection))
  | inr (ifname, e) ↦
      rw (e, clients_connection)
        (rw (e, clients_connection) (on_twice hal index mac key_id ifname s short fits))
]

-- A key id of 64 bytes or more never matches its copy of 63 bytes: when the HAL reports a client
-- with it again that is known with that copy, on the same access point, which has a name, the
-- client is reported inactive and then active, with the same copy.
pub connection_cut_key :
    (hal : Hal) (index : ℕ) (mac key_id ifname : CString) (c : Client) (s : State)
    → 64 ≤ length key_id
    → hal.get_ap_name index ≡ some ifname
    → find str_dec mac s.connected_clients ≡ some c
    → c.ap_index ≡ index
    → c.key_id ≡ take 63 key_id
    → (off on : Update) × ((clients_connection hal index (some mac) (some key_id) s).updates
        ≡ s.updates ++ (off ∷ on ∷ []))
      × (off.connected ≡ false)
      × (on.connected ≡ true)
      × (on.key_id ≡ c.key_id)
unfolding clients_connection Settled
connection_cut_key hal index mac key_id ifname c s long named found here key =
    rw (named, clients_connection)
      (let (off, on, sent, a, b, k) =
          Settled-cut hal index mac key_id ifname s long (c, found, here, key) in
        (off, on, sent, a, b, k ∙ sym key))
