-- ===== src/Clients/Steps.antt =====
-- Every handler of clients.c keeps the agreement of the reports with the table.
use opensync_platform_rdk.Common.{
  ℕ, ◌≡◌, ◌≤◌, refl, sym, subst, false, List, [], ◌∷◌, Option, none, some, Option-cases, Bool-cases,
  inl, inr, if_pos, if_neg, CString, str_dec, strscpy, length, take_of_length-le, ℕ_discrete, arith,
}
use opensync_platform_rdk.Common.Tree.{
  find, remove, find-insert_self, find-insert_ne, find-adjust_self, find-adjust_ne,
}
use opensync_platform_rdk.HalQueue.{drain, drain_loop}
use opensync_platform_rdk.Clients.Types.{Client, CbEntry, Hal, State}
use opensync_platform_rdk.Clients.Reports.{
  Reported, Apart, Reported-Apart, Reported-Known, deactivate-Apart, active-Reported,
  remove-Reported,
}
use opensync_platform_rdk.Clients.{
  clients_update, report, write_client, connection_new, connection_moves, connection_known,
  connection_on, clients_connection, clients_disconnection, drop_client, client_key_id,
  device_connected, handle_entry, clients_hal_async_cb, detect_client, detect_disconnection,
  fetch_devices, clients_hal_fetch_existing, is_listed,
}

module _ (hal : Hal) where
  write-Apart :
      (k : CString) (c : Client) (s : State) → Apart hal k s → Apart hal k (write_client k c s)
  write-Apart k c s r = record {
    view = r.view;
    accepted = r.accepted;
    inactive = r.inactive;
    shows = λ m ne. rw (find-adjust_ne str_dec k m (λ _. c) _ ne) (r.shows m ne);
  }

  connection_new-Reported :
      (ap : ℕ) (mac key_id ifname : CString) (s : State)
      → length mac ≤ 17
      → hal.get_ap_name ap ≡ some ifname
      → find str_dec mac s.connected_clients ≡ none
      → Reported hal s
      → Reported hal (connection_new hal ap mac key_id ifname s)
  unfolding connection_new
  connection_new-Reported ap mac key_id ifname s short named absent r =
      let client : Client = record { mac = mac; key_id = []; ap_index = ap } in
      let same : strscpy 18 mac ≡ mac = take_of_length-le 17 mac short in
      let r' = Reported-Apart hal mac s absent r in
      rw same (
        active-Reported hal mac key_id ifname client client _
          (find-insert_self str_dec _ mac client s.connected_clients absent) refl named
          (record {
            view = r'.view;
            accepted = r'.accepted;
            inactive = r'.inactive;
            shows = λ m ne. rw (find-insert_ne str_dec _ mac m _ _ absent ne) (r'.shows m ne);
          }))

  connection_known-Reported :
      (ap : ℕ) (mac : CString) (client : Client) (key_id ifname : CString) (s : State)
      → hal.get_ap_name ap ≡ some ifname
      → client.ap_index ≡ ap
      → find str_dec mac s.connected_clients ≡ some client
      → Reported hal s
      → Reported hal (connection_known hal mac client key_id ifname s)
  unfolding connection_known
  connection_known-Reported ap mac client key_id ifname s named here found r =
      elim (str_dec (strscpy 65 client.key_id) (strscpy 65 key_id)) [
        | yes same ↦ rw (if_pos _ same) r
        | no other ↦
            let named' : hal.get_ap_name client.ap_index ≡ some ifname = rw here named in
            rw (if_neg _ other) (
              active-Reported hal mac key_id ifname client client _ found
                (Reported-Known hal mac ifname client s found named' r).mac named'
                (deactivate-Apart hal mac ifname client s found named' r))
      ]

  connection_moves-Reported :
      (ap : ℕ) (mac : CString) (client : Client) (key_id ifname : CString) (s : State)
      → hal.get_ap_name ap ≡ some ifname
      → find str_dec mac s.connected_clients ≡ some client
      → Reported hal s
      → Reported hal (connection_moves hal ap mac client key_id ifname s)
  unfolding connection_moves
  connection_moves-Reported ap mac client key_id ifname s named found r =
      let moved = record client { ap_index = ap } in
      elim (Option-cases (hal.get_ap_name client.ap_index)) [
        | inl e ↦ rw (e, connection_moves) r
        | inr (old, e) ↦
            rw (e, connection_moves)
              (active-Reported hal mac key_id ifname moved moved _
                (find-adjust_self str_dec mac (λ _. moved) client s.connected_clients found)
                (Reported-Known hal mac old client s found e r).mac named
                (write-Apart mac moved _ (deactivate-Apart hal mac old client s found e r)))
      ]

  connection_on-Reported :
      (ap : ℕ) (mac key_id ifname : CString) (s : State)
      → length mac ≤ 17
      → hal.get_ap_name ap ≡ some ifname
      → Reported hal s
      → Reported hal (connection_on hal ap mac key_id ifname s)
  unfolding connection_on
  connection_on-Reported ap mac key_id ifname s short named r =
      elim (Option-cases (find str_dec mac s.connected_clients)) [
        | inl e ↦
            rw (e, connection_on) (connection_new-Reported ap mac key_id ifname s short named e r)
        | inr (c, e) ↦ elim (ℕ_discrete c.ap_index ap) [
          | yes here ↦
              rw (e, connection_on, if_pos (ℕ_discrete c.ap_index ap) here)
                (connection_known-Reported ap mac c key_id ifname s named here e r)
          | no away ↦
              rw (e, connection_on, if_neg (ℕ_discrete c.ap_index ap) away)
                (connection_moves-Reported ap mac c key_id ifname s named e r)
        ]
      ]

  clients_connection-Reported :
      (ap : ℕ) (mac : CString) (key_id : Option CString) (s : State)
      → length mac ≤ 17
      → Reported hal s
      → Reported hal (clients_connection hal ap (some mac) key_id s)
  unfolding clients_connection
  clients_connection-Reported ap mac none s short r = r
  clients_connection-Reported ap mac (some key_id) s short r =
      elim (Option-cases (hal.get_ap_name ap)) [
        | inl e ↦ rw (e, clients_connection) r
        | inr (ifname, e) ↦
            rw (e, clients_connection) (connection_on-Reported ap mac key_id ifname s short e r)
      ]

  drop-Reported :
      (mac ifname : CString) (c : Client) (s : State)
      → find str_dec mac s.connected_clients ≡ some c
      → hal.get_ap_name c.ap_index ≡ some ifname
      → Reported hal s
      → Reported hal (drop_client mac (report (clients_update hal c ifname false) s, some c))
  unfolding drop_client
  drop-Reported mac ifname c s found named r =
      let s' = report (clients_update hal c ifname false) s in
      subst
        (λ m.
          Reported hal (record s' { connected_clients = remove str_dec m s'.connected_clients }))
        (sym (Reported-Known hal mac ifname c s found named r).mac)
        (remove-Reported hal mac s' (deactivate-Apart hal mac ifname c s found named r))

  drop_none-Reported :
      (mac : CString) (s : State) → Reported hal s → Reported hal (drop_client mac (s, none))
  unfolding drop_client
  drop_none-Reported mac s r = r

  pub disconnection-Reported :
      (ap : ℕ) (mac : CString) (s : State)
      → Reported hal s
      → Reported hal (drop_client mac (clients_disconnection hal ap (some mac) s))
  unfolding clients_disconnection
  disconnection-Reported ap mac s r = elim (Option-cases (hal.get_ap_name ap)) [
    | inl e ↦ rw (e, clients_disconnection) (drop_none-Reported mac s r)
    | inr (ifname, e) ↦ elim (Option-cases (find str_dec mac s.connected_clients)) [
      | inl f ↦ rw (e, f, clients_disconnection) (drop_none-Reported mac s r)
      | inr (c, f) ↦ elim (ℕ_discrete c.ap_index ap) [
        | yes here ↦
            rw (e, f, clients_disconnection, if_pos (ℕ_discrete c.ap_index ap) here)
              (drop-Reported mac ifname c s f (rw here e) r)
        | no away ↦
            rw (e, f, clients_disconnection, if_neg (ℕ_discrete c.ap_index ap) away)
              (drop_none-Reported mac s r)
      ]
    ]
  ]

  device_connected-Reported :
      (ap : ℕ) (address mac : CString) (s : State)
      → length mac ≤ 17
      → Reported hal s
      → Reported hal (device_connected hal ap address mac s)
  unfolding device_connected
  device_connected-Reported ap address mac s short r =
      elim (Option-cases (client_key_id hal ap address)) [
        | inl e ↦ rw (e, device_connected) r
        | inr (key, e) ↦
            rw (e, device_connected) (clients_connection-Reported ap mac (some key) s short r)
      ]

  pub detect_client-Reported :
      (ap : ℕ) (ds : List CString) (c : Client) (s : State)
      → Reported hal s
      → Reported hal (detect_client hal ap ds c s)
  unfolding detect_client
  detect_client-Reported ap ds c s r = elim (ℕ_discrete c.ap_index ap) [
    | no away ↦ rw (if_neg (ℕ_discrete c.ap_index ap) away) r
    | yes here ↦ elim (Bool-cases (is_listed hal c.mac ds)) [
      | inl listed ↦ rw (if_pos (ℕ_discrete c.ap_index ap) here, listed) r
      | inr gone ↦
          rw (if_pos (ℕ_discrete c.ap_index ap) here, gone) (disconnection-Reported ap c.mac s r)
    ]
  ]

  detect_disconnection-Reported :
      (ap : ℕ) (ds : List CString) (l : List (CString × Client)) (s : State)
      → Reported hal s
      → Reported hal (detect_disconnection hal ap ds l s)
  unfolding detect_disconnection
  detect_disconnection-Reported ap ds [] s r = r
  detect_disconnection-Reported ap ds ((k, c) ∷ l) s r =
      detect_disconnection-Reported ap ds l _ (detect_client-Reported ap ds c s r)

  -- The addresses print in at most 17 bytes.
  module _ (short : (d : CString) → length (hal.format_mac d) ≤ 17) where
    pub printed : (d : CString) → strscpy 20 (hal.format_mac d) ≡ hal.format_mac d
    printed d = take_of_length-le 19 _ (omega (arith, short d))

    handle_entry-Reported :
        (e : CbEntry) (s : State) → Reported hal s → Reported hal (handle_entry hal e s)
    unfolding handle_entry
    handle_entry-Reported e s r = elim (Option-cases (hal.get_ap_name e.ssid_index)) [
      | inl f ↦ rw (f, handle_entry) r
      | inr (ifname, f) ↦ elim (Bool-cases e.cli_active) [
        | inl on ↦
            rw (f, handle_entry, on, printed e.cli_mac_address)
              (device_connected-Reported e.ssid_index e.cli_mac_address _ s
                (short e.cli_mac_address) r)
        | inr off ↦
            rw (f, handle_entry, off, printed e.cli_mac_address)
              (disconnection-Reported e.ssid_index (hal.format_mac e.cli_mac_address) s r)
      ]
    ]

    drain-Reported :
        (es : List CbEntry) (len : ℕ) (s : State)
        → Reported hal s
        → Reported hal (drain_loop (handle_entry hal) es len s).1
    unfolding drain_loop
    drain-Reported [] len s r = r
    drain-Reported (e ∷ es) len s r = drain-Reported es _ _ (handle_entry-Reported e s r)

    pub async_cb-Reported : (s : State) → Reported hal s → Reported hal (clients_hal_async_cb hal s)
    unfolding clients_hal_async_cb drain
    async_cb-Reported s r =
        let r' = drain-Reported s.hal_cb_queue.entries s.hal_cb_queue.len s r in
        record { view = r'.view; accepted = r'.accepted; shows = r'.shows }

    pub fetch_devices-Reported :
        (ap : ℕ) (ds : List CString) (s : State)
        → Reported hal s
        → Reported hal (fetch_devices hal ap ds s)
    unfolding fetch_devices
    fetch_devices-Reported ap [] s r = r
    fetch_devices-Reported ap (d ∷ ds) s r =
        fetch_devices-Reported ap ds _ (device_connected-Reported ap d _ s (rw printed (short d)) r)

    pub fetch_existing-Reported :
        (ap : ℕ) (s : State) → Reported hal s → Reported hal (clients_hal_fetch_existing hal ap s).0
    unfolding clients_hal_fetch_existing
    fetch_existing-Reported ap s r = elim (Option-cases (hal.get_ap_name ap)) [
      | inl e ↦ rw (e, clients_hal_fetch_existing) r
      | inr (ifname, e) ↦ elim (Option-cases (hal.get_associated_devices ap)) [
        | inl f ↦ rw (e, f, clients_hal_fetch_existing) r
        | inr (ds, f) ↦
            rw (e, f, clients_hal_fetch_existing)
              (detect_disconnection-Reported ap ds (fetch_devices hal ap ds s).connected_clients _
                (fetch_devices-Reported ap ds s r))
      ]
    ]
