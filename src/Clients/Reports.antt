-- ===== src/Clients/Reports.antt =====
-- The reports of clients.c tell the upper layer its table: every operation keeps the agreement.
use opensync_platform_rdk.Common.{
  ◌≡◌, ◌∙◌, refl, ◌≢◌, true, false, none, some, if_pos, if_neg, CString, str_dec, strscpy, arith,
}
use opensync_platform_rdk.Common.Tree.{
  find, remove, find-adjust_self, find-adjust_ne, find-remove_self, find-remove_ne, by_key,
}
use opensync_platform_rdk.Clients.Types.{Client, Hal, State, max_buffer}
use opensync_platform_rdk.Clients.Views.{
  View, empty_view, put, accept-put_inactive, accept-put_active, observe, observe-append, Shows,
}
use opensync_platform_rdk.Clients.{clients_update, report, connection_active}

module _ (hal : Hal) where
  -- The calls of op_client so far are accepted, and what they tell is the table.
  pub record Reported (s : State) : Type 0 where
    pub view : View
    pub accepted : observe empty_view s.updates ≡ some view
    pub shows : (mac : CString) → Shows hal mac (view mac) (find str_dec mac s.connected_clients)

  -- The same but for the address `k`, which the calls leave inactive.
  pub record Apart (k : CString) (s : State) : Type 0 where
    pub view : View
    pub accepted : observe empty_view s.updates ≡ some view
    pub inactive : view k ≡ none
    pub shows :
        (mac : CString) → k ≢ mac → Shows hal mac (view mac) (find str_dec mac s.connected_clients)

  pub Reported-Apart :
      (k : CString) (s : State) → find str_dec k s.connected_clients ≡ none → Reported s → Apart k s
  Reported-Apart k s absent r = record {
    view = r.view;
    accepted = r.accepted;
    inactive = ground (arith, r.shows k);
    shows = λ mac ne. r.shows mac;
  }

  -- What the agreement says of a client of the table.
  pub record Known (v : View) (k ifname : CString) (c : Client) : Type 0 where
    pub mac : c.mac ≡ k
    pub entry : v k ≡ some (hal.unmap_ifname ifname, c.key_id)

  pub Reported-Known :
      (k ifname : CString) (c : Client) (s : State)
      → find str_dec k s.connected_clients ≡ some c
      → hal.get_ap_name c.ap_index ≡ some ifname
      → (r : Reported s) → Known r.view k ifname c
  Reported-Known k ifname c s found named r = ground (arith, r.shows k)

  -- A client that is reported inactive on the interface of its access point.
  pub deactivate-Apart :
      (k ifname : CString) (c : Client) (s : State)
      → find str_dec k s.connected_clients ≡ some c
      → hal.get_ap_name c.ap_index ≡ some ifname
      → Reported s
      → Apart k (report (clients_update hal c ifname false) s)
  unfolding clients_update
  deactivate-Apart k ifname c s found named r =
      let known = Reported-Known k ifname c s found named r in
      let u = clients_update hal c ifname false in
      record {
        view = put r.view k none;
        accepted =
            observe-append empty_view r.view s.updates u r.accepted
            ∙ accept-put_inactive r.view u k (hal.unmap_ifname ifname) c.key_id refl known.mac refl
                known.entry;
        inactive = if_pos (str_dec k k) refl _ _;
        shows = λ mac ne. rw (if_neg (str_dec k mac) ne _ _) (r.shows mac);
      }

  -- The tail of clients_connection, for a client whose access point has the name.
  pub active-Reported :
      (k key_id ifname : CString) (c old : Client) (s : State)
      → find str_dec k s.connected_clients ≡ some old
      → c.mac ≡ k
      → hal.get_ap_name c.ap_index ≡ some ifname
      → Apart k s
      → Reported (connection_active hal k c key_id ifname s)
  unfolding connection_active clients_update
  active-Reported k key_id ifname c old s found mac named r =
      let c' = record c { key_id = strscpy max_buffer key_id } in
      let u = clients_update hal c' ifname true in
      record {
        view = put r.view k (some (u.ifname, u.key_id));
        accepted =
            observe-append empty_view r.view s.updates u r.accepted
            ∙ accept-put_active r.view u k refl mac r.inactive;
        shows =
            by_key str_dec _ k
              (rw
                (
                  find-adjust_self str_dec k (λ _. c') old s.connected_clients found,
                  if_pos (str_dec k k) refl,
                )
                (mac, ifname, named, refl, refl))
              (λ m ne.
                rw (find-adjust_ne str_dec k m (λ _. c') _ ne, if_neg (str_dec k m) ne)
                  (r.shows m ne));
      }

  pub remove-Reported :
      (k : CString) (s : State)
      → Apart k s
      → Reported (record s { connected_clients = remove str_dec k s.connected_clients })
  remove-Reported k s r = record {
    view = r.view;
    accepted = r.accepted;
    shows =
        by_key str_dec _ k (rw (r.inactive, find-remove_self str_dec k s.connected_clients) tt)
          (λ m ne. rw (find-remove_ne str_dec k m _ ne) (r.shows m ne));
  }
