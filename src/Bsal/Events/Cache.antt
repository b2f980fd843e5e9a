-- ===== src/Bsal/Events/Cache.antt =====
-- What a sequence of events leaves in the list of clients, and what it delivers.
use opensync_platform_rdk.Common.{
  ℕ, ◌≡◌, ◌≢◌, ◌⊎◌, inl, inr, refl, ap, ◌∙◌, true, ◌&&◌, List, [], ◌∷◌, ◌++◌, Option, none, some,
  Option-cases, ite, if◌then◌else◌, CString, str_dec, arith,
}
use opensync_platform_rdk.Common.Tree.{find, find-remove, find-adjust}
use opensync_platform_rdk.Bsal.Types.{uninitialized, Iface, ClientInfo, State, no_info}
use opensync_platform_rdk.Bsal.{has_band}
use opensync_platform_rdk.Bsal.Events.{
  Connect, HalEvent, EventData, map_disc_source, map_disc_type, refresh, bsal_client_info_update,
  translate, event_ifname, process_event,
}

abbrev or_blank : Option ClientInfo → ClientInfo
or_blank none = no_info
or_blank (some c) = c

-- What an event says of one client, from what was known of it.
unfoldable pub tell : CString → HalEvent → Option ClientInfo → Option ClientInfo
tell m (HalEvent.client_connect connect) known =
    ite (str_dec connect.client_mac m) (some (refresh connect (or_blank known))) known
tell m (HalEvent.client_disconnect mac source kind reason) known =
    if map_disc_source source && map_disc_type kind then ite (str_dec mac m) none known else known
tell m event known = known

find-append :
    (k q : CString) (c : ClientInfo) (l : List (CString × ClientInfo))
    → find str_dec k l ≡ none
    → find str_dec q (l ++ (k, c) ∷ []) ≡ ite (str_dec k q) (some c) (find str_dec q l)
unfolding find
find-append k q c [] new = refl
find-append k q c ((j, w) ∷ l) new = ground (arith, find-append k q c l)

find-update :
    (m : CString) (connect : Connect) (l : List (CString × ClientInfo))
    → find str_dec m (bsal_client_info_update connect l)
      ≡ tell m (HalEvent.client_connect connect) (find str_dec m l)
unfolding bsal_client_info_update tell
find-update m connect l = elim (Option-cases (find str_dec connect.client_mac l)) [
  | inl e ↦
      rw (e, bsal_client_info_update)
        (elim (str_dec connect.client_mac m) [
          | yes p ↦ ground (arith, find-append connect.client_mac m (refresh connect no_info) l e)
          | no p ↦ ground (arith, find-append connect.client_mac m (refresh connect no_info) l e)
        ])
  | inr (c, e) ↦
      rw (e, bsal_client_info_update)
        (elim (str_dec connect.client_mac m) [
          | yes p ↦ ground (arith, find-adjust str_dec connect.client_mac m (refresh connect) l)
          | no p ↦ ground (arith, find-adjust str_dec connect.client_mac m (refresh connect) l)
        ])
]

find-translate :
    (m : CString) (event : HalEvent) (l : List (CString × ClientInfo))
    → find str_dec m (translate event l).0 ≡ tell m event (find str_dec m l)
unfolding translate tell
find-translate m (HalEvent.client_connect connect) l = find-update m connect l
find-translate m (HalEvent.client_disconnect mac source kind reason) l =
    ground (arith, find-remove str_dec mac m l)
find-translate m (HalEvent.probe_req mac snr broadcast blocked) l = refl
find-translate m _ l = refl

-- A sequence of events, each with the index of its access point.
unfoldable pub process_events : List (ℕ × HalEvent) → State → State
process_events [] s = s
process_events ((i, event) ∷ events) s = process_events events (process_event i event s).0

unfoldable pub tell_all : CString → List (ℕ × HalEvent) → Option ClientInfo → Option ClientInfo
tell_all m [] known = known
tell_all m ((i, event) ∷ events) known = tell_all m events (tell m event known)

process_event-state :
    (ap_index : ℕ) (event : HalEvent) (s : State)
    → s.has_callback ≡ true
    → (process_event ap_index event s).0 ≡ record s { clients = (translate event s.clients).0 }
unfolding process_event
process_event-state ap_index event s on = ground arith

-- While the callback is set, whatever events come: what the list of clients holds for an address
-- depends only on what it held and on the events of that address, each of which creates,
-- refreshes or removes it, a disconnection of unknown source or type excepted.
pub process_events-find :
    (m : CString) (events : List (ℕ × HalEvent)) (s : State)
    → s.has_callback ≡ true
    → find str_dec m (process_events events s).clients
      ≡ tell_all m events (find str_dec m s.clients)
unfolding process_events tell_all
process_events-find m [] s on = refl
process_events-find m ((i, event) ∷ events) s on =
    ap (λ t. find str_dec m (process_events events t).clients) (process_event-state i event s on)
    ∙ process_events-find m events (record s { clients = (translate event s.clients).0 }) on
    ∙ ap (tell_all m events) (find-translate m event s.clients)

-- An access point that no interface in use has.
unfoldable pub Unknown : ℕ → List Iface → Type 0
Unknown ap_index [] = Unit
Unknown ap_index (i ∷ is) =
    ((has_band uninitialized i ≡ true) ⊎ (i.wifihal_cfg.ap_index ≢ ap_index)) × Unknown ap_index is

Unknown-ifname :
    (ap_index : ℕ) (is : List Iface) → Unknown ap_index is → event_ifname ap_index is ≡ []
unfolding Unknown event_ifname
Unknown-ifname ap_index [] u = refl
Unknown-ifname ap_index (i ∷ is) u = ground (arith, Unknown-ifname ap_index is u.1)

-- An event of an access point that no interface in use has is not dropped: where another event
-- would be delivered, this one is delivered with an empty interface name.
pub process_event-nameless :
    (ap_index : ℕ) (event : HalEvent) (s : State) (d : EventData)
    → s.has_callback ≡ true
    → Unknown ap_index s.ifaces
    → (translate event s.clients).1 ≡ some d
    → (process_event ap_index event s).1 ≡ some ([], d)
unfolding process_event
process_event-nameless ap_index event s d on unknown delivered =
    ground (arith, Unknown-ifname ap_index s.ifaces unknown)
