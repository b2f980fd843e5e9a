-- ===== src/Bsal/Tests.antt =====
-- Tests of the band steering layer, and its theorems at concrete inputs.
use opensync_platform_rdk.Common.{
  ℕ, ◌-◌, ◌*◌, ◌^◌, ◌≤◌, ◌<◌, ◌≡◌, ◌≢◌, ◌⊎◌, inr, refl, true, false, List, [], ◌∷◌, Option, none,
  some, ite, if◌then◌else◌, ◌==◌, bytes, replicate, CString, str_dec, arith,
}
use opensync_platform_rdk.Common.Tree.{find}
use opensync_platform_rdk.Common.Tree.{insert}
use opensync_platform_rdk.Bsal.Neighbors.{
  target_bsal_rrm_remove_neighbor, target_bsal_rrm_set_neighbor, or_restore,
  bsal_send_update_neighbor_list, write_neighbor, or_dangle,
}
use opensync_platform_rdk.Bsal.Types.{
  Band, uninitialized, band_24g, band_5g, Band-discrete, RadioBand, IfConfig, Iface, ClientConfig,
  NeighInfo, neighbor_reports, Hal, State, no_config, no_iface, no_info, no_rates, no_rrm,
}
use opensync_platform_rdk.Bsal.{
  group_get_iface_by_name, group_add_iface, write_slot, create_wifihal_ap_config_list,
  target_bsal_init, target_bsal_cleanup, registered,
}
use opensync_platform_rdk.Bsal.Group.{Sized, Operation, operate_all, operate_all-Sized}
use opensync_platform_rdk.Bsal.Group.Copies.{create_wifihal_ap_config_list-last, group_add-lookup}
use opensync_platform_rdk.Bsal.Clients.{init-cleanup}
use opensync_platform_rdk.Bsal.Neighbors.{key_dec}
use opensync_platform_rdk.Bsal.Neighbors.Keys.{reports_of, report_for}
use opensync_platform_rdk.Bsal.Neighbors.Synced.{Synced}
use opensync_platform_rdk.Bsal.Neighbors.Changes.{
  Change, change, changes, AllTame, Tame, changes-Synced, refused_update,
}
use opensync_platform_rdk.Bsal.Events.{
  Connect, HalEvent, EventData, Source, Kind, translate, process_event,
}
use opensync_platform_rdk.Bsal.Events.Cache.{
  process_events, tell_all, process_events-find, Unknown, process_event-nameless,
}
use opensync_platform_rdk.Bsal.Rates.{
  parse_elements, set_client_legacy, get_ht_mcs_max, get_vht_nss_max, get_vht_mcs_max, ht_rates,
  ht_loop, vht_nss_loop, vht_mcs_loop,
}
use opensync_platform_rdk.Bsal.Rates.Streams.{pair, rate, get_ht_mcs_max-highest, vht_map_decoded}
use opensync_platform_rdk.Bsal.Rates.Elements.{encode, walked, Bounded}
use opensync_platform_rdk.Bsal.Info.{read_assoc_ies, behind}
use opensync_platform_rdk.Bsal.Info.Request.{read_assoc_ies-Bounded, read_assoc_ies-encode}

abbrev map : CString → Option ℕ
map n = ite (str_dec n (bytes "wl0")) (some 0) (ite (str_dec n (bytes "wl1")) (some 1) none)

-- A power element, of which the code reads the second byte, and the extended capabilities.
abbrev elements : List (ℕ × CString)
elements = (33, 2 ∷ 20 ∷ []) ∷ (127, 0 ∷ 0 ∷ 8 ∷ 0 ∷ []) ∷ []

abbrev hal : Hal
hal = record {
  ifname_to_idx = map;
  ssid_radio_index = λ i. some i;
  radio_band = λ r. some (if r == 0 then RadioBand.freq_2_4 else RadioBand.freq_5);
  num_radios = some 2;
  event_register = true;
  mgmt_frame_support = true;
  mgmt_frame_register = true;
  associated_devices = λ i. some [];
  assoc_req_ies = λ i m. some (33 ∷ 2 ∷ 2 ∷ 20 ∷ 127 ∷ 4 ∷ 0 ∷ 0 ∷ 8 ∷ 0 ∷ []);
  has_assoc_req_ies = true;
  accepts = λ c. true;
}

abbrev boot : State
boot = record {
  has_callback = false;
  group_index = 0;
  ifaces = [];
  freed = false;
  clients = [];
  neighbors = [];
  dangling = false;
  calls = [];
}

abbrev if_config : CString → IfConfig
if_config n = record {
  ifname = n;
  chan_util_check_sec = 5;
  chan_util_avg_count = 6;
  inact_check_sec = 7;
  inact_tmout_sec_normal = 8;
}

abbrev iface : Band → CString → ℕ → Iface
iface b n i = record {
  band = b;
  bsal_cfg = if_config n;
  wifihal_cfg = record {
    ap_index = i;
    util_check_interval_sec = 5;
    util_avg_count = 6;
    inact_check_interval_sec = 7;
    inact_check_threshold_sec = 8;
  };
}

abbrev wl0 : Iface
wl0 = iface band_24g (bytes "wl0") 0

abbrev wl1 : Iface
wl1 = iface band_5g (bytes "wl1") 1

abbrev up : State
up = record boot { has_callback = true; ifaces = wl0 ∷ wl1 ∷ [] }

abbrev operations : List Operation
operations =
    Operation.adds hal uninitialized wl0 (if_config (bytes "wl0"))
    ∷ Operation.adds hal uninitialized wl1 (if_config (bytes "wl1"))
    ∷ Operation.removes hal uninitialized (if_config (bytes "wl0"))
    ∷ []

empty_slots : Sized 2 (record boot { ifaces = no_iface ∷ no_iface ∷ [] })
empty_slots = record { slots = refl; calls = tt }

operate_all-Sized_example :
    Sized 2 (operate_all operations (record boot { ifaces = no_iface ∷ no_iface ∷ [] }))
operate_all-Sized_example =
    operate_all-Sized 2 operations (record boot { ifaces = no_iface ∷ no_iface ∷ [] }) empty_slots

create_wifihal_ap_config_list-last_example :
    create_wifihal_ap_config_list (wl0 ∷ wl1 ∷ []) ≡ wl1.wifihal_cfg ∷ no_config ∷ []
create_wifihal_ap_config_list-last_example = create_wifihal_ap_config_list-last wl0 (wl1 ∷ [])

-- The copied stack memory reads as no interface: the one just added is not there.
group_add-lookup_example : group_get_iface_by_name (bytes "wl0") (no_iface ∷ wl1 ∷ []) ≡ none
unfolding Band-discrete group_add_iface group_get_iface_by_name write_slot str_dec
group_add-lookup_example =
    group_add-lookup no_iface wl0 (no_iface ∷ wl1 ∷ []) (no_iface ∷ wl1 ∷ []) refl

abbrev config : ClientConfig
config = record {
  rssi_probe_hwm = 0;
  rssi_probe_lwm = 0;
  rssi_auth_hwm = 0;
  rssi_auth_lwm = 0;
  rssi_inact_xing = 1;
  rssi_high_xing = 2;
  rssi_low_xing = 3;
  auth_reject_reason = 4;
}

abbrev sta : CString
sta = 2 ∷ 0 ∷ 0 ∷ 0 ∷ 0 ∷ 1 ∷ []

init-cleanup_example :
    let t = (target_bsal_init true hal boot).0 in
    let u = (target_bsal_init true hal (target_bsal_cleanup t).0) in
    (target_bsal_init true hal t ≡ (t, false))
    × (u.0.ifaces ≡ replicate 2 no_iface)
    × (u.0.freed ≡ false)
    × (u.1 ≡ registered hal)
init-cleanup_example = init-cleanup true hal hal 2 boot refl refl

abbrev one_neighbor : ℕ → NeighInfo
one_neighbor channel = record {
  bssid = sta;
  bssid_info = 1;
  op_class = 2;
  channel = channel;
  phy_type = 3;
}

map-one_name : (a b : CString) (i : ℕ) → map a ≡ some i → map b ≡ some i → a ≡ b
map-one_name a b i p q = ground arith

boot-Synced : Synced 17 map boot
unfolding reports_of report_for find
boot-Synced = record { keyed = tt; matches = λ n b i named fits. refl }

abbrev neighbor_changes : List Change
neighbor_changes =
    Change.sets (λ c. true) (bytes "wl0") (one_neighbor 6)
    ∷ Change.removes (λ c. true) (bytes "wl0") (one_neighbor 6)
    ∷ []

changes-Synced_example : Synced 17 map (changes 17 map hal neighbor_changes boot)
unfolding AllTame Tame find change target_bsal_rrm_remove_neighbor target_bsal_rrm_set_neighbor
    or_restore bsal_send_update_neighbor_list str_dec write_neighbor insert key_dec or_dangle
changes-Synced_example =
    changes-Synced 17 map map-one_name hal neighbor_changes boot
      ((omega arith, inr refl), ((omega arith, refl), tt)) boot-Synced

abbrev with_one : State
with_one = record boot {
  neighbors = ((sta, bytes "wl0"), one_neighbor 6) ∷ [];
  calls = (neighbor_reports 0 (one_neighbor 6 ∷ []), true) ∷ [];
}

with_one-Synced : Synced 17 map with_one
unfolding reports_of report_for find
with_one-Synced = record { keyed = (refl, tt); matches = λ n b i named fits. ground arith }

refused_update_example :
    let t =
      (change 17 map hal (Change.sets (λ c. false) (bytes "wl0") (one_neighbor 11)) with_one).0 in
    (find key_dec (sta, bytes "wl0") t.neighbors ≡ none)
    × (report_for sta (reports_of 0 t.calls) ≡ some (one_neighbor 6))
unfolding find key_dec str_dec
refused_update_example =
    refused_update 17 map map-one_name hal (bytes "wl0") (one_neighbor 11) (one_neighbor 6) with_one
      0 refl (omega arith) refl with_one-Synced

abbrev connect : Connect
connect = record {
  client_mac = sta;
  is_btm_supported = true;
  is_rrm_supported = false;
  bands_cap = RadioBand.freq_5;
  datarate_info = no_rates;
  rrm_caps = no_rrm;
}

abbrev events : List (ℕ × HalEvent)
events =
    (1, HalEvent.client_connect connect)
    ∷ (1, HalEvent.client_disconnect sta Source.local Kind.deauth 3)
    ∷ []

process_events-find_example :
    find str_dec sta (process_events events up).clients
    ≡ tell_all sta events (find str_dec sta up.clients)
process_events-find_example = process_events-find sta events up refl

process_event-nameless_example :
    (process_event 7 (HalEvent.chan_utilization 40) up).1 ≡ some ([], EventData.chan_utilization 40)
unfolding Unknown translate
process_event-nameless_example =
    process_event-nameless 7 (HalEvent.chan_utilization 40) up (EventData.chan_utilization 40) refl
      (inr (λ e. omega arith), (inr (λ e. omega arith), tt)) refl

get_ht_mcs_max-highest_example :
    (2 ^ get_ht_mcs_max 65535 ≤ 65535) × (65535 < 2 * 2 ^ get_ht_mcs_max 65535)
get_ht_mcs_max-highest_example = get_ht_mcs_max-highest 65535 (omega arith) (omega arith)

vht_map_decoded_example :
    ((get_vht_nss_max 65530 ≤ 8)
      × ((k : ℕ) → k < 8 → get_vht_nss_max 65530 ≤ k → pair k 65530 ≡ 3)
      × ((get_vht_nss_max 65530 ≡ 0) ⊎ (pair (get_vht_nss_max 65530 - 1) 65530 ≢ 3)))
    × ((k : ℕ) → k < 8 → rate (pair k 65530) ≤ get_vht_mcs_max 65530)
    × ((get_vht_mcs_max 65530 ≡ 0)
        ⊎ ((k : ℕ) × (k < 8) × (get_vht_mcs_max 65530 ≡ rate (pair k 65530))))
vht_map_decoded_example = vht_map_decoded 65530

-- Two streams of the rates up to 9.
two_streams : (get_vht_nss_max 65530 ≡ 2) × (get_vht_mcs_max 65530 ≡ 9)
unfolding get_vht_nss_max get_vht_mcs_max vht_nss_loop vht_mcs_loop
two_streams = (refl, refl)

read_assoc_ies-Bounded_example :
    Bounded (read_assoc_ies 1024 (b'x' ∷ []) hal 0 sta no_info).1.datarate_info
unfolding read_assoc_ies
read_assoc_ies-Bounded_example = read_assoc_ies-Bounded 1024 (b'x' ∷ []) hal 0 sta no_info refl

read_assoc_ies-encode_example : read_assoc_ies 1024 (b'x' ∷ []) hal 0 sta no_info ≡ (
  true,
  parse_elements
      (walked elements (behind (b'x' ∷ []) (encode elements)))
      (set_client_legacy (record no_info { assoc_ies = encode elements })),
)
unfolding encode
read_assoc_ies-encode_example =
    read_assoc_ies-encode 1024 (b'x' ∷ []) hal 0 sta no_info elements refl (omega arith)

-- HT rates after VHT rates lower the highest rate, from 9 to 7.
rates_lowered : (ht_rates 0 65535 (record no_rates { max_mcs = 9; max_streams = 2 })).max_mcs ≡ 7
unfolding ht_rates get_ht_mcs_max ht_loop
rates_lowered = refl
