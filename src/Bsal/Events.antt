-- ===== src/Bsal/Events.antt =====
-- The events of the HAL: process_event of bsal.c, and the cache of what it says of the clients.
pub mod Cache
use opensync_platform_rdk.Common.{
  ℕ, Bool, true, false, not, ◌&&◌, List, [], ◌∷◌, ◌++◌, Option, none, some, ite, if◌then◌else◌,
  ◌==◌, leb, CString, str_dec,
}
use opensync_platform_rdk.Common.Tree.{find, remove, adjust}
use opensync_platform_rdk.Bsal.Types.{
  uninitialized, RadioBand, Iface, DatarateInfo, RrmCaps, ClientInfo, State, no_info,
}
use opensync_platform_rdk.Bsal.{has_band}

-- wifi_steering_evConnect_t
pub record Connect : Type 0 where
  pub client_mac : CString
  pub is_btm_supported : Bool
  pub is_rrm_supported : Bool
  pub bands_cap : RadioBand
  pub datarate_info : DatarateInfo
  pub rrm_caps : RrmCaps

-- DISCONNECT_SOURCE_* and DISCONNECT_TYPE_*, with the values that the tables do not have.
pub data Source : Type 0 where
  local remote source_other : Source

pub data Kind : Type 0 where
  disassoc deauth kind_other : Kind

-- WIFI_STEERING_RSSI_*
pub data Crossing : Type 0 where
  unchanged lower higher crossing_other : Crossing

-- wifi_steering_event_t without its access point; an address stands first where there is one.
pub data HalEvent : Type 0 where
  probe_req : CString → ℕ → Bool → Bool → HalEvent
  auth_fail : CString → ℕ → ℕ → Bool → Bool → HalEvent
  client_connect : Connect → HalEvent
  client_disconnect : CString → Source → Kind → ℕ → HalEvent
  client_activity : CString → Bool → HalEvent
  chan_utilization : ℕ → HalEvent
  rssi_xing : CString → ℕ → Crossing → Crossing → Crossing → HalEvent
  rssi : CString → ℕ → HalEvent
  event_unknown : HalEvent

-- The data of a bsal_event_t.
pub data EventData : Type 0 where
  probe_req : CString → ℕ → Bool → Bool → EventData
  auth_fail : CString → ℕ → ℕ → Bool → Bool → EventData
  client_connect : CString → EventData
  client_disconnect : CString → Source → Kind → ℕ → EventData
  client_activity : CString → Bool → EventData
  chan_utilization : ℕ → EventData
  rssi_xing : CString → ℕ → Crossing → Crossing → Crossing → EventData
  rssi : CString → ℕ → EventData

-- A call of the callback: the name of the interface, and the event.
abbrev pub BsalEvent : Type 0
BsalEvent = CString × EventData

-- c_get_value_by_key on the three tables, which give each value its namesake.
unfoldable pub map_disc_source : Source → Bool
map_disc_source source_other = false
map_disc_source s = true

unfoldable pub map_disc_type : Kind → Bool
map_disc_type kind_other = false
map_disc_type k = true

unfoldable pub map_rssi_xing : Crossing → Bool
map_rssi_xing crossing_other = false
map_rssi_xing c = true

-- bsal_convert_max_chwidth; 4 is BSAL_CHAN_WIDTH_UNSUPPORTED.
unfoldable pub convert_max_chwidth : ℕ → ℕ
convert_max_chwidth w =
    if leb w 3
    then w
    else if w == 20
    then 0
    else if w == 40
    then 1
    else if w == 80
    then 2
    else if w == 160
    then 3
    else 4

-- The switch over bandsCap: the marks of other bands stay.
unfoldable pub mark_band : RadioBand → ClientInfo → ClientInfo
mark_band RadioBand.freq_2_4 c = record c { band_cap_2g = true }
mark_band RadioBand.freq_5 c = record c { band_cap_5g = true }
mark_band RadioBand.freq_5l c = record c { band_cap_5g = true }
mark_band RadioBand.freq_5h c = record c { band_cap_5g = true }
mark_band RadioBand.freq_6 c = record c { band_cap_6g = true }
mark_band RadioBand.freq_60 c = record c { band_cap_6g = true }
mark_band RadioBand.freq_other c = c

-- The assignments of bsal_client_info_update.
unfoldable pub refresh : Connect → ClientInfo → ClientInfo
unfolding mark_band convert_max_chwidth
refresh connect c =
    let w = connect.datarate_info.max_chwidth in
    let converted = convert_max_chwidth w in
    let width = if converted == 4 then w else converted in
    record (mark_band connect.bands_cap c) {
      is_btm_supported = connect.is_btm_supported;
      is_rrm_supported = connect.is_rrm_supported;
      datarate_info = record (connect.datarate_info) { max_chwidth = width };
      rrm_caps = connect.rrm_caps;
    }

unfoldable pub bsal_client_info_update :
    Connect → List (CString × ClientInfo) → List (CString × ClientInfo)
bsal_client_info_update connect l = elim (find str_dec connect.client_mac l) [
  | none ↦ l ++ (connect.client_mac, refresh connect no_info) ∷ []
  | some c ↦ adjust str_dec connect.client_mac (refresh connect) l
]

-- bsal_client_info_remove
abbrev pub bsal_client_info_remove :
    CString → List (CString × ClientInfo) → List (CString × ClientInfo)
bsal_client_info_remove = remove str_dec

-- The search for the interface of the event. Without one the name stays empty: the test of the
-- name against NULL, which would drop the event, is never true of an array.
unfoldable pub event_ifname : ℕ → List Iface → CString
event_ifname ap_index [] = []
event_ifname ap_index (i ∷ is) =
    if not (has_band uninitialized i) && (i.wifihal_cfg.ap_index == ap_index)
    then i.bsal_cfg.ifname
    else event_ifname ap_index is

-- The switch: the data of the event to deliver, if any, and the list of clients.
unfoldable pub translate :
    HalEvent → List (CString × ClientInfo) → List (CString × ClientInfo) × Option EventData
translate (HalEvent.probe_req mac snr broadcast blocked) l =
    (l, some (EventData.probe_req mac snr broadcast blocked))
translate (HalEvent.auth_fail mac snr reason blocked rejected) l =
    (l, some (EventData.auth_fail mac snr reason blocked rejected))
translate (HalEvent.client_connect connect) l =
    (bsal_client_info_update connect l, some (EventData.client_connect connect.client_mac))
translate (HalEvent.client_disconnect mac source kind reason) l =
    if map_disc_source source && map_disc_type kind
    then (bsal_client_info_remove mac l, some (EventData.client_disconnect mac source kind reason))
    else (l, none)
translate (HalEvent.client_activity mac active) l = (l, some (EventData.client_activity mac active))
translate (HalEvent.chan_utilization u) l = (l, some (EventData.chan_utilization u))
translate (HalEvent.rssi_xing mac snr inact high low) l = (
  l,
  if map_rssi_xing inact && map_rssi_xing high && map_rssi_xing low
      then some (EventData.rssi_xing mac snr inact high low)
      else none,
)
translate (HalEvent.rssi mac snr) l = (l, some (EventData.rssi mac snr))
translate HalEvent.event_unknown l = (l, none)

unfoldable pub process_event : ℕ → HalEvent → State → State × Option BsalEvent
process_event ap_index event s =
    let r = translate event s.clients in
    if s.has_callback
    then (
      record s { clients = r.0 },
      elim r.1 [ none ↦ none | some d ↦ some (event_ifname ap_index s.ifaces, d) ],
    )
    else (s, none)
