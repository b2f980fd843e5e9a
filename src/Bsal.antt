-- ===== src/Bsal.antt =====
-- The band steering layer, src/lib/target/src/bsal.c: the group of interfaces, its clients, and
-- the life cycle. Allocations succeed in the model.
mod Tests
pub mod Types
pub mod Clients
pub mod Group
pub mod Rates
pub mod Info
pub mod Events
pub mod Neighbors
pub mod Requests
use opensync_platform_rdk.Common.{
  ℕ, ◌-◌, Bool, true, false, ◌&&◌, List, [], ◌∷◌, Option, none, some, ite, if◌then◌else◌, ◌==◌,
  length, replicate, set, CString, str_dec,
}
use opensync_platform_rdk.Bsal.Types.{
  Band, uninitialized, band_24g, band_5g, band_6g, Band-discrete, RadioBand, IfConfig, ApConfig,
  Iface, ClientConfig, DiscType, disassoc, deauth, disc_other, Call, set_group, client_set,
  client_unset, client_drop, Hal, State, no_config, no_iface,
}

-- A call of the HAL, and its answer.
abbrev pub call_hal : Hal → Call → State → State × Bool
call_hal hal c s = let ok = hal.accepts c in (record s { calls = (c, ok) ∷ s.calls }, ok)

-- The switch of lookup_ifname: another band leaves what `iface` held.
unfoldable pub band_of : RadioBand → Band → Band
band_of RadioBand.freq_2_4 held = band_24g
band_of RadioBand.freq_5 held = band_5g
band_of RadioBand.freq_5l held = band_5g
band_of RadioBand.freq_5h held = band_5g
band_of RadioBand.freq_6 held = band_6g
band_of RadioBand.freq_60 held = band_6g
band_of RadioBand.freq_other held = held

-- `held` is the band that the caller's uninitialised structure holds.
unfoldable pub lookup_ifname : Hal → Band → IfConfig → Option Iface
unfolding band_of
lookup_ifname hal held ifcfg = elim (hal.ifname_to_idx ifcfg.ifname) [
  | none ↦ none
  | some index ↦ elim (hal.ssid_radio_index index) [
    | none ↦ none
    | some radio ↦ elim (hal.radio_band radio) [
      | none ↦ none
      | some band ↦ some (record {
        band = band_of band held;
        bsal_cfg = ifcfg;
        wifihal_cfg = record {
          ap_index = index;
          util_check_interval_sec = ifcfg.chan_util_check_sec;
          util_avg_count = ifcfg.chan_util_avg_count;
          inact_check_interval_sec = ifcfg.inact_check_sec;
          inact_check_threshold_sec = ifcfg.inact_tmout_sec_normal;
        };
      })
    ]
  ]
]

abbrev pub has_band : Band → Iface → Bool
has_band band i = ite (Band-discrete i.band band) true false

-- group_get_iface_by_name
unfoldable pub group_get_iface_by_name : CString → List Iface → Option Iface
group_get_iface_by_name ifname [] = none
group_get_iface_by_name ifname (i ∷ is) =
    if has_band uninitialized i
    then group_get_iface_by_name ifname is
    else ite (str_dec ifname i.bsal_cfg.ifname) (some i) (group_get_iface_by_name ifname is)

-- The loop that three functions share: a write to the first slot of a band.
unfoldable pub write_slot : Band → Iface → List Iface → Option (List Iface)
write_slot band new [] = none
write_slot band new (i ∷ is) =
    if has_band band i
    then some (new ∷ is)
    else elim (write_slot band new is) [ none ↦ none | some rest ↦ some (i ∷ rest) ]

-- The code copies sizeof(iface_t) bytes from the address of its pointer parameter `iface`, which
-- is stack memory and not the interface: `stack` is the interface that these bytes make.
unfoldable pub group_add_iface : Iface → Iface → List Iface → Option (List Iface)
group_add_iface stack iface group = elim (group_get_iface_by_name iface.bsal_cfg.ifname group) [
  | some _ ↦ none
  | none ↦ write_slot uninitialized stack group
]

unfoldable pub is_group_initialized : List Iface → Bool
is_group_initialized [] = true
is_group_initialized (i ∷ is) = if has_band uninitialized i then false else is_group_initialized is

unfoldable pub is_group_uninitialized : List Iface → Bool
is_group_uninitialized [] = true
is_group_uninitialized (i ∷ is) =
    if has_band uninitialized i then is_group_uninitialized is else false

abbrev pub group_update_iface : Iface → List Iface → Option (List Iface)
group_update_iface iface group = write_slot iface.band iface group

abbrev pub group_remove_iface : Iface → List Iface → Option (List Iface)
group_remove_iface iface group = write_slot iface.band no_iface group

-- The loop of create_wifihal_ap_config_list: every turn writes the first element.
unfoldable pub fill_configs : List Iface → List ApConfig → List ApConfig
fill_configs [] configs = configs
fill_configs (i ∷ is) configs = fill_configs is (set configs 0 i.wifihal_cfg)

unfoldable pub create_wifihal_ap_config_list : List Iface → List ApConfig
create_wifihal_ap_config_list group = fill_configs group (replicate (length group) no_config)

-- The tail that adding and updating share.
unfoldable pub announce : Hal → State → State × Bool
announce hal s =
    if is_group_initialized s.ifaces
    then call_hal hal
        (set_group s.group_index (length s.ifaces) (create_wifihal_ap_config_list s.ifaces)) s
    else (s, true)

unfoldable pub target_bsal_iface_add : Hal → Band → Iface → IfConfig → State → State × Bool
target_bsal_iface_add hal held stack ifcfg s = elim (lookup_ifname hal held ifcfg) [
  | none ↦ (s, false)
  | some iface ↦ elim (group_add_iface stack iface s.ifaces) [
    | none ↦ (s, false)
    | some group ↦ announce hal (record s { ifaces = group })
  ]
]

unfoldable pub target_bsal_iface_update : Hal → Band → IfConfig → State → State × Bool
target_bsal_iface_update hal held ifcfg s = elim (lookup_ifname hal held ifcfg) [
  | none ↦ (s, false)
  | some iface ↦ elim (group_update_iface iface s.ifaces) [
    | none ↦ (s, false)
    | some group ↦ announce hal (record s { ifaces = group })
  ]
]

unfoldable pub target_bsal_iface_remove : Hal → Band → IfConfig → State → State × Bool
target_bsal_iface_remove hal held ifcfg s = elim (lookup_ifname hal held ifcfg) [
  | none ↦ (s, false)
  | some iface ↦ elim (group_remove_iface iface s.ifaces) [
    | none ↦ (s, false)
    | some group ↦
        if is_group_uninitialized group
        then call_hal hal (set_group s.group_index 0 []) (record s { ifaces = group })
        else (record s { ifaces = group }, true)
  ]
]

-- The registrations at the end of the initialisation.
abbrev pub registered : Hal → Bool
registered hal =
    if hal.event_register
    then (if hal.mgmt_frame_support then hal.mgmt_frame_register else true)
    else false

-- `callback` is whether event_cb is not NULL; it is stored without a test.
unfoldable pub target_bsal_init : Bool → Hal → State → State × Bool
target_bsal_init callback hal s =
    if s.has_callback
    then (s, false)
    else let t = record s {
      has_callback = callback;
      group_index = 0;
      ifaces = [];
      freed = false;
    } in
      elim hal.num_radios [
        | none ↦ (t, false)
        | some n ↦ (record t { ifaces = replicate n no_iface }, registered hal)
      ]

unfoldable pub target_bsal_cleanup : State → State × Bool
target_bsal_cleanup s = (record s { has_callback = false; freed = true }, true)

-- bsal_convert_if_not_blocking
unfoldable pub convert_if_not_blocking : ClientConfig → ClientConfig
convert_if_not_blocking c =
    if (c.rssi_probe_hwm == 0) && (c.rssi_probe_lwm == 0)
    then record c { rssi_probe_hwm = 120; rssi_auth_hwm = 120 }
    else c

-- An operation on a client of an interface that the group has.
abbrev pub on_iface : CString → (Iface → Option Call) → Hal → State → State × Bool
on_iface ifname call hal s = elim (group_get_iface_by_name ifname s.ifaces) [
  | none ↦ (s, false)
  | some iface ↦ elim (call iface) [ none ↦ (s, false) | some c ↦ call_hal hal c s ]
]

unfoldable pub target_bsal_client_add :
    Hal → CString → CString → ClientConfig → State → State × Bool
target_bsal_client_add hal ifname mac_addr cfg s =
    on_iface ifname
      (λ i.
        some
          (client_set s.group_index i.wifihal_cfg.ap_index mac_addr (convert_if_not_blocking cfg)))
      hal s

-- The text of target_bsal_client_update is that of target_bsal_client_add but for the messages.
unfoldable pub target_bsal_client_update :
    Hal → CString → CString → ClientConfig → State → State × Bool
target_bsal_client_update hal ifname mac_addr cfg s =
    on_iface ifname
      (λ i.
        some
          (client_set s.group_index i.wifihal_cfg.ap_index mac_addr (convert_if_not_blocking cfg)))
      hal s

unfoldable pub target_bsal_client_remove : Hal → CString → CString → State → State × Bool
target_bsal_client_remove hal ifname mac_addr s =
    on_iface ifname (λ i. some (client_unset s.group_index i.wifihal_cfg.ap_index mac_addr)) hal s

unfoldable pub target_bsal_client_disconnect :
    Hal → CString → CString → DiscType → ℕ → State → State × Bool
target_bsal_client_disconnect hal ifname mac_addr disc_other reason s =
    on_iface ifname (λ i. none) hal s
target_bsal_client_disconnect hal ifname mac_addr type reason s =
    on_iface ifname
      (λ i. some (client_drop s.group_index i.wifihal_cfg.ap_index mac_addr type reason)) hal s
