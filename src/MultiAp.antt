-- ===== src/MultiAp.antt =====
-- Multi-AP, src/lib/target/src/multi_ap.c: the type of an interface and its stations. What follows an
-- event of the HAL is Vif/Events, since it reads the state of the interface.
use opensync_platform_rdk.Common.{
  ℕ, Bool, List, [], ◌∷◌, Option, none, some, if◌then◌else◌, CString, bytes, str_eq,
}

-- wifi_multiApDeviceType_t; `type_other` is a value that the table does not have.
pub data DeviceType : Type 0 where
  type_none fronthaul_bss backhaul_bss fronthaul_backhaul_bss backhaul_sta type_other : DeviceType

-- The answers of the HAL, `none` for one that is not RETURN_OK; `is_ap_vlan` is of wifi_getApMode.
pub record Hal : Type 0 where
  pub device_type : ℕ → Option DeviceType
  pub vlan_sta_addr : ℕ → Option CString
  pub is_ap_vlan : ℕ → Option Bool

-- map_device_type
unfoldable pub map_device_type : DeviceType → Option CString
map_device_type type_none = some (bytes "none")
map_device_type fronthaul_bss = some (bytes "fronthaul_bss")
map_device_type backhaul_bss = some (bytes "backhaul_bss")
map_device_type fronthaul_backhaul_bss = some (bytes "fronthaul_backhaul_bss")
map_device_type backhaul_sta = some (bytes "backhaul_sta")
map_device_type type_other = none

-- The type that vif_config_set_multi_ap sets.
unfoldable pub device_type_of : CString → DeviceType
device_type_of s =
    if str_eq s (bytes "none")
    then type_none
    else if str_eq s (bytes "fronthaul_bss")
    then fronthaul_bss
    else if str_eq s (bytes "backhaul_bss")
    then backhaul_bss
    else if str_eq s (bytes "fronthaul_backhaul_bss")
    then fronthaul_backhaul_bss
    else if str_eq s (bytes "backhaul_sta")
    then backhaul_sta
    else type_none

-- The calls of wifi_setMultiApDeviceType.
unfoldable pub vif_config_set_multi_ap : CString → Bool → List DeviceType
unfolding device_type_of
vif_config_set_multi_ap multi_ap changed = if changed then device_type_of multi_ap ∷ [] else []

-- The fields multi_ap, ap_vlan_sta_addr and mode that multi_ap_to_state sets, `none` for one that
-- it leaves.
unfoldable pub multi_ap_to_state : Hal → ℕ → Option CString × Option CString × Option CString
unfolding map_device_type
multi_ap_to_state hal i = elim (hal.device_type i) [
  | none ↦ (none, none, none)
  | some t ↦ (
    map_device_type t,
    hal.vlan_sta_addr i,
    elim (hal.is_ap_vlan i) [
      | none ↦ none
      | some is_vlan ↦ if is_vlan then some (bytes "ap_vlan") else none
    ],
  )
]
