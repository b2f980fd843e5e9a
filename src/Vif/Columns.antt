-- ===== src/Vif/Columns.antt =====
-- What the later parts of an interface's state leave, src/lib/target/src/vif.c: the columns that the
-- access list, WPS and Multi-AP do not set.
use opensync_platform_rdk.Common.{
  ℕ, Bool, true, false, Option, none, some, ◌≡◌, refl, arith, inl, inr, Bool-cases, Option-cases,
  CString, bytes,
}
use opensync_platform_rdk.Vif.Types.{VapInfo, Security, Row, Kconfig, VifHal}
use opensync_platform_rdk.Vif.Acl.{acl_to_row, acl_listed, acl_mode_text}
use opensync_platform_rdk.Vif.State.{add_wps}

-- The columns that the access list, WPS and Multi-AP leave.
abbrev pub Core : Type 0
Core =
    Option Bool
    × Option CString
    × Option Bool
    × Option CString
    × Option CString
    × Option Bool
    × Option Bool
    × Security

abbrev pub core : Row → Core
core r = (r.enabled, r.bridge, r.ap_bridge, r.ssid_broadcast, r.ssid, r.rrm, r.btm, r.sec)

listed-core : (o : Option CString) (r : Row) → core (acl_listed o r).0 ≡ core r
unfolding acl_listed
listed-core none r = refl
listed-core (some acl) r = ground arith

pub acl-core :
    (hal : VifHal) (skip : Bool) (v : VapInfo) (r : Row) → core (acl_to_row hal skip v r).0 ≡ core r
unfolding acl_to_row
acl-core hal true v r = refl
acl-core hal false v r = elim (Bool-cases v.bss.filter_enable) [
  | inr e ↦
      rw (e) (
        listed-core (hal.acl_devices v.vap_index)
          (record r { mac_list_type = some (bytes "none") }))
  | inl e ↦ elim (Option-cases (acl_mode_text v.bss.filter_mode)) [
    | inl f ↦ rw (e, f) refl
    | inr (t, f) ↦
        rw (e, f) (listed-core (hal.acl_devices v.vap_index) (record r { mac_list_type = some t }))
  ]
]

pub wps-core : (kc : Kconfig) (hal : VifHal) (i : ℕ) (r : Row) → core (add_wps kc hal i r) ≡ core r
unfolding add_wps
wps-core kc hal i r = elim (Bool-cases kc.wps_support) [
  | inl e ↦ rw (add_wps, e) refl
  | inr e ↦ rw (add_wps, e) refl
]
