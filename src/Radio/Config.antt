-- ===== src/Radio/Config.antt =====
-- The configuration of a radio, src/lib/target/src/radio.c.
use opensync_platform_rdk.Common.{
  ℕ, zero, suc, ◌+◌, Bool, true, false, ◌||◌, List, [], ◌∷◌, ◌++◌, Option, none, some,
  if◌then◌else◌, ◌==◌, CString, bytes, str_eq, length,
}
use opensync_platform_rdk.Radio.{
  RadioCall, set_enable, push_channel, set_zero_dfs, sync_channel, sync_width, RadioHal,
  get_radio_cap_index,
}

-- map_csa_chanwidth
unfoldable pub csa_width : CString → Option ℕ
csa_width s =
    if str_eq s (bytes "HT20")
    then some 20
    else if str_eq s (bytes "HT40")
    then some 40
    else if str_eq s (bytes "HT80")
    then some 80
    else if str_eq s (bytes "HT80+80")
    then some 80
    else if str_eq s (bytes "HT160")
    then some 160
    else none

-- The calls, and the result. `sync` is that CONFIG_RDK_DISABLE_SYNC is off.
unfoldable pub radio_change_channel : RadioHal → Bool → ℕ → ℕ → CString → List RadioCall × Bool
unfolding csa_width
radio_change_channel hal sync i channel ht_mode = elim (hal.if_name i) [
  | none ↦ ([], false)
  | some name ↦
      (if channel == 0 then ([], true) else elim (csa_width ht_mode) [
        | none ↦ ([], false)
        | some width ↦
            let push = push_channel i channel width in
            (if hal.accepts push
              then (
                push ∷ (if sync then sync_channel i channel ∷ sync_width i width ∷ [] else []),
                true,
              )
              else (push ∷ [], false))
      ])
]

unfoldable pub radio_change_zero_wait_dfs : RadioHal → ℕ → CString → List RadioCall × Bool
unfolding get_radio_cap_index
radio_change_zero_wait_dfs hal i mode = elim (hal.caps) [
  | none ↦ ([], false)
  | some caps ↦ elim (get_radio_cap_index caps i) [
    | none ↦ ([], false)
    | some cap ↦
        let precac = str_eq mode (bytes "precac") in
        let set = set_zero_dfs i (str_eq mode (bytes "enable") || precac) precac in
        (if cap.zero_dfs then (set ∷ [], hal.accepts set) else ([], false))
  ]
]

-- The loop of radio_ifname_to_idx from radio r, over as many as are left; it ends at a radio
-- without name.
unfoldable pub idx_loop : RadioHal → CString → ℕ → ℕ → Option ℕ
idx_loop hal ifname zero r = none
idx_loop hal ifname (suc left) r =
    let rest = idx_loop hal ifname left (r + 1) in
    elim (hal.if_name r) [ none ↦ none | some name ↦ (if str_eq name ifname then some r else rest) ]

unfoldable pub radio_ifname_to_idx : RadioHal → CString → Option ℕ
unfolding idx_loop
radio_ifname_to_idx hal ifname = elim (hal.caps) [
  | none ↦ none
  | some caps ↦ idx_loop hal ifname (length caps) 0
]

-- The columns of Wifi_Radio_Config that the code reads, and which of them changed.
pub record RadioConfig : Type 0 where
  pub if_name : CString
  pub enabled : Bool
  pub channel : ℕ
  pub ht_mode : CString
  pub zero_wait_dfs : CString
  pub changed_enabled : Bool
  pub changed_channel : Bool
  pub changed_ht_mode : Bool
  pub changed_zero_wait_dfs : Bool

-- One step after another, as long as they succeed.
abbrev pub and_then : List RadioCall × Bool → List RadioCall × Bool → List RadioCall × Bool
and_then (calls, ok) (more, result) = if ok then (calls ++ more, result) else (calls, false)

abbrev pub when : Bool → List RadioCall × Bool → List RadioCall × Bool
when changed step = if changed then step else ([], true)

-- target_radio_config_set2: the calls, and whether it comes to trigger the resynchronisation,
-- which is also its result.
unfoldable pub target_radio_config_set2 : RadioHal → Bool → RadioConfig → List RadioCall × Bool
unfolding radio_ifname_to_idx radio_change_channel radio_change_zero_wait_dfs
target_radio_config_set2 hal sync conf = elim (radio_ifname_to_idx hal conf.if_name) [
  | none ↦ ([], false)
  | some i ↦
      let set = set_enable i conf.enabled in
      and_then (when conf.changed_enabled (set ∷ [], hal.accepts set)) (
        and_then
          (when (conf.changed_channel || conf.changed_ht_mode)
            (radio_change_channel hal sync i conf.channel conf.ht_mode))
          (when conf.changed_zero_wait_dfs (radio_change_zero_wait_dfs hal i conf.zero_wait_dfs)))
]
