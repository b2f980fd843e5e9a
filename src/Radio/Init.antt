-- ===== src/Radio/Init.antt =====
-- What src/lib/target/src/radio.c sends of all radios and interfaces at the start.
mod Tests
use opensync_platform_rdk.Common.{
  ℕ, zero, suc, ◌+◌, Bool, true, false, not, ◌||◌, List, [], ◌∷◌, ◌++◌, Option, none, some,
  if◌then◌else◌, CString, bytes, str_eq, length, ◌≡◌, refl,
}
use opensync_platform_rdk.Radio.{RadioHal, Radar, RadioState, radio_state_get}
use opensync_platform_rdk.Radio.Channels.{Channels, chan_event_init}
use opensync_platform_rdk.Radio.Resync.{Resync, trigger_resync}
use opensync_platform_rdk.Vif.Types.{
  VapMode, vap_ap, vap_sta, vap_other, VapInfo, VifState, VifConfig, Kconfig, VifHal,
}
use opensync_platform_rdk.Vif.State.{set_text, set_flag, vif_state_get, vif_copy_to_config}

-- struct schema_Wifi_Radio_Config, a column without value is `none`; all are marked as present.
pub record RadioConfigRow : Type 0 where
  pub if_name : Option CString
  pub freq_band : Option CString
  pub hw_type : Option CString
  pub enabled : Option Bool
  pub channel : Option ℕ
  pub tx_power : Option ℕ
  pub country : Option CString
  pub ht_mode : Option CString
  pub hw_mode : Option CString
  pub zero_wait_dfs : Option CString

-- SCHEMA_SET_INT of a column, which is 0 where it has no value.
abbrev set_number : Option ℕ → Option ℕ
set_number none = some 0
set_number (some n) = some n

unfoldable pub radio_copy_config_from_state : RadioState → RadioConfigRow
radio_copy_config_from_state st = record {
  if_name = set_text st.if_name;
  freq_band = set_text st.freq_band;
  hw_type = set_text st.hw_type;
  enabled = set_flag st.enabled;
  channel = set_number st.channel;
  tx_power = set_number st.tx_power;
  country = set_text st.country;
  ht_mode = set_text st.ht_mode;
  hw_mode = set_text st.hw_mode;
  zero_wait_dfs = st.zero_wait_dfs;
}

-- `listed` are the names of the build's configuration, CONFIG_RDK_HOME_AP_24_IFNAME and so on;
-- `all` is CONFIG_RDK_CONTROL_ALL_VAPS.
unfoldable pub vap_controlled : Bool → List CString → CString → Bool
vap_controlled all [] ifname = all
vap_controlled all (n ∷ ns) ifname = str_eq ifname n || vap_controlled all ns ifname

-- A call of an operation of the core: op_rconf, op_rstate, op_vconf, op_vstate.
pub data InitCall : Type 0 where
  rconf : RadioConfigRow → InitCall
  rstate : RadioState → InitCall
  vconf : VifConfig → CString → InitCall
  vstate : VifState → CString → InitCall

-- What does not change while the tables are sent. `memory` is what the variable for the state of a radio
-- holds after radio_state_get failed, whose result is not tested.
pub record Env : Type 0 where
  pub kc : Kconfig
  pub radio : RadioHal
  pub vif : VifHal
  pub radar : Radar
  pub key_ids : ℕ → CString
  pub all_vaps : Bool
  pub listed : List CString
  pub memory : ℕ → RadioState

abbrev text_of : Option CString → CString
text_of none = []
text_of (some s) = s

-- The inner loop, over the interfaces of a radio whose rows are `conf` and `st`.
unfoldable pub init_vaps : Env → RadioConfigRow → RadioState → List VapInfo → List InitCall
unfolding vap_controlled
init_vaps env conf st [] = []
init_vaps env conf st (v ∷ vs) =
    let rest = init_vaps env conf st vs in
    elim (v.vap_mode) [
      | vap_ap ↦
          (if vap_controlled env.all_vaps env.listed v.vap_name
            then elim (vif_state_get env.kc env.vif env.key_ids v.vap_index) [
              | none ↦ rest
              | some s ↦
                  vconf (vif_copy_to_config s.row) (text_of conf.if_name)
                  ∷ vstate s (text_of st.if_name)
                  ∷ rest
            ]
            else rest)
      | vap_sta ↦ rest
      | vap_other ↦ rest
    ]

abbrev state_or : RadioState → Option RadioState → RadioState
state_or st none = st
state_or st (some s) = s

-- The outer loop, from radio i over as many as are left; it ends, without success, at a radio
-- without interface map.
unfoldable pub init_radios : Env → ℕ → ℕ → List InitCall × Bool
unfolding radio_copy_config_from_state init_vaps
init_radios env zero i = ([], true)
init_radios env (suc left) i =
    let (more, ok) = init_radios env left (i + 1) in
    let st = state_or (env.memory i) (radio_state_get env.radio env.radar i) in
    let conf = radio_copy_config_from_state st in
    elim (env.vif.vap_info_map i) [
      | none ↦ (rconf conf ∷ rstate st ∷ [], false)
      | some vs ↦ (rconf conf ∷ rstate st ∷ init_vaps env conf st vs ++ more, ok)
    ]

-- target_radio_config_init2 up to the starts of Wps and MultiAp: the calls, the queue of channel
-- events, and the result.
unfoldable pub target_radio_config_init2 : Env → Channels → List InitCall × Channels × Bool
unfolding init_radios chan_event_init
target_radio_config_init2 env s = elim (env.radio.caps) [
  | none ↦ ([], s, false)
  | some caps ↦
      let (calls, ok) = init_radios env (length caps) 0 in
      (calls, (if ok then chan_event_init s else s), ok)
]

-- The health check: the resynchronisation is triggered, and the check's own timer starts again.
unfoldable pub healthcheck_task : Resync → Resync
unfolding trigger_resync
healthcheck_task r = trigger_resync r
