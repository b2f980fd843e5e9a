-- ===== src/Radio/Init/Tests.antt =====
-- Tests of the start of radio.c.
use opensync_platform_rdk.Common.{true, false, [], ◌∷◌, none, some, ◌≡◌, refl, bytes}
use opensync_platform_rdk.Radio.{RadioState}
use opensync_platform_rdk.Radio.Init.{radio_copy_config_from_state, vap_controlled}

abbrev st : RadioState
st = record {
  if_name = some (bytes "wifi0");
  freq_band = none;
  hw_type = none;
  enabled = some true;
  channel = none;
  tx_power = some 20;
  country = none;
  ht_mode = some (bytes "HT40");
  hw_mode = none;
  channels = [];
  radar = [];
  radar_time = 0;
  mac = none;
  allowed_channels = [];
  zero_wait_dfs = none;
}

-- A column without value is copied as 0 or as the empty text, except zero_wait_dfs.
missing_columns :
    ((radio_copy_config_from_state st).channel ≡ some 0)
    × ((radio_copy_config_from_state st).country ≡ some [])
    × ((radio_copy_config_from_state st).zero_wait_dfs ≡ none)
unfolding radio_copy_config_from_state
missing_columns = (refl, refl, refl)

names :
    (vap_controlled false (bytes "wl0" ∷ []) (bytes "wl0") ≡ true)
    × (vap_controlled false (bytes "wl0" ∷ []) (bytes "wl1") ≡ false)
    × (vap_controlled true (bytes "wl0" ∷ []) (bytes "wl1") ≡ true)
unfolding vap_controlled
names = (refl, refl, refl)
