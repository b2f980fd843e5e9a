-- ===== src/Radio.antt =====
-- Radios, src/lib/target/src/radio.c: the state that is reported. The children have the
-- configuration, the channel events and the resynchronisation.
pub mod Config
pub mod Resync
pub mod Channels
pub mod Init
mod Tests
use opensync_platform_rdk.Common.{
  ℕ, Bool, true, false, not, List, [], ◌∷◌, ◌++◌, Option, none, some, if◌then◌else◌, ◌==◌, ltb,
  CString, bytes, str_eq, length,
}

-- The variants of 802.11, from the one that the code takes last to the one that it takes first.
pub data Variant : Type 0 where
  v_a v_b v_g v_n v_h v_ac v_ad v_ax : Variant

-- The channel widths; `width_other` is one that the tables do not have.
pub data Width : Type 0 where
  w20 w40 w80 w80_80 w160 width_other : Width

-- wifi_channelState_t
pub data ChannelState : Type 0 where
  available nop_finished nop_start cac_start cac_completed chan_other : ChannelState

-- The capabilities of a radio: its index, zeroDFSSupported, the channels of its bands.
pub record RadioCap : Type 0 where
  pub index : ℕ
  pub zero_dfs : Bool
  pub channels : List ℕ

-- What wifi_getRadioOperatingParameters gives; a band and a country by the text that the tables
-- have for them.
pub record Params : Type 0 where
  pub band : Option CString
  pub enable : Bool
  pub channel : ℕ
  pub country : Option CString
  pub width : Width
  pub has_variant : Variant → Bool

-- A call that changes the HAL or goes to the mesh agent.
pub data RadioCall : Type 0 where
  set_enable : ℕ → Bool → RadioCall
  push_channel : ℕ → ℕ → ℕ → RadioCall
  set_zero_dfs : ℕ → Bool → Bool → RadioCall
  sync_channel sync_width : ℕ → ℕ → RadioCall

-- The answers of the HAL, `none` for one that is not RETURN_OK, and the names of the chipsets.
pub record RadioHal : Type 0 where
  pub caps : Option (List RadioCap)
  pub if_name : ℕ → Option CString
  pub params : ℕ → Option Params
  pub tx_power : ℕ → Option ℕ
  pub channels : ℕ → Option (List (ℕ × ChannelState))
  pub zero_dfs : ℕ → Option (Bool × Bool)
  pub mac : CString → Option CString
  pub unmap_ifname : CString → CString
  pub hw_type : CString → Option CString
  pub accepts : RadioCall → Bool

-- struct schema_Wifi_Radio_State
pub record RadioState : Type 0 where
  pub if_name : Option CString
  pub freq_band : Option CString
  pub hw_type : Option CString
  pub enabled : Option Bool
  pub channel : Option ℕ
  pub tx_power : Option ℕ
  pub country : Option CString
  pub ht_mode : Option CString
  pub hw_mode : Option CString
  pub channels : List (ℕ × Option CString)
  pub radar : List (CString × CString)
  pub radar_time : ℕ
  pub mac : Option CString
  pub allowed_channels : List ℕ
  pub zero_wait_dfs : Option CString

-- dfs_last_channel, dfs_num_detected and dfs_radar_timestamp; `none` before the first event.
pub record Radar : Type 0 where
  pub last : Option (CString × CString)
  pub timestamp : ℕ

unfoldable pub width_text : Width → Option CString
width_text w20 = some (bytes "HT20")
width_text w40 = some (bytes "HT40")
width_text w80 = some (bytes "HT80")
width_text w80_80 = some (bytes "HT80+80")
width_text w160 = some (bytes "HT160")
width_text width_other = none

unfoldable pub variant_text : (Variant → Bool) → CString
variant_text has =
    if has v_ax
    then bytes "11ax"
    else if has v_ad
    then bytes "11ad"
    else if has v_ac
    then bytes "11ac"
    else if has v_h
    then bytes "11h"
    else if has v_n
    then bytes "11n"
    else if has v_g
    then bytes "11g"
    else if has v_b
    then bytes "11b"
    else bytes "11a"

unfoldable pub cap_of : ℕ → List RadioCap → Option RadioCap
cap_of i [] = none
cap_of i (c ∷ cs) = if i == c.index then some c else cap_of i cs

unfoldable pub get_radio_cap_index : List RadioCap → ℕ → Option RadioCap
unfolding cap_of
get_radio_cap_index caps i = if ltb i (length caps) then cap_of i caps else none

unfoldable pub channel_state_to_state_str : ChannelState → Option CString
channel_state_to_state_str available = some (bytes "{\"state\":\"allowed\"}")
channel_state_to_state_str nop_finished = some (bytes "{\"state\": \"nop_finished\"}")
channel_state_to_state_str nop_start = some (bytes "{\"state\": \"nop_started\"}")
channel_state_to_state_str cac_start = some (bytes "{\"state\": \"cac_started\"}")
channel_state_to_state_str cac_completed = some (bytes "{\"state\": \"cac_completed\"}")
channel_state_to_state_str chan_other = none

-- The entries of the channel map that have a number.
unfoldable pub update_channels_map : List (ℕ × ChannelState) → List (ℕ × Option CString)
unfolding channel_state_to_state_str
update_channels_map [] = []
update_channels_map ((n, s) ∷ rest) =
    if n == 0
    then update_channels_map rest
    else (n, channel_state_to_state_str s) ∷ update_channels_map rest

unfoldable pub update_radar_info : Radar → List (CString × CString)
update_radar_info r = elim (r.last) [
  | none ↦ (bytes "last_channel", bytes "0") ∷ (bytes "num_detected", []) ∷ []
  | some (channel, num) ↦ (bytes "last_channel", channel) ∷ (bytes "num_detected", num) ∷ []
]

unfoldable pub update_zero_wait_dfs : RadioHal → ℕ → RadioCap → Option CString
update_zero_wait_dfs hal i cap =
    if cap.zero_dfs
    then elim (hal.zero_dfs i) [
      | none ↦ none
      | some (enable, precac) ↦
          some (
            if enable then (if precac then bytes "precac" else bytes "enable") else bytes "disable")
    ]
    else none

-- The power is reported within 1 and 32.
unfoldable pub tx_power_of : ℕ → ℕ
tx_power_of p = if ltb 32 p then 32 else if ltb p 1 then 1 else p

abbrev map_some : {A B : Type 0} → (A → B) → Option A → Option B
map_some f none = none
map_some f (some a) = some (f a)

abbrev or_none : {A B : Type 0} → (A → Option B) → Option A → Option B
or_none f none = none
or_none f (some a) = f a

abbrev or_empty : {A B : Type 0} → (A → List B) → Option A → List B
or_empty f none = []
or_empty f (some a) = f a

-- The row of a radio with these capabilities, this name and these parameters.
unfoldable pub radio_row : RadioHal → Radar → ℕ → List RadioCap → CString → Params → RadioState
unfolding width_text variant_text get_radio_cap_index update_channels_map update_radar_info
    update_zero_wait_dfs tx_power_of
radio_row hal radar i caps name p = record {
  if_name = some (hal.unmap_ifname name);
  freq_band = p.band;
  hw_type = or_none hal.hw_type p.band;
  enabled = some p.enable;
  channel = if p.channel == 0 then none else some p.channel;
  tx_power = map_some tx_power_of (hal.tx_power i);
  country = p.country;
  ht_mode = width_text p.width;
  hw_mode = some (variant_text p.has_variant);
  channels = or_empty update_channels_map (hal.channels i);
  radar = update_radar_info radar;
  radar_time = radar.timestamp;
  mac = hal.mac name;
  allowed_channels = or_empty (λ c. c.channels) (get_radio_cap_index caps i);
  zero_wait_dfs = or_none (update_zero_wait_dfs hal i) (get_radio_cap_index caps i);
}

unfoldable pub radio_state_get : RadioHal → Radar → ℕ → Option RadioState
unfolding radio_row
radio_state_get hal radar i = elim (hal.caps) [
  | none ↦ none
  | some caps ↦ elim (hal.if_name i) [
    | none ↦ none
    | some name ↦ elim (hal.params i) [
      | none ↦ none
      | some p ↦ some (radio_row hal radar i caps name p)
    ]
  ]
]
