-- ===== src/Radio/Tests.antt =====
-- Tests of radio.c, and its theorem at a concrete input.
use opensync_platform_rdk.Common.{true, false, [], ◌∷◌, none, some, ◌≡◌, refl, bytes}
use opensync_platform_rdk.HalQueue.{unset, push, wake, start}
use opensync_platform_rdk.Radio.{
  w80, Radar, RadioHal, push_channel, sync_channel, sync_width, tx_power_of, get_radio_cap_index,
  cap_of,
}
use opensync_platform_rdk.Radio.Config.{
  RadioConfig, csa_width, idx_loop, radio_ifname_to_idx, radio_change_channel,
  radio_change_zero_wait_dfs, target_radio_config_set2,
}
use opensync_platform_rdk.Radio.Channels.{
  ChannelEntry, channels_changed, radar_detected, Channels, chan_event_cb, chan_event_wake,
  chan_events, chan_event_async_cb,
}
use opensync_platform_rdk.Radio.Resync.{Resync, triggers, fires, resync_run}
use opensync_platform_rdk.Radio.Resync.Served.{Served, begun_since, resync_run-Served}

abbrev hal : RadioHal
hal = record {
  caps = some (record { index = 0; zero_dfs = false; channels = 36 ∷ 40 ∷ [] } ∷ []);
  if_name = λ i. some (bytes "wifi0");
  params = λ i. some (record {
    band = some (bytes "5G");
    enable = true;
    channel = 36;
    country = none;
    width = w80;
    has_variant = λ v. true;
  });
  tx_power = λ i. some 40;
  channels = λ i. some [];
  zero_dfs = λ i. none;
  mac = λ s. none;
  unmap_ifname = λ s. s;
  hw_type = λ s. none;
  accepts = λ c. true;
}

abbrev radar : Radar
radar = record { last = none; timestamp = 0 }

abbrev conf : RadioConfig
conf = record {
  if_name = bytes "wifi0";
  enabled = true;
  channel = 44;
  ht_mode = bytes "HT80+80";
  zero_wait_dfs = [];
  changed_enabled = false;
  changed_channel = true;
  changed_ht_mode = false;
  changed_zero_wait_dfs = false;
}

-- The mode HT80+80 is pushed and sent as a width of 80.
wide_channel :
    target_radio_config_set2 hal true conf
    ≡ (push_channel 0 44 80 ∷ sync_channel 0 44 ∷ sync_width 0 80 ∷ [], true)
unfolding target_radio_config_set2 radio_ifname_to_idx idx_loop radio_change_channel csa_width
wide_channel = refl

-- A column that did not change has no call; a radio without zero-wait DFS refuses it.
no_zero_wait :
    target_radio_config_set2 hal true
      (record conf { changed_channel = false; changed_zero_wait_dfs = true })
    ≡ ([], false)
unfolding target_radio_config_set2 radio_ifname_to_idx idx_loop radio_change_zero_wait_dfs
    get_radio_cap_index cap_of
no_zero_wait = refl

high_power : tx_power_of 40 ≡ 32
unfolding tx_power_of
high_power = refl

abbrev quiet : Channels
quiet = record { queue = start unset; registered = true; radar = radar; calls = [] }

abbrev changed : ChannelEntry
changed = record { radio = 0; event = channels_changed; channel = bytes "36"; tv_sec = 5 }

abbrev detected : ChannelEntry
detected = record { radio = 1; event = radar_detected; channel = bytes "52"; tv_sec = 9 }

-- The radar event is given the time of the event before it.
radar_time :
    (chan_event_async_cb
      (chan_event_wake (chan_event_cb detected (chan_event_cb changed quiet)))).radar.timestamp
    ≡ 5
unfolding chan_event_async_cb chan_event_wake wake chan_event_cb chan_events push start
radar_time = refl

abbrev idle : Resync
idle = record { ongoing = false; timer = false; trace = [] }

idle-Served : Served idle
unfolding begun_since
idle-Served = record { flag = refl; none_waits = λ h. refl }

resync_run-Served_example :
    Served (resync_run (triggers ∷ triggers ∷ fires hal radar (λ i. some []) ∷ triggers ∷ []) idle)
resync_run-Served_example =
    resync_run-Served (triggers ∷ triggers ∷ fires hal radar (λ i. some []) ∷ triggers ∷ []) idle
      idle-Served
