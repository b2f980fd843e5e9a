-- ===== src/Radio/Channels.antt =====
-- The channel events of the HAL, src/lib/target/src/radio.c, over the queue of HalQueue.
use opensync_platform_rdk.Common.{
  ℕ, Bool, true, false, List, [], ◌∷◌, ◌++◌, some, if◌then◌else◌, CString, bytes,
}
use opensync_platform_rdk.HalQueue.{Queue, push, wake, start}
use opensync_platform_rdk.Radio.{Radar}

-- wifi_chan_eventType_t
pub data ChannelEvent : Type 0 where
  channels_changed radar_detected unknown_event : ChannelEvent

-- hal_cb_entry_t of radio.c; the channel is the text that snprintf makes of it.
pub record ChannelEntry : Type 0 where
  pub radio : ℕ
  pub event : ChannelEvent
  pub channel : CString
  pub tv_sec : ℕ

-- The statics, and the radios for which radio_state_update was called with what was saved then.
pub record Channels : Type 0 where
  pub queue : Queue ChannelEntry
  pub registered : Bool
  pub radar : Radar
  pub calls : List (ℕ × Radar)

-- chan_event_cb, as far as it holds the lock.
unfoldable pub chan_event_cb : ChannelEntry → Channels → Channels
unfolding push
chan_event_cb e s = record s { queue = (push e s.queue).0 }

-- The loop of chan_event_async_cb over the copied events. `first` is the time of the first of
-- them, which the code takes for each, and `synchronized` is state_already_synchronized.
unfoldable pub chan_events : ℕ → Bool → List ChannelEntry → Channels → Channels
chan_events first synchronized [] s = s
chan_events first synchronized (e ∷ es) s =
    let after = record s { calls = s.calls ++ (e.radio, s.radar) ∷ [] } in
    let radar : Radar = record { last = some (e.channel, bytes "1"); timestamp = first } in
    elim (e.event) [
      | channels_changed ↦
          (if synchronized then chan_events first true es s else chan_events first true es after)
      | radar_detected ↦
          chan_events first synchronized es
            (record s { radar = radar; calls = s.calls ++ (e.radio, radar) ∷ [] })
      | unknown_event ↦ chan_events first synchronized es s
    ]

abbrev first_time : List ChannelEntry → ℕ
first_time [] = 0
first_time (e ∷ es) = e.tv_sec

-- The end of chan_event_cb, without the lock.
unfoldable pub chan_event_wake : Channels → Channels
unfolding wake
chan_event_wake s = record s { queue = wake s.queue }

-- The callback first empties the queue under the lock, and then handles what it held; the event
-- loop runs it if it is pending.
unfoldable pub chan_event_async_cb : Channels → Channels
unfolding chan_events
chan_event_async_cb s =
    let es = s.queue.entries in
    let q = record (s.queue) { entries = []; len = 0; pending = false } in
    (if (s.queue).pending then chan_events (first_time es) false es (record s { queue = q }) else s)

-- The part of target_radio_config_init2 that sets up the queue, once.
unfoldable pub chan_event_init : Channels → Channels
chan_event_init s =
    if s.registered then s else record s { registered = true; queue = start s.queue }
