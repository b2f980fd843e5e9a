-- ===== src/Wps/Tests.antt =====
-- Tests of wps.c, and its theorem at a concrete input.
use opensync_platform_rdk.Common.{◌≡◌, ◌++◌, refl, true, false, List, [], ◌∷◌, none, some, bytes}
use opensync_platform_rdk.HalQueue.{unset, push, wake, drain_loop, drain, dispatch, start}
use opensync_platform_rdk.HalQueue.Order.{Action, begun, run}
use opensync_platform_rdk.Common.Told.{Told}
use opensync_platform_rdk.Wps.{
  WpsEvent, Entry, cancel, enable, Hal, radio_ifname_from_ssid_idx, wps_pbc_vif_state_update,
  ends_session, event_updates, wps_hal_cb, wps_hal_async_cb, enable_calls, vif_config_set_wps,
}
use opensync_platform_rdk.Wps.Updates.{wps_act, wps_run, Due, wps_run-Told}

abbrev hal : Hal
hal = record {
  get_ap_name = λ i. some (bytes "wl0");
  ssid_radio_index = λ i. some 0;
  radio_if_name = λ i. some (bytes "wifi0");
  wps_enable = λ i. some true;
  button_status = λ i. some WpsEvent.active;
  key_id = λ i. none;
  accepts = λ c. false;
}

abbrev actions : List (Action Entry)
actions =
    Action.arrives (record { ssid_index = 0; event = WpsEvent.active })
    ∷ Action.arrives (record { ssid_index = 0; event = WpsEvent.success })
    ∷ Action.wakes
    ∷ Action.turn
    ∷ []

-- Of the two events only the one that ends the session gives an update.
one_update :
    (wps_run hal actions (record { queue = start unset; updates = [] })).updates
    ≡ (bytes "wl0", bytes "wifi0") ∷ []
unfolding wps_run wps_act wps_hal_cb wps_hal_async_cb event_updates ends_session
    wps_pbc_vif_state_update radio_ifname_from_ssid_idx push wake drain_loop drain dispatch start
one_update = refl

wps_run-Told_example :
    let s = wps_run hal actions (record { queue = start unset; updates = [] }) in
    let h = run actions begun in
    (h.handled ++ s.queue.entries ≡ h.accepted) × Told (Due hal) h.handled s.updates
wps_run-Told_example = wps_run-Told hal actions

-- A HAL that refuses to enable WPS is asked nothing more, yet the configuration is cleared.
refused :
    vif_config_set_wps hal 3 true true (bytes "key") true ≡ (cancel 3 ∷ enable 3 true ∷ [], true)
unfolding vif_config_set_wps enable_calls
refused = refl
