-- ===== src/Wps.antt =====
-- Wi-Fi Protected Setup, src/lib/target/src/wps.c: the events of the HAL, the state of an interface
-- and its configuration. The queue of the events is HalQueue.
pub mod Updates
mod Tests
use opensync_platform_rdk.Common.{
  ℕ, Bool, true, false, ◌||◌, List, [], ◌∷◌, ◌++◌, Option, none, some, if◌then◌else◌, take, CString,
  bytes,
}
use opensync_platform_rdk.HalQueue.{Queue, push, dispatch, start}

-- The values of wifi_wps_t that the code names, and the others.
pub data WpsEvent : Type 0 where
  timeout success disable active overlap event_other : WpsEvent

-- wps_event_t
pub record Entry : Type 0 where
  pub ssid_index : ℕ
  pub event : WpsEvent

-- A call that changes the HAL.
pub data Call : Type 0 where
  cancel : ℕ → Call
  enable : ℕ → Bool → Call
  methods : ℕ → CString → Call
  button_push : ℕ → CString → Call

-- The answers of the HAL; `none` and `false` are answers other than RETURN_OK.
pub record Hal : Type 0 where
  pub get_ap_name : ℕ → Option CString
  pub ssid_radio_index : ℕ → Option ℕ
  pub radio_if_name : ℕ → Option CString
  pub wps_enable : ℕ → Option Bool
  pub button_status : ℕ → Option WpsEvent
  pub key_id : ℕ → Option CString
  pub accepts : Call → Bool

-- A call of radio_rops_vstate that sets wps_pbc to false: the interface and the radio.
abbrev pub Update : Type 0
Update = CString × CString

-- The statics of the file, and the updates so far.
pub record State : Type 0 where
  pub queue : Queue Entry
  pub updates : List Update

unfoldable pub radio_ifname_from_ssid_idx : Hal → ℕ → Option CString
radio_ifname_from_ssid_idx hal ssid_index = elim (hal.ssid_radio_index ssid_index) [
  | none ↦ none
  | some radio_index ↦ hal.radio_if_name radio_index
]

unfoldable pub wps_pbc_vif_state_update : Hal → Entry → List Update
wps_pbc_vif_state_update hal cbe = elim (hal.get_ap_name cbe.ssid_index) [
  | none ↦ []
  | some ifname ↦ elim (radio_ifname_from_ssid_idx hal cbe.ssid_index) [
    | none ↦ []
    | some radio_ifname ↦ (ifname, radio_ifname) ∷ []
  ]
]

-- The events that end a push-button session.
unfoldable pub ends_session : WpsEvent → Bool
ends_session WpsEvent.timeout = true
ends_session WpsEvent.success = true
ends_session WpsEvent.disable = true
ends_session e = false

-- A turn of the loop of wps_hal_async_cb: the updates that an event sets off.
unfoldable pub event_updates : Hal → Entry → List Update
event_updates hal cbe = elim (hal.get_ap_name cbe.ssid_index) [
  | none ↦ []
  | some ifname ↦ if ends_session cbe.event then wps_pbc_vif_state_update hal cbe else []
]

-- As far as it holds the lock; the wake-up that follows is `wake`.
unfoldable pub wps_hal_cb : Entry → State → State × Bool
wps_hal_cb e s = let r = push e s.queue in (record s { queue = r.0 }, r.1)

-- The event loop runs wps_hal_async_cb if it is pending.
unfoldable pub wps_hal_async_cb : Hal → State → State
wps_hal_async_cb hal s =
    let r = dispatch (λ e out. out ++ event_updates hal e) s.queue s.updates in
    record s { queue = r.0; updates = r.1 }

-- `evloop` is whether wifihal_evloop is set.
unfoldable pub wps_hal_init : Bool → State → State
wps_hal_init evloop s =
    if s.queue.loop then s else if evloop then record s { queue = start s.queue } else s

-- The three fields that wps_to_state sets, `none` for one that it leaves.
unfoldable pub wps_to_state : Hal → ℕ → Option Bool × Option Bool × Option CString
wps_to_state hal ssid_index = (
  hal.wps_enable ssid_index,
  elim (hal.button_status ssid_index) [
    | none ↦ none
    | some WpsEvent.active ↦ some true
    | some _ ↦ some false
  ],
  hal.key_id ssid_index,
)

-- The part of vif_config_set_wps that runs while WPS is to be enabled: the calls, in order. The
-- key id is copied as 64 bytes.
unfoldable pub enable_calls : Hal → ℕ → Bool → CString → List Call
enable_calls hal i pbc key_id =
    cancel i
    ∷ enable i true
    ∷ (if hal.accepts (enable i true)
        then methods i (bytes "PushButton")
          ∷ (if hal.accepts (methods i (bytes "PushButton"))
              then (if pbc then button_push i (take 64 key_id) ∷ [] else [])
              else [])
        else [])

-- vif_config_set_wps: the calls, and whether the configuration's wps_pbc is cleared at the end.
unfoldable pub vif_config_set_wps : Hal → ℕ → Bool → Bool → CString → Bool → List Call × Bool
vif_config_set_wps hal i wps pbc key_id changed =
    if changed then (if wps then enable_calls hal i pbc key_id else [], true) else ([], false)
