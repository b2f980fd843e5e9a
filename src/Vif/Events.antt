-- ===== src/Vif/Events.antt =====
-- The updates of interfaces after events of the HAL: of Multi-AP, src/lib/target/src/multi_ap.c, and
-- of stations in an extender, src/lib/target/src/vif.c. Both are over the queue of HalQueue.
use opensync_platform_rdk.Common.{
  ℕ, Bool, List, [], ◌∷◌, ◌++◌, Option, none, some, if◌then◌else◌, CString,
}
use opensync_platform_rdk.HalQueue.{Queue, push, dispatch, start}
use opensync_platform_rdk.Vif.Types.{VifState, Kconfig, VifHal}
use opensync_platform_rdk.Vif.State.{
  vif_get_radio_ifname, vif_state_get, vif_state_update, ssid_index_to_vap_info,
}

-- A call of radio_rops_vstate: the row and the radio.
abbrev pub StateCall : Type 0
StateCall = VifState × CString

-- multi_ap_vif_state_update, for an interface whose name wifi_getApName gives or not.
unfoldable pub multi_ap_vif_state_update :
    Kconfig → VifHal → (ℕ → CString) → (ℕ → Option CString) → ℕ → List StateCall
unfolding vif_get_radio_ifname vif_state_get
multi_ap_vif_state_update kc hal key_ids ap_name i = elim (ap_name i) [
  | none ↦ []
  | some ifname ↦ elim (vif_get_radio_ifname hal i) [
    | none ↦ []
    | some radio ↦ elim (vif_state_get kc hal key_ids i) [ none ↦ [] | some st ↦ (st, radio) ∷ [] ]
  ]
]

-- The turn of the loop of vif_sta_update_async_cb for a station of interface i.
unfoldable pub vif_sta_update : Kconfig → VifHal → (ℕ → CString) → ℕ → List StateCall
unfolding ssid_index_to_vap_info vif_state_update
vif_sta_update kc hal key_ids i = elim (ssid_index_to_vap_info hal i) [
  | none ↦ []
  | some v ↦ elim (vif_state_update kc hal key_ids i) [ none ↦ [] | some call ↦ call ∷ [] ]
]

-- The statics of a file with such a queue, and the calls so far. An event is the index of its
-- interface: the rest of it is only logged.
pub record Updates : Type 0 where
  pub queue : Queue ℕ
  pub calls : List StateCall

-- multi_ap_hal_cb and vif_sta_update_cb, as far as they hold the lock; the wake-up that follows is `wake`.
unfoldable pub hal_cb : ℕ → Updates → Updates × Bool
unfolding push
hal_cb i s = let (q, taken) = push i s.queue in (record s { queue = q }, taken)

-- multi_ap_hal_async_cb and vif_sta_update_async_cb, with what they do for an event.
unfoldable pub hal_async_cb : (ℕ → List StateCall) → Updates → Updates
unfolding dispatch
hal_async_cb update s =
    let (q, calls) = dispatch (λ i out. out ++ update i) s.queue s.calls in
    record s { queue = q; calls = calls }

-- multi_ap_hal_init; `evloop` is whether wifihal_evloop is set.
unfoldable pub multi_ap_hal_init : Bool → Updates → Updates
multi_ap_hal_init evloop s =
    if s.queue.loop then s else if evloop then record s { queue = start s.queue } else s
