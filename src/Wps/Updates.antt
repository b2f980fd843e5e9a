-- ===== src/Wps/Updates.antt =====
-- That the updates are those of the events, in order, and when a button is pushed.
use opensync_platform_rdk.Common.{
  ℕ, ◌⊎◌, Option, CString, Option-cases, some, true, false, inl, inr, sym, subst, ◌++◌, ◌≡◌, refl,
  ap, ◌∙◌, List, [], ◌∷◌, arith,
}
use opensync_platform_rdk.HalQueue.{unset, start, wake, drain, dispatch}
use opensync_platform_rdk.HalQueue.Order.{
  Action, History, begun, begun-InOrder, run-InOrder, act, run,
}
use opensync_platform_rdk.Common.Told.{Told, TellsOnce, none-some}
use opensync_platform_rdk.HalQueue.Collected.{collected, drain-collected, collected-Told}
use opensync_platform_rdk.Wps.{
  WpsEvent, ends_session, wps_pbc_vif_state_update, radio_ifname_from_ssid_idx, Entry, Hal, State,
  Update, event_updates, wps_hal_cb, wps_hal_async_cb,
}

-- The updates of a list of events.
abbrev pub all_updates : Hal → List Entry → List Update
all_updates hal = collected (event_updates hal)

-- One action, and a list of them.
unfoldable pub wps_act : Hal → Action Entry → State → State
wps_act hal (Action.arrives e) s = (wps_hal_cb e s).0
wps_act hal Action.wakes s = record s { queue = wake s.queue }
wps_act hal Action.turn s = wps_hal_async_cb hal s

unfoldable pub wps_run : Hal → List (Action Entry) → State → State
wps_run hal [] s = s
wps_run hal (a ∷ rest) s = wps_run hal rest (wps_act hal a s)

-- The state of wps.c that stands for a history of the queue.
abbrev pub seen : Hal → History Entry → State
seen hal h = record { queue = h.queue; updates = all_updates hal h.handled }

act-seen :
    (hal : Hal) (a : Action Entry) (h : History Entry)
    → wps_act hal a (seen hal h) ≡ seen hal (act a h)
unfolding wps_act wps_hal_cb wps_hal_async_cb act dispatch drain
act-seen hal (Action.arrives e) h = refl
act-seen hal Action.wakes h = refl
act-seen hal Action.turn h =
    ground (arith, drain-collected (event_updates hal) h.queue.entries h.handled h.queue.len)

run-seen :
    (hal : Hal) (actions : List (Action Entry)) (h : History Entry)
    → wps_run hal actions (seen hal h) ≡ seen hal (run actions h)
unfolding wps_run run
run-seen hal [] h = refl
run-seen hal (a ∷ rest) h = ap (wps_run hal rest) (act-seen hal a h) ∙ run-seen hal rest (act a h)

-- The events after which no push-button session is active.
unfoldable pub Ends : WpsEvent → Type 0
Ends WpsEvent.timeout = Unit
Ends WpsEvent.success = Unit
Ends WpsEvent.disable = Unit
Ends WpsEvent.active = ⊥
Ends WpsEvent.overlap = ⊥
Ends WpsEvent.event_other = ⊥

-- The update that is due after an event: the event ends the session, and the HAL knows the name of the
-- interface, its radio, and the radio's name.
pub record Due (hal : Hal) (e : Entry) (u : Update) : Type 0 where
  pub ends : Ends e.event
  pub named : hal.get_ap_name e.ssid_index ≡ some u.0
  pub radio : ℕ
  pub on_radio : hal.ssid_radio_index e.ssid_index ≡ some radio
  pub radio_named : hal.radio_if_name radio ≡ some u.1

ends_session-Ends :
    (v : WpsEvent) → (Ends v × (ends_session v ≡ true)) ⊎ ((Ends v → ⊥) × (ends_session v ≡ false))
unfolding Ends ends_session
ends_session-Ends WpsEvent.timeout = inl (tt, refl)
ends_session-Ends WpsEvent.success = inl (tt, refl)
ends_session-Ends WpsEvent.disable = inl (tt, refl)
ends_session-Ends WpsEvent.active = inr (λ x. x, refl)
ends_session-Ends WpsEvent.overlap = inr (λ x. x, refl)
ends_session-Ends WpsEvent.event_other = inr (λ x. x, refl)

some-some : {A : Type 0} {o : Option A} {a b : A} → o ≡ some a → o ≡ some b → a ≡ b
some-some e f = ground (arith, e, f)

pbc_update-Due :
    (hal : Hal) (e : Entry) (name : CString)
    → Ends e.event
    → hal.get_ap_name e.ssid_index ≡ some name
    → TellsOnce (Due hal) e (wps_pbc_vif_state_update hal e)
unfolding wps_pbc_vif_state_update radio_ifname_from_ssid_idx
pbc_update-Due hal e name ends is = elim (Option-cases (hal.ssid_radio_index e.ssid_index)) [
  | inl no_radio ↦ inr (
    λ u d. none-some no_radio d.on_radio,
    rw (wps_pbc_vif_state_update, is, radio_ifname_from_ssid_idx, no_radio) refl,
  )
  | inr (r, on) ↦ elim (Option-cases (hal.radio_if_name r)) [
    | inl no_ifname ↦ inr (
      λ u d. none-some (ap hal.radio_if_name (some-some d.on_radio on) ∙ no_ifname) d.radio_named,
      rw (wps_pbc_vif_state_update, is, radio_ifname_from_ssid_idx, on, no_ifname) refl,
    )
    | inr (n, known) ↦ inl (
      (name, n),
      record { ends = ends; named = is; radio = r; on_radio = on; radio_named = known },
      rw (wps_pbc_vif_state_update, is, radio_ifname_from_ssid_idx, on, known) refl,
    )
  ]
]

ended_updates :
    (hal : Hal) (e : Entry) (name : CString)
    → hal.get_ap_name e.ssid_index ≡ some name
    → ends_session e.event ≡ true
    → event_updates hal e ≡ wps_pbc_vif_state_update hal e
unfolding event_updates
ended_updates hal e name is t = rw (event_updates, is, t) refl

event_updates-Due : (hal : Hal) (e : Entry) → TellsOnce (Due hal) e (event_updates hal e)
unfolding event_updates
event_updates-Due hal e = elim (Option-cases (hal.get_ap_name e.ssid_index)) [
  | inl no_name ↦ inr (λ u d. none-some no_name d.named, rw (event_updates, no_name) refl)
  | inr (name, is) ↦ elim (ends_session-Ends e.event) [
    | inr (stays, f) ↦ inr (λ u d. stays d.ends, rw (event_updates, is, f) refl)
    | inl (ends, t) ↦
        subst (TellsOnce (Due hal) e) (sym (ended_updates hal e name is t))
          (pbc_update-Due hal e name ends is)
  ]
]

-- From the initialisation on, however the steps of the HAL's callbacks and the turns of the event
-- loop interleave: the events that the callback took are those handled followed by those in the
-- queue, and the updates are, in the order of the handled events, one for each event that ends a
-- push-button session (a timeout, a success, a disabling) of an interface whose name, radio and
-- radio name the HAL knows, with these names, and no others.
pub wps_run-Told :
    (hal : Hal) (actions : List (Action Entry))
    → let s = wps_run hal actions (record { queue = start unset; updates = [] }) in
      let h = run actions begun in
      (h.handled ++ s.queue.entries ≡ h.accepted) × Told (Due hal) h.handled s.updates
unfolding collected
wps_run-Told hal actions =
    let same = run-seen hal actions begun in
    let v = run-InOrder actions begun begun-InOrder in
    (
      ap (λ s. (run actions begun).handled ++ s.queue.entries) same ∙ v.fifo,
      subst (λ s. Told (Due hal) (run actions begun).handled s.updates) (sym same)
          (collected-Told (Due hal) (event_updates hal) (event_updates-Due hal)
            (run actions begun).handled),
    )
