-- ===== src/Vif/EventOrder.antt =====
-- That the calls are those of the events, in order: src/lib/target/src/multi_ap.c and the stations of
-- src/lib/target/src/vif.c.
use opensync_platform_rdk.Common.{
  Option, some, inl, inr, Option-cases, CString, sym, subst, ◌++◌, ℕ, ◌≡◌, refl, ap, ◌∙◌, List, [],
  ◌∷◌, arith,
}
use opensync_platform_rdk.HalQueue.{unset, start, wake, drain, dispatch}
use opensync_platform_rdk.HalQueue.Order.{
  Action, History, begun, begun-InOrder, run-InOrder, act, run,
}
use opensync_platform_rdk.Common.Told.{Told, TellsOnce, none-some}
use opensync_platform_rdk.HalQueue.Collected.{collected, drain-collected, collected-Told}
use opensync_platform_rdk.Vif.Types.{Kconfig, VifHal}
use opensync_platform_rdk.Vif.State.{vif_get_radio_ifname, vif_state_get}
use opensync_platform_rdk.Vif.Events.{
  multi_ap_vif_state_update, StateCall, Updates, hal_cb, hal_async_cb,
}

module _ (update : ℕ → List StateCall) where
  unfoldable pub updates_act : Action ℕ → Updates → Updates
  unfolding hal_cb hal_async_cb
  updates_act (Action.arrives i) s = (hal_cb i s).0
  updates_act Action.wakes s = record s { queue = wake s.queue }
  updates_act Action.turn s = hal_async_cb update s

  unfoldable pub updates_run : List (Action ℕ) → Updates → Updates
  unfolding updates_act
  updates_run [] s = s
  updates_run (a ∷ rest) s = updates_run rest (updates_act a s)

  abbrev pub seen_by : History ℕ → Updates
  seen_by h = record { queue = h.queue; calls = collected update h.handled }

  act-seen : (a : Action ℕ) (h : History ℕ) → updates_act a (seen_by h) ≡ seen_by (act a h)
  unfolding updates_act hal_cb hal_async_cb act dispatch drain
  act-seen (Action.arrives i) h = refl
  act-seen Action.wakes h = refl
  act-seen Action.turn h =
      ground (arith, drain-collected update h.queue.entries h.handled h.queue.len)

  run-seen :
      (actions : List (Action ℕ)) (h : History ℕ)
      → updates_run actions (seen_by h) ≡ seen_by (run actions h)
  unfolding updates_run run
  run-seen [] h = refl
  run-seen (a ∷ rest) h = ap (updates_run rest) (act-seen a h) ∙ run-seen rest (act a h)

module _ (kc : Kconfig) (hal : VifHal) (key_ids : ℕ → CString) (ap_name : ℕ → Option CString) where
  -- The report that is due after an event of interface i: the HAL knows the interface's name, the
  -- name of its radio and its state, which are what is reported.
  pub record DueReport (i : ℕ) (call : StateCall) : Type 0 where
    pub ifname : CString
    pub named : ap_name i ≡ some ifname
    pub radio : vif_get_radio_ifname hal i ≡ some call.1
    pub state : vif_state_get kc hal key_ids i ≡ some call.0

  update-Due : (i : ℕ) → TellsOnce DueReport i (multi_ap_vif_state_update kc hal key_ids ap_name i)
  unfolding multi_ap_vif_state_update
  update-Due i = elim (Option-cases (ap_name i)) [
    | inl e ↦ inr (λ u d. none-some e d.named, rw (multi_ap_vif_state_update, e) refl)
    | inr (n, e) ↦ elim (Option-cases (vif_get_radio_ifname hal i)) [
      | inl f ↦ inr (λ u d. none-some f d.radio, rw (multi_ap_vif_state_update, e, f) refl)
      | inr (r, f) ↦ elim (Option-cases (vif_state_get kc hal key_ids i)) [
        | inl g ↦ inr (λ u d. none-some g d.state, rw (multi_ap_vif_state_update, e, f, g) refl)
        | inr (st, g) ↦ inl (
          (st, r),
          record { ifname = n; named = e; radio = f; state = g },
          rw (multi_ap_vif_state_update, e, f, g) refl,
        )
      ]
    ]
  ]

  -- From the initialisation of the queue of multi_ap.c on, however the steps of the HAL's callbacks
  -- and the turns of the event loop interleave: the events that the callback took are those handled
  -- followed by those in the queue, and the reports are, in the order of the handled events, one
  -- for each event of an interface whose name, radio and state the HAL tells, with this state and
  -- radio, and no others.
  pub updates_run-Told :
      (actions : List (Action ℕ))
      → let s =
          updates_run
            (multi_ap_vif_state_update kc hal key_ids ap_name)
            actions
            (record { queue = start unset; calls = [] }) in
        let h = run actions begun in
        (h.handled ++ s.queue.entries ≡ h.accepted) × Told DueReport h.handled s.calls
  unfolding collected
  updates_run-Told actions =
      let update = multi_ap_vif_state_update kc hal key_ids ap_name in
      let same = run-seen update actions begun in
      let v = run-InOrder actions begun begun-InOrder in
      (
        ap (λ s. (run actions begun).handled ++ s.queue.entries) same ∙ v.fifo,
        subst (λ s. Told DueReport (run actions begun).handled s.calls) (sym same)
            (collected-Told DueReport update update-Due (run actions begun).handled),
      )
