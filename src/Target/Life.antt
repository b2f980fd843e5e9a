-- ===== src/Target/Life.antt =====
-- That a wireless manager leaves nothing of the client of the mesh agent behind.
use opensync_platform_rdk.Common.{◌≡◌, Bool-cases, false, [], none, inl, inr}
use opensync_platform_rdk.Sync.Types.{wm, State}
use opensync_platform_rdk.Sync.Connection.{Sound, link, Reach, Step, Reach-Sound, cleanup-down}
use opensync_platform_rdk.Target.{
  mgr_wm, UnitInfo, Target, start_sync, target_init, target_close, stop_sync,
}

init-Sound :
    (u : UnitInfo) (t : Target)
    → u.disable_sync ≡ false
    → Sound (link t.sync)
    → Sound (link (target_init u mgr_wm t).0.sync)
unfolding target_init start_sync
init-Sound u t on v = elim (Bool-cases u.hal_capability) [
  | inl e ↦ rw (e, on, target_init) (Reach-Sound v (Reach.next Reach.here (Step.starts wm false)))
  | inr e ↦ rw (e, target_init) v
]

-- A wireless manager with the client of the mesh agent that is initialised from a sound state and
-- later closed, whatever steps the client takes in between: no descriptor is open at the end, nothing is
-- watched, no timer runs, and the client is not initialised.
pub init_close-down :
    (u : UnitInfo) (t : Target) (s : State)
    → u.disable_sync ≡ false
    → Sound (link t.sync)
    → Reach (target_init u mgr_wm t).0.sync s
    → let c = (target_close u mgr_wm (record (target_init u mgr_wm t).0 { sync = s })).0.sync in
      (c.fd ≡ none)
      × (c.io ≡ false)
      × (c.sockets ≡ [])
      × (c.timer ≡ false)
      × (c.initialized ≡ false)
unfolding target_init target_close start_sync stop_sync
init_close-down u t s on v steps = rw on (cleanup-down s (Reach-Sound (init-Sound u t on v) steps))
