-- ===== src/Target.antt =====
-- The start and the end of a manager, src/lib/target/src/target.c.
pub mod Life
mod Tests
use opensync_platform_rdk.Common.{Bool, true, false, if◌then◌else◌}
use opensync_platform_rdk.Sync.Types.{wm, cm, State}
use opensync_platform_rdk.Sync.{sync_init, sync_cleanup}

-- target_init_opt_t; `mgr_other` stands for the values that the switches do not name.
pub data Opt : Type 0 where
  mgr_sm mgr_wm mgr_cm mgr_bm mgr_other : Opt

-- Whether the unit answers, whether the HAL gives its capabilities, and the configuration.
pub record UnitInfo : Type 0 where
  pub serial : Bool
  pub id : Bool
  pub model : Bool
  pub platform_version : Bool
  pub extender : Bool
  pub hal_capability : Bool
  pub disable_sync : Bool

-- wifihal_evloop is set or not; the statics of sync.c; and whether the interface map was closed.
pub record Target : Type 0 where
  pub evloop : Bool
  pub sync : State
  pub map_closed : Bool

unfoldable pub target_ready : UnitInfo → Target → Target × Bool
target_ready u t =
    if u.serial
    then (if u.id
        then (if u.model
            then (if u.extender
                then (record t { evloop = true }, true)
                else (if u.platform_version
                    then (record t { evloop = true }, true)
                    else (t, false)))
            else (t, false))
        else (t, false))
    else (t, false)

-- The switch of target_init.
unfoldable pub start_sync : Bool → Opt → State → State
start_sync disabled mgr_wm s = if disabled then s else sync_init wm false s
start_sync disabled mgr_cm s = if disabled then s else sync_init cm true s
start_sync disabled opt s = s

unfoldable pub target_init : UnitInfo → Opt → Target → Target × Bool
target_init u opt t =
    if u.hal_capability
    then (record t { evloop = true; sync = start_sync u.disable_sync opt t.sync }, true)
    else (record t { evloop = true }, false)

-- The switch of target_close: only the wireless manager stops the client of the mesh agent.
unfoldable pub stop_sync : Bool → Opt → State → State
stop_sync disabled mgr_wm s = if disabled then s else (sync_cleanup s).0
stop_sync disabled opt s = s

unfoldable pub target_close : UnitInfo → Opt → Target → Target × Bool
target_close u opt t =
    (record t { sync = stop_sync u.disable_sync opt t.sync; map_closed = true }, true)
