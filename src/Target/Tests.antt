-- ===== src/Target/Tests.antt =====
-- The theorem on the start and the end of a manager at a concrete input.
use opensync_platform_rdk.Common.{◌≡◌, refl, true, false, [], none, inl}
use opensync_platform_rdk.Sync.Types.{wm, unknown}
use opensync_platform_rdk.Sync.Connection.{Reach}
use opensync_platform_rdk.Target.{mgr_wm, UnitInfo, Target, target_init, target_close}
use opensync_platform_rdk.Target.Life.{init_close-down}

abbrev unit_info : UnitInfo
unit_info = record {
  serial = true;
  id = true;
  model = true;
  platform_version = true;
  extender = false;
  hal_capability = true;
  disable_sync = false;
}

abbrev boot : Target
boot = record {
  evloop = false;
  sync = record {
    initialized = false;
    mgr = wm;
    has_callback = false;
    fd = none;
    timer = false;
    io = false;
    sockets = [];
    cloud_mode = unknown;
    resync_ongoing = false;
    effects = [];
  };
  map_closed = false;
}

init_close-down_example :
    let s = (target_init unit_info mgr_wm boot).0.sync in
    let c =
      (target_close unit_info mgr_wm
        (record (target_init unit_info mgr_wm boot).0 { sync = s })).0.sync in
    (c.fd ≡ none) × (c.io ≡ false) × (c.sockets ≡ []) × (c.timer ≡ false) × (c.initialized ≡ false)
init_close-down_example =
    init_close-down unit_info boot (target_init unit_info mgr_wm boot).0.sync refl
      (inl (refl, refl, refl, refl)) Reach.here
