-- ===== src/Vif/Tests.antt =====
-- The theorems on interfaces at concrete inputs.
use opensync_platform_rdk.Common.{
  ◌++◌, ℕ, Bool, true, false, List, [], ◌∷◌, none, some, if◌then◌else◌, ◌≡◌, refl, arith, CString,
  bytes, str_eq,
}
use opensync_platform_rdk.HalQueue.{unset, start}
use opensync_platform_rdk.HalQueue.Order
use opensync_platform_rdk.HalQueue.Order.{Action, History, begun}
use opensync_platform_rdk.Common.Told.{Told}
use opensync_platform_rdk.Vif.Events.{multi_ap_vif_state_update}
use opensync_platform_rdk.Vif.EventOrder.{updates_run, DueReport, updates_run-Told}
use opensync_platform_rdk.Vif.Types.{
  wpa2_personal, mfp_optional, white_list, vap_ap, VapInfo, no_row, VifState, Flags, Kconfig,
  VifHal, VifCall, del_acl, add_acl,
}
use opensync_platform_rdk.Vif.Acl.{
  in_list, apply_list, get_acl_list, strtok, tokens_from, acl_buf_to_acl_list,
  remove_not_needed_acls, add_needed_acls,
}
use opensync_platform_rdk.Vif.Acl.Applied.{AclStore, listed, run}
use opensync_platform_rdk.Vif.State.{
  no_state, ap_state, vif_copy_to_config, vap_of_index, vif_ap_state_get, get_channel,
  vif_state_get, ssid_index_to_vap_info,
}
use opensync_platform_rdk.Vif.Config.{VifChange, vif_ap_config_set2}
use opensync_platform_rdk.Vif.Deferred.{Deferred, asks, expires}
use opensync_platform_rdk.Vif.Deferred.Settled.{Kept, count, settled, turns, turns-Kept}
use opensync_platform_rdk.Vif.Resync.{resync-vap}

abbrev mac_a : CString
mac_a = bytes "00:11:22:33:44:55"

abbrev mac_b : CString
mac_b = bytes "66:77:88:99:aa:bb"

abbrev vap : VapInfo
vap = record {
  vap_index = 0;
  vap_name = bytes "wl0";
  radio_index = 0;
  bridge_name = bytes "brlan0";
  vap_mode = vap_ap;
  bss = record {
    enabled = true;
    ssid = bytes "home";
    isolation = false;
    show_ssid = true;
    nbr_report = true;
    bss_transition = false;
    uapsd = true;
    mcast2ucast = false;
    mode = wpa2_personal;
    mfp = mfp_optional;
    key = bytes "secret";
    radius_ip = [];
    radius_port = 0;
    radius_key = [];
    filter_enable = true;
    filter_mode = white_list;
    bssid = mac_a;
  };
  sta = record {
    enabled = false;
    ssid = [];
    bssid = [];
    mac = [];
    channel = 0;
    mode = wpa2_personal;
    key = [];
  };
}

abbrev kconfig : Kconfig
kconfig = record {
  multi_psk = false;
  disable_sync = false;
  sync_ext_home_acls = false;
  wps_support = false;
  multi_ap_support = false;
  update_delay = 3;
  home_ifnames = [];
}

abbrev hal : VifHal
hal = record {
  ssid_radio_index = λ i. some 0;
  radio_if_name = λ i. some (bytes "wifi0");
  vap_info_map = λ i. some (vap ∷ []);
  radio_channel = λ i. some 36;
  acl_device_num = λ i. some 1;
  acl_devices = λ i. some (listed (mac_a ∷ []));
  multi_psk_keys = λ i. none;
  accepts = λ c. true;
  interface_map = some ((bytes "wl0", 0) ∷ []);
  radio_caps = none;
  unmap_ifname = λ s. s;
  wps = record {
    get_ap_name = λ i. none;
    ssid_radio_index = λ i. none;
    radio_if_name = λ i. none;
    wps_enable = λ i. none;
    button_status = λ i. none;
    key_id = λ i. none;
    accepts = λ c. true;
  };
  multi_ap = record { device_type = λ i. none; vlan_sta_addr = λ i. none; is_ap_vlan = λ i. none };
}

-- An access list by the test for an address.
abbrev acl_step : VifCall → (CString → Bool) → CString → Bool
acl_step (del_acl i m) s x = if str_eq x m then false else s x
acl_step (add_acl i m) s x = if str_eq x m then true else s x
acl_step c s x = s x

abbrev store : AclStore (CString → Bool)
store = record {
  member = λ x s. s x;
  step = acl_step;
  member-del = λ i m x s. refl;
  member-add = λ i m x s. refl;
}

-- The calls: the old address is deleted, and the new one added.
apply_list_calls : apply_list hal 0 (mac_b ∷ []) ≡ del_acl 0 mac_a ∷ add_acl 0 mac_b ∷ []
unfolding apply_list get_acl_list strtok tokens_from acl_buf_to_acl_list remove_not_needed_acls
    add_needed_acls in_list
apply_list_calls = refl

abbrev key_ids : ℕ → CString
key_ids i = bytes "key"

abbrev state : VifState
state =
    ap_state kconfig hal key_ids vap
      (record no_state { row = record no_row { if_name = some (bytes "wl0") }; channel = some 36 })

-- All columns that the copy sets are marked as changed.
abbrev flags : Flags
flags = record {
  enabled = true;
  wpa = true;
  wpa_key_mgmt = true;
  pairwise = true;
  pmf = true;
  wpa_psks = true;
  ap_bridge = true;
  rrm = true;
  btm = true;
  uapsd_enable = false;
  ssid_broadcast = true;
  ssid = true;
  bridge = true;
  mac_list_type = true;
  mac_list = true;
  wps = false;
  multi_ap = false;
  mcast2ucast = false;
}

abbrev change : VifChange
change = record { vap = vap; trigger = false; statics = record { key_ids = key_ids; calls = [] } }

resync-vap_example :
    (c : VifChange) × (vif_ap_config_set2 kconfig hal 0
        (vif_copy_to_config (state.row))
        flags
        change
      ≡ some c)
    × (c.vap ≡ vap)
unfolding vif_state_get ssid_index_to_vap_info vap_of_index vif_ap_state_get get_channel
resync-vap_example =
    resync-vap kconfig hal key_ids 0 vap state flags change refl refl (λ e. ground (arith, e)) refl
      refl refl refl

abbrev no_updates : Deferred
no_updates = record { init_done = false; queue = []; trace = [] }

no_updates-Kept : Kept no_updates
unfolding count settled
no_updates-Kept = record { once = λ i. omega arith; served = λ i h. refl; before = λ h. refl }

turns-Kept_example : Kept (turns (asks 2 ∷ asks 5 ∷ asks 2 ∷ expires 2 ∷ []) no_updates)
turns-Kept_example =
    turns-Kept (asks 2 ∷ asks 5 ∷ asks 2 ∷ expires 2 ∷ []) no_updates no_updates-Kept

abbrev started : History ℕ
started = record { queue = start unset; handled = []; accepted = [] }

abbrev two_events : List (Action ℕ)
two_events = Action.arrives 0 ∷ Action.arrives 1 ∷ Action.wakes ∷ Action.turn ∷ []

updates_run-Told_example :
    let s =
      updates_run
        (multi_ap_vif_state_update kconfig hal key_ids (λ i. some (bytes "wl0")))
        two_events
        (record { queue = start unset; calls = [] }) in
    let h = Order.run two_events begun in
    (h.handled ++ s.queue.entries ≡ h.accepted)
    × Told (DueReport kconfig hal key_ids (λ i. some (bytes "wl0"))) h.handled s.calls
updates_run-Told_example = updates_run-Told kconfig hal key_ids (λ i. some (bytes "wl0")) two_events
