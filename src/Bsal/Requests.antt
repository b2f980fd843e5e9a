-- ===== src/Bsal/Requests.antt =====
-- The requests to clients and the action frames of src/lib/target/src/bsal.c.
mod Tests
use opensync_platform_rdk.Common.{
  ℕ, suc, ◌+◌, ◌*◌, ◌≡◌, refl, Bool, true, false, List, [], ◌∷◌, Option, none, some, if◌then◌else◌,
  ◌==◌, ltb, CString, length, replicate, strscpy, arith,
}
use opensync_platform_rdk.Bsal.Types.{Iface, NeighInfo}
use opensync_platform_rdk.Bsal.{group_get_iface_by_name}

-- The sizes that the headers of the HAL and of the core give: MAX_CANDIDATES, the array for an
-- SSID, BSAL_MAX_ACTION_FRAME_LEN, and the name of an interface in an event.
pub record Sizes : Type 0 where
  pub max_candidates : ℕ
  pub ssid : ℕ
  pub max_action_frame : ℕ
  pub ifname : ℕ

-- bsal_btm_params_t; abridged and disassoc_imminent are 0 or 1.
pub record BtmParams : Type 0 where
  pub bss_term : ℕ
  pub abridged : Bool
  pub disassoc_imminent : Bool
  pub valid_int : ℕ
  pub neigh : List NeighInfo

-- A candidate of wifi_BTMRequest_t: the fields of the neighbor, `info` and the preference.
pub record Candidate : Type 0 where
  pub bssid : CString
  pub info : ℕ
  pub op_class : ℕ
  pub channel : ℕ
  pub phy_table : ℕ
  pub preference : ℕ

-- wifi_BTMRequest_t
pub record BtmRequest : Type 0 where
  pub token : ℕ
  pub request_mode : ℕ
  pub tsf : ℕ
  pub term_duration : ℕ
  pub validity_interval : ℕ
  pub candidates : List Candidate

-- The turns of the loop over the neighbors.
unfoldable pub btm_candidates : List NeighInfo → List Candidate
btm_candidates [] = []
btm_candidates (n ∷ ns) =
    record {
      bssid = n.bssid;
      info = 1;
      op_class = n.op_class;
      channel = n.channel;
      phy_table = n.phy_type;
      preference = 1;
    }
    ∷ btm_candidates ns

abbrev bit : Bool → ℕ
bit b = if b then 1 else 0

-- bss_term is compared with true, which is 1; the bits of request_mode are distinct, so that the
-- sum is their bitwise or.
unfoldable pub btm_request : BtmParams → BtmRequest
unfolding btm_candidates
btm_request p =
    let term = p.bss_term == 1 in
    record {
      token = 16;
      request_mode = 1 + 2 * bit p.abridged + 4 * bit p.disassoc_imminent + 8 * bit term;
      tsf = 0;
      term_duration = bit term;
      validity_interval = p.valid_int;
      candidates = btm_candidates p.neigh;
    }

-- The call of wifi_setBTMRequest (access point, client, request), if it comes to it, and the
-- result; `none` if the assertion fails.
unfoldable pub target_bsal_bss_tm_request :
    Sizes
    → (ℕ → CString → BtmRequest → Bool)
    → CString
    → CString
    → BtmParams
    → List Iface
    → Option (Option (ℕ × CString × BtmRequest) × Bool)
unfolding btm_request
target_bsal_bss_tm_request sizes accepts ifname mac p ifaces =
    elim (group_get_iface_by_name ifname ifaces) [
      | none ↦ some (none, false)
      | some i ↦
          let ap = i.wifihal_cfg.ap_index in
          let req = btm_request p in
          (if ltb (length p.neigh) sizes.max_candidates
            then some (some (ap, mac, req), accepts ap mac req)
            else none)
    ]

-- bsal_rrm_params_t
pub record RrmParams : Type 0 where
  pub op_class : ℕ
  pub meas_mode : ℕ
  pub channel : ℕ
  pub rand_ivl : ℕ
  pub meas_dur : ℕ
  pub req_ssid : ℕ

-- wifi_BeaconRequest_t
pub record BeaconRequest : Type 0 where
  pub op_class : ℕ
  pub mode : ℕ
  pub channel : ℕ
  pub randomization_interval : ℕ
  pub num_repetitions : ℕ
  pub duration : ℕ
  pub ssid_present : Bool
  pub ssid : CString
  pub bssid : CString

unfoldable pub beacon_request : Sizes → RrmParams → CString → BeaconRequest
beacon_request sizes p vap_ssid =
    let ssid = if p.req_ssid == 1 then strscpy sizes.ssid vap_ssid else [] in
    record {
      op_class = p.op_class;
      mode = p.meas_mode;
      channel = p.channel;
      randomization_interval = p.rand_ivl;
      num_repetitions = 1;
      duration = p.meas_dur;
      ssid_present = ltb 0 (length ssid);
      ssid = ssid;
      bssid = replicate 6 255;
    }

-- The call of wifi_setRMBeaconRequest and the result. `vap_ssid` is the SSID that ssid_index_to_vap_info finds for an access point.
unfoldable pub target_bsal_rrm_beacon_report_request :
    Sizes
    → (ℕ → Option CString)
    → (ℕ → CString → BeaconRequest → Bool)
    → CString
    → CString
    → RrmParams
    → List Iface
    → Option (ℕ × CString × BeaconRequest) × Bool
unfolding beacon_request
target_bsal_rrm_beacon_report_request sizes vap_ssid accepts ifname mac p ifaces =
    elim (group_get_iface_by_name ifname ifaces) [
      | none ↦ (none, false)
      | some i ↦
          let ap = i.wifihal_cfg.ap_index in
          elim (vap_ssid ap) [
            | none ↦ (none, false)
            | some ssid ↦
                let req = beacon_request sizes p ssid in (some (ap, mac, req), accepts ap mac req)
          ]
    ]

-- The action frame of a BSAL_EVENT_ACTION_FRAME: data.action_frame is `payload`.
pub record ActionFrame : Type 0 where
  pub ifname : CString
  pub payload : CString

-- The event that goes to the core, and whether the result is RETURN_OK. `is_action` is the type
-- WIFI_MGMT_FRAME_TYPE_ACTION, `uplink` the direction, `ap_name` wifi_getApName of the access point.
unfoldable pub mgmt_frame_cb :
    Sizes → Option CString → CString → Bool → Bool → Option ActionFrame × Bool
mgmt_frame_cb sizes ap_name frame is_action uplink =
    if is_action
    then (if uplink
        then (if ltb (length frame) sizes.max_action_frame
            then elim ap_name [
              | none ↦ (none, false)
              | some name ↦
                  (some (record { ifname = strscpy sizes.ifname name; payload = frame }), true)
            ]
            else (none, false))
        else (none, true))
    else (none, true)

-- The list of a request has as many candidates as the parameters have neighbors.
length-btm_candidates : (ns : List NeighInfo) → length (btm_candidates ns) ≡ length ns
unfolding btm_candidates
length-btm_candidates [] = refl
length-btm_candidates (n ∷ ns) = ground (arith, length-btm_candidates ns)
