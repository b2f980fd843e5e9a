-- ===== src/Bsal/Requests/Tests.antt =====
-- Tests of the requests to clients of src/lib/target/src/bsal.c.
use opensync_platform_rdk.Common.{
  ℕ, true, false, [], ◌∷◌, none, some, ◌≡◌, refl, CString, bytes, str_dec,
}
use opensync_platform_rdk.Bsal.Types.{Band, Band-discrete, band_24g, band_5g, Iface}
use opensync_platform_rdk.Bsal.{has_band, group_get_iface_by_name}
use opensync_platform_rdk.Bsal.Requests.{
  Sizes, BtmParams, btm_candidates, btm_request, target_bsal_bss_tm_request, RrmParams,
  beacon_request, target_bsal_rrm_beacon_report_request, mgmt_frame_cb,
}

abbrev iface : Band → CString → ℕ → Iface
iface b n i = record {
  band = b;
  bsal_cfg = record {
    ifname = n;
    chan_util_check_sec = 0;
    chan_util_avg_count = 0;
    inact_check_sec = 0;
    inact_tmout_sec_normal = 0;
  };
  wifihal_cfg = record {
    ap_index = i;
    util_check_interval_sec = 0;
    util_avg_count = 0;
    inact_check_interval_sec = 0;
    inact_check_threshold_sec = 0;
  };
}

abbrev sta : CString
sta = bytes "client"

abbrev wl0 : Iface
wl0 = iface band_24g (bytes "wl0") 0

abbrev wl1 : Iface
wl1 = iface band_5g (bytes "wl1") 1

abbrev sizes : Sizes
sizes = record { max_candidates = 64; ssid = 33; max_action_frame = 4; ifname = 17 }

abbrev transition : BtmParams
transition = record {
  bss_term = 1;
  abridged = true;
  disassoc_imminent = false;
  valid_int = 255;
  neigh = [];
}

-- The flags of a request for a transition, and a request with too many neighbors.
transition_flags :
    (target_bsal_bss_tm_request sizes (λ i m r. true) (bytes "wl1") sta transition (wl0 ∷ wl1 ∷ [])
      ≡ some (some (1, sta, btm_request transition), true))
    × ((btm_request transition).request_mode ≡ 11)
    × (target_bsal_bss_tm_request
          (record sizes { max_candidates = 0 })
          (λ i m r. true)
          (bytes "wl0")
          sta
          transition
          (wl0 ∷ [])
        ≡ none)
unfolding target_bsal_bss_tm_request btm_request btm_candidates group_get_iface_by_name has_band
    Band-discrete str_dec
transition_flags = (refl, refl, refl)

abbrev measure : RrmParams
measure = record {
  op_class = 115;
  meas_mode = 1;
  channel = 36;
  rand_ivl = 0;
  meas_dur = 100;
  req_ssid = 1;
}

-- An empty SSID leaves the wildcard, and an interface that is not in the group has no request.
wildcard :
    ((beacon_request sizes measure []).ssid_present ≡ false)
    × ((beacon_request sizes measure (bytes "home")).ssid_present ≡ true)
    × (target_bsal_rrm_beacon_report_request sizes
          (λ i. some [])
          (λ i m r. true)
          (bytes "wl0")
          sta
          measure
          []
        ≡ (none, false))
unfolding beacon_request target_bsal_rrm_beacon_report_request group_get_iface_by_name
wildcard = (refl, refl, refl)

-- A frame of the size of the array is refused, a shorter one is delivered.
frame_size :
    (mgmt_frame_cb sizes (some (bytes "wl0")) (bytes "abcd") true true ≡ (none, false))
    × (mgmt_frame_cb sizes (some (bytes "wl0")) (bytes "abc") true true
        ≡ (some (record { ifname = bytes "wl0"; payload = bytes "abc" }), true))
unfolding mgmt_frame_cb
frame_size = (refl, refl)
