-- ===== src/Bsal/Rates.antt =====
-- The association request of a client: the decoding of rates and the walk over its elements
-- (bsal.c and inc/bm_ieee80211.h).
pub mod Streams
pub mod Elements
use opensync_platform_rdk.Common.{
  ℕ, suc, zero, ◌+◌, ◌-◌, ◌*◌, ◌/◌, ◌%◌, ◌^◌, Bool, true, false, not, ◌&&◌, List, [], ◌∷◌,
  if◌then◌else◌, ◌==◌, ltb, leb, get_or, drop, CString,
}
use opensync_platform_rdk.Bsal.Types.{DatarateInfo, ClientInfo, no_rates, no_rrm}

-- x & (1 << k)
abbrev pub bit : ℕ → ℕ → Bool
bit k x = ((x / 2 ^ k) % 2) == 1

-- The loop of get_ht_mcs_max with `left` turns left, at the count `i`.
unfoldable pub ht_loop : ℕ → ℕ → ℕ → ℕ
ht_loop zero i mcs_set = i
ht_loop (suc left) i mcs_set =
    let rest = ht_loop left (i + 1) (mcs_set / 2) in if (mcs_set / 2) == 0 then i else rest

unfoldable pub get_ht_mcs_max : ℕ → ℕ
get_ht_mcs_max mcs_set = ht_loop 32 0 mcs_set

-- The switch over the pair of bits of one stream.
abbrev pub stream_mcs : ℕ → ℕ → ℕ
stream_mcs pair max_mcs =
    if pair == 0
    then (if ltb max_mcs 7 then 7 else max_mcs)
    else if pair == 1
    then (if ltb max_mcs 8 then 8 else max_mcs)
    else if pair == 2
    then (if ltb max_mcs 9 then 9 else max_mcs)
    else max_mcs

unfoldable pub vht_mcs_loop : ℕ → ℕ → ℕ → ℕ
vht_mcs_loop zero max_mcs rx_mcs_map = max_mcs
vht_mcs_loop (suc left) max_mcs rx_mcs_map =
    vht_mcs_loop left (stream_mcs (rx_mcs_map % 4) max_mcs) (rx_mcs_map / 4)

unfoldable pub get_vht_mcs_max : ℕ → ℕ
get_vht_mcs_max rx_mcs_map = vht_mcs_loop 8 0 rx_mcs_map

unfoldable pub vht_nss_loop : ℕ → ℕ → ℕ → ℕ → ℕ
vht_nss_loop zero i nss rx_mcs_map = nss
vht_nss_loop (suc left) i nss rx_mcs_map =
    vht_nss_loop left (i + 1) (if (rx_mcs_map % 4) == 3 then nss else i + 1) (rx_mcs_map / 4)

unfoldable pub get_vht_nss_max : ℕ → ℕ
get_vht_nss_max rx_mcs_map = vht_nss_loop 8 0 0 rx_mcs_map

unfoldable pub bm_parse_btm_supported : ℕ → ClientInfo → ClientInfo
bm_parse_btm_supported ext_caps info = record info { is_btm_supported = bit 19 ext_caps }

unfoldable pub bm_parse_rrm_supported : ℕ → ℕ → ℕ → ClientInfo → ClientInfo
bm_parse_rrm_supported oct1 oct2 oct5 info = record info {
  is_rrm_supported = true;
  rrm_caps = record {
    link_meas = bit 0 oct1;
    neigh_rpt = bit 1 oct1;
    bcn_rpt_passive = bit 4 oct1;
    bcn_rpt_active = bit 5 oct1;
    bcn_rpt_table = bit 6 oct1;
    lci_meas = bit 4 oct2;
    ftm_range_rpt = bit 2 oct5;
  };
}

-- The three tests of bm_parse_ht_cap on the rates so far.
unfoldable pub ht_rates : ℕ → ℕ → DatarateInfo → DatarateInfo
ht_rates ht_cap_info mcs_set r =
    let mcs = get_ht_mcs_max mcs_set in
    let nss = mcs / 8 + 1 in
    record r {
      max_chwidth = if bit 1 ht_cap_info && (r.max_chwidth == 0) then 1 else r.max_chwidth;
      max_mcs = if ltb r.max_mcs mcs then mcs % 8 else r.max_mcs;
      max_streams = if ltb r.max_streams nss then nss else r.max_streams;
      is_static_smps = not (bit 2 ht_cap_info) && not (bit 3 ht_cap_info);
    }

unfoldable pub bm_parse_ht_cap : ℕ → ℕ → ClientInfo → ClientInfo
bm_parse_ht_cap ht_cap_info mcs_set info = record info {
  datarate_info = ht_rates ht_cap_info mcs_set info.datarate_info;
}

unfoldable pub bm_parse_pwr_cap : ℕ → ClientInfo → ClientInfo
bm_parse_pwr_cap max_tx_power info = record info {
  datarate_info = record (info.datarate_info) { max_txpower = max_tx_power };
}

unfoldable pub vht_rates : ℕ → ℕ → DatarateInfo → DatarateInfo
vht_rates vht_info rx_mcs_map r =
    let mcs = get_vht_mcs_max rx_mcs_map in
    let nss = get_vht_nss_max rx_mcs_map in
    record r {
      max_chwidth = if bit 6 vht_info then 3 else 2;
      max_mcs = if ltb r.max_mcs mcs then mcs else r.max_mcs;
      max_streams = if ltb r.max_streams nss then nss else r.max_streams;
      is_mu_mimo_supported = bit 20 vht_info;
    }

unfoldable pub bm_parse_vht_cap : ℕ → ℕ → ClientInfo → ClientInfo
bm_parse_vht_cap vht_info rx_mcs_map info = record info {
  datarate_info = vht_rates vht_info rx_mcs_map info.datarate_info;
}

unfoldable pub set_client_legacy : ClientInfo → ClientInfo
set_client_legacy info = record info {
  is_btm_supported = false;
  is_rrm_supported = false;
  datarate_info = no_rates;
  rrm_caps = no_rrm;
}

-- for_each_element on the `len` bytes of a buffer: the id of each element and the buffer from its
-- data on, which a reader may read past the end of the element. `fuel` bounds the turns.
unfoldable pub for_each_element : ℕ → CString → ℕ → List (ℕ × ℕ × CString)
for_each_element zero buffer len = []
for_each_element (suc fuel) buffer len =
    let datalen = get_or buffer 1 0 in
    let rest = for_each_element fuel (drop (2 + datalen) buffer) (len - (2 + datalen)) in
    if leb 2 len && leb (2 + datalen) len
    then (get_or buffer 0 0, datalen, drop 2 buffer) ∷ rest
    else []

-- A little-endian number of two or four bytes at an offset.
abbrev pub le16 : CString → ℕ → ℕ
le16 b k = get_or b k 0 + 256 * get_or b (k + 1) 0

abbrev pub le32 : CString → ℕ → ℕ
le32 b k = le16 b k + 65536 * le16 b (k + 2)

-- The switch of target_bsal_client_info. The elements are read without a look at their length.
unfoldable pub parse_element : ℕ × ℕ × CString → ClientInfo → ClientInfo
parse_element (id, datalen, d) info =
    if id == 127
    then bm_parse_btm_supported (le32 d 0) info
    else if id == 70
    then bm_parse_rrm_supported (get_or d 0 0) (get_or d 1 0) (get_or d 4 0) info
    else if id == 45
    then bm_parse_ht_cap (le16 d 0) (le32 d 3) info
    else if id == 191
    then bm_parse_vht_cap (le32 d 0) (le16 d 4) info
    else if id == 33
    then bm_parse_pwr_cap (get_or d 1 0) info
    else info

unfoldable pub parse_elements : List (ℕ × ℕ × CString) → ClientInfo → ClientInfo
parse_elements [] info = info
parse_elements (e ∷ es) info = parse_elements es (parse_element e info)
