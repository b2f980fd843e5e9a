-- ===== src/Dhcp/Tests.antt =====
-- Tests of the DHCP server adapter, and its theorem at a concrete input.
use opensync_platform_rdk.Common.{
  ℕ, ◌==◌, if◌then◌else◌, ◌≡◌, refl, true, List, [], ◌∷◌, Option, none, some, CString, bytes,
  str_dec,
}
use opensync_platform_rdk.Common.Told.{Told}
use opensync_platform_rdk.Dhcp.{
  Range, has_range, Lease, Server, State, dhcp_server_status_dispatch, clear_all, LeaseLib,
  dhcp_server_lease_parse_line, dhcp_lease_onchange, lease_exists, dhcp_server_lease_add,
  add_to_first, parse_lines, dhcp_lease_parse, dhcp_lease_clear,
}
use opensync_platform_rdk.Dhcp.Ranges.{RangeOp, OnceEach, range_ops, there, range_ops-there}

abbrev lease : CString → Lease
lease ip = record {
  ipaddr = ip;
  hwaddr = 2 ∷ 0 ∷ 0 ∷ 0 ∷ 0 ∷ 1 ∷ [];
  hostname = bytes "phone";
  fingerprint = bytes "1,33";
  vendorclass = bytes "*";
  leasetime = 100;
}

-- A line is an address, or empty and malformed; the other groups are those of one device.
abbrev groups : CString → ℕ → CString
groups line i =
    if i == 4
    then line
    else if i == 6
    then bytes "phone"
    else if i == 7
    then bytes "1,33"
    else bytes "*"

abbrev matched : CString → Option (ℕ → CString)
matched [] = none
matched (x ∷ line) = some (groups (x ∷ line))

abbrev lib : LeaseLib
lib = record {
  regexec = matched;
  strtod = λ s. 100;
  mac_from_str = λ s. some (2 ∷ 0 ∷ 0 ∷ 0 ∷ 0 ∷ 1 ∷ []);
  ip_from_str = λ s. some s;
  leasetime_size = 12;
  macaddr_size = 18;
  ipaddr_size = 16;
  hostname_size = 64;
  fingerprint_size = 256;
  vendorclass_size = 256;
}

abbrev server : CString → Server
server n = record {
  ifname = n;
  notified = true;
  user_data = none;
  leases = lease (9 ∷ []) ∷ [];
  capacity = 16;
  ranges = [];
}

abbrev two_servers : State
two_servers = record {
  servers = server (bytes "br0") ∷ server (bytes "br1") ∷ [];
  watcher = true;
  debounce = true;
  notices = [];
}

abbrev lines : List CString
lines = (5 ∷ []) ∷ [] ∷ (6 ∷ []) ∷ (5 ∷ []) ∷ []

-- The repeated lease and the malformed line are left out, and both instances are told.
notified :
    (dhcp_lease_onchange lib true (some lines) two_servers).notices
    ≡ (bytes "br0", lease (5 ∷ []) ∷ lease (6 ∷ []) ∷ []) ∷ (bytes "br1", []) ∷ []
unfolding dhcp_server_lease_parse_line dhcp_lease_onchange dhcp_lease_parse parse_lines add_to_first
    dhcp_server_lease_add lease_exists clear_all dhcp_lease_clear dhcp_server_status_dispatch
    str_dec
notified = refl

abbrev range_changes : List RangeOp
range_changes =
    RangeOp.adds (10, 20) ∷ RangeOp.adds (1, 5) ∷ RangeOp.adds (10, 20) ∷ RangeOp.dels (10, 20) ∷ []

range_ops-there_example :
    OnceEach (range_ops range_changes (server (bytes "br0"))).ranges
    × ((q : Range)
        → has_range q (range_ops range_changes (server (bytes "br0"))).ranges
          ≡ there q range_changes (has_range q (server (bytes "br0")).ranges))
unfolding OnceEach
range_ops-there_example = range_ops-there range_changes (server (bytes "br0")) tt
