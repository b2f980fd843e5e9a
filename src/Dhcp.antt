-- ===== src/Dhcp.antt =====
-- The DHCP server adapter, src/lib/osn/src/osn_dhcps.c: its instances, their address ranges and
-- the leases that it reads from the file of dnsmasq.
pub mod Leases
pub mod Ranges
mod Tests
use opensync_platform_rdk.Common.{
  ℕ, zero, suc, ◌+◌, ◌%◌, Bool, true, false, ◌&&◌, List, [], ◌∷◌, ◌++◌, Option, none, some, ite,
  if◌then◌else◌, ◌==◌, leb, length, CString, strscpy, str_dec, ℕ_discrete,
}

-- osn_dhcp_server_lease: the address, the hardware address, and the other fields.
pub record Lease : Type 0 where
  pub ipaddr : CString
  pub hwaddr : CString
  pub hostname : CString
  pub fingerprint : CString
  pub vendorclass : CString
  pub leasetime : ℕ

-- struct dhcp_range: an address is a number, which osn_ip_addr_cmp compares.
abbrev pub Range : Type 0
Range = ℕ × ℕ

-- struct osn_dhcp_server; `notified` is whether ds_status_fn is set, `user_data` is ds_data; `capacity` is how many leases fit into the array that ds_leases points to.
pub record Server : Type 0 where
  pub ifname : CString
  pub notified : Bool
  pub user_data : Option ℕ
  pub leases : List Lease
  pub capacity : ℕ
  pub ranges : List Range

-- The globals: the list of instances, whether the watcher of the file is active and whether the
-- debounced initialisation is started; and the status notifications so far, oldest first.
pub record State : Type 0 where
  pub servers : List Server
  pub watcher : Bool
  pub debounce : Bool
  pub notices : List (CString × List Lease)

unfoldable pub range_dec : Discrete Range
range_dec = hlevel ℕ_discrete

unfoldable pub has_range : Range → List Range → Bool
has_range r [] = false
has_range r (q ∷ qs) = ite (range_dec q r) true (has_range r qs)

-- dhcp_range_cmp(a, b) < 0
unfoldable pub range_lt : Range → Range → Bool
range_lt (a, b) (c, d) =
    if leb (a + 1) c then true else if leb (c + 1) a then false else leb (b + 1) d

unfoldable pub insert_range : Range → List Range → List Range
insert_range r [] = r ∷ []
insert_range r (q ∷ qs) = if range_lt r q then r ∷ q ∷ qs else q ∷ insert_range r qs

unfoldable pub remove_range : Range → List Range → List Range
remove_range r [] = []
remove_range r (q ∷ qs) = ite (range_dec q r) qs (q ∷ remove_range r qs)

unfoldable pub osn_dhcp_server_range_add : Range → Server → Server
osn_dhcp_server_range_add r s =
    if has_range r s.ranges then s else record s { ranges = insert_range r s.ranges }

unfoldable pub osn_dhcp_server_range_del : Range → Server → Server
osn_dhcp_server_range_del r s =
    if has_range r s.ranges then record s { ranges = remove_range r s.ranges } else s

unfoldable pub osn_dhcp_server_status_notify : Bool → Server → Server
osn_dhcp_server_status_notify callback s = record s { notified = callback }

unfoldable pub osn_dhcp_server_data_set : Option ℕ → Server → Server
osn_dhcp_server_data_set user_data s = record s { user_data = user_data }

-- DHCP_LEASE_RESIZE_QUANTUM
abbrev pub quantum : ℕ
quantum = 16

-- osn_dhcp_server_new with dhcp_server_init; `ifname_len` is C_IFNAME_LEN.
unfoldable pub osn_dhcp_server_new : ℕ → CString → State → State × Bool
osn_dhcp_server_new ifname_len ifname s =
    let self : Server = record {
      ifname = ifname;
      notified = false;
      user_data = none;
      leases = [];
      capacity = 0;
      ranges = [];
    } in
    if leb ifname_len (length ifname) then (s, false) else (
      record (elim s.servers [ [] ↦ record s { watcher = true; debounce = true } | x ∷ xs ↦ s ]) {
        servers = s.servers ++ self ∷ [];
      },
      true,
    )

unfoldable pub dhcp_lease_clear : Server → Server
dhcp_lease_clear s = record s { leases = []; capacity = 0 }

unfoldable pub lease_exists : Lease → List Lease → Bool
lease_exists dl [] = false
lease_exists dl (l ∷ ls) =
    ite (str_dec dl.ipaddr l.ipaddr) (ite (str_dec dl.hwaddr l.hwaddr) true (lease_exists dl ls))
      (lease_exists dl ls)

-- The array is reallocated whenever its length is a multiple of the quantum.
unfoldable pub dhcp_server_lease_add : Lease → Server → Server
dhcp_server_lease_add dl s = if lease_exists dl s.leases then s else record s {
  capacity = if (length s.leases % quantum) == 0 then length s.leases + quantum else s.capacity;
  leases = s.leases ++ dl ∷ [];
}

-- dhcp_server_find_by_lease gives the first instance, whatever the lease.
unfoldable pub add_to_first : Lease → List Server → List Server
add_to_first dl [] = []
add_to_first dl (s ∷ ss) = dhcp_server_lease_add dl s ∷ ss

-- What the parser of a line takes from others: regexec for its pattern, with the text of each group
-- if the line matches; strtod; the conversions of addresses; and the sizes of the arrays.
pub record LeaseLib : Type 0 where
  pub regexec : CString → Option (ℕ → CString)
  pub strtod : CString → ℕ
  pub mac_from_str : CString → Option CString
  pub ip_from_str : CString → Option CString
  pub leasetime_size : ℕ
  pub macaddr_size : ℕ
  pub ipaddr_size : ℕ
  pub hostname_size : ℕ
  pub fingerprint_size : ℕ
  pub vendorclass_size : ℕ

-- os_reg_match_cpy copies a group into an array, cut to its size.
unfoldable pub dhcp_server_lease_parse_line : LeaseLib → CString → Option Lease
dhcp_server_lease_parse_line lib line = elim (lib.regexec line) [
  | none ↦ none
  | some rm ↦ elim (lib.mac_from_str (strscpy lib.macaddr_size (rm 2))) [
    | none ↦ none
    | some hwaddr ↦ elim (lib.ip_from_str (strscpy lib.ipaddr_size (rm 4))) [
      | none ↦ none
      | some ipaddr ↦ some (record {
        ipaddr = ipaddr;
        hwaddr = hwaddr;
        hostname = strscpy lib.hostname_size (rm 6);
        fingerprint = strscpy lib.fingerprint_size (rm 7);
        vendorclass = strscpy lib.vendorclass_size (rm 9);
        leasetime = lib.strtod (strscpy lib.leasetime_size (rm 1));
      })
    ]
  ]
]

-- The loop of dhcp_lease_parse over the lines of the file.
unfoldable pub parse_lines : LeaseLib → List CString → List Server → List Server
parse_lines lib [] ss = ss
parse_lines lib (line ∷ lines) ss = elim (dhcp_server_lease_parse_line lib line) [
  | none ↦ parse_lines lib lines ss
  | some dl ↦ parse_lines lib lines (add_to_first dl ss)
]

-- `file` is none if the file cannot be opened or locked.
unfoldable pub dhcp_lease_parse :
    LeaseLib → Option (List CString) → List Server → List Server × Bool
dhcp_lease_parse lib none ss = (ss, false)
dhcp_lease_parse lib (some lines) ss = (parse_lines lib lines ss, true)

unfoldable pub clear_all : List Server → List Server
clear_all [] = []
clear_all (s ∷ ss) = dhcp_lease_clear s ∷ clear_all ss

unfoldable pub dhcp_server_status_dispatch : List Server → List (CString × List Lease)
dhcp_server_status_dispatch [] = []
dhcp_server_status_dispatch (s ∷ ss) =
    let rest = dhcp_server_status_dispatch ss in
    if s.notified then (s.ifname, s.leases) ∷ rest else rest

-- dhcp_lease_onchange; `linked` is whether the file still has a link. dhcp_lease_init is the same
-- with the file taken as it is.
unfoldable pub dhcp_lease_onchange : LeaseLib → Bool → Option (List CString) → State → State
dhcp_lease_onchange lib linked file s =
    let cleared = clear_all s.servers in
    let servers = if linked then (dhcp_lease_parse lib file cleared).0 else cleared in
    record s { servers = servers; notices = s.notices ++ dhcp_server_status_dispatch servers }

abbrev pub dhcp_lease_init : LeaseLib → Option (List CString) → State → State
dhcp_lease_init lib file s = dhcp_lease_onchange lib true file s

unfoldable pub remove_at : ℕ → List Server → List Server
remove_at i [] = []
remove_at zero (s ∷ ss) = ss
remove_at (suc i) (s ∷ ss) = s ∷ remove_at i ss

-- osn_dhcp_server_del of the instance at a position of the list.
unfoldable pub osn_dhcp_server_del : ℕ → State → State
osn_dhcp_server_del i s =
    let t = record s { servers = remove_at i s.servers } in
    if t.watcher && (length t.servers == 0)
    then record t { watcher = false; debounce = false }
    else t
