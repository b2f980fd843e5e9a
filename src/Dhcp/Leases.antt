-- ===== src/Dhcp/Leases.antt =====
-- The leases that a change of the file leaves, and what is told of them.
use opensync_platform_rdk.Common.{
  ◌%◌, ◌≤◌, ◌≡◌, true, false, List, [], ◌∷◌, none, some, length, CString,
}
use opensync_platform_rdk.Common.Told.{Told}
use opensync_platform_rdk.Dhcp.{
  LeaseLib, dhcp_server_lease_parse_line, Lease, Server, quantum, lease_exists,
  dhcp_server_lease_add,
}

-- The leases of the lines that are well formed.
unfoldable pub parsed : LeaseLib → List CString → List Lease
parsed lib [] = []
parsed lib (line ∷ lines) = elim (dhcp_server_lease_parse_line lib line) [
  | none ↦ parsed lib lines
  | some dl ↦ dl ∷ parsed lib lines
]

-- No two leases have one address and one hardware address.
unfoldable pub Distinct : List Lease → Type 0
Distinct [] = Unit
Distinct (l ∷ ls) = (lease_exists l ls ≡ false) × Distinct ls

-- The list fits into the array, which has a whole number of quanta.
pub record Fits (s : Server) : Type 0 where
  pub whole : s.capacity % quantum ≡ 0
  pub fits : length s.leases ≤ s.capacity

unfoldable pub add_all : List Lease → Server → Server
add_all [] s = s
add_all (dl ∷ dls) s = add_all dls (dhcp_server_lease_add dl s)

-- What a server holds after the leases `dls` were read into it.
pub record Holds (dls : List Lease) (s : Server) : Type 0 where
  pub array : Fits s
  pub distinct : Distinct s.leases
  pub same : (q : Lease) → lease_exists q s.leases ≡ lease_exists q dls

-- The notification that is due for an instance: one with a callback is told its own leases.
unfoldable pub Notified : Server → CString × List Lease → Type 0
Notified s (ifname, leases) = (s.notified ≡ true) × (ifname ≡ s.ifname) × (leases ≡ s.leases)
