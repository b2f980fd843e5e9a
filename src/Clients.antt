-- ===== src/Clients.antt =====
-- src/lib/target/src/clients.c: the associated clients, as the HAL's callbacks and its list of
-- devices tell of them, reported to the upper layer.
mod Scan
pub mod Types
pub mod Views
pub mod Reports
pub mod Steps
pub mod Stale
pub mod Connects
pub mod Fetched
pub mod Repeats
pub mod Runs
mod Tests
use opensync_platform_rdk.Common.{
  ℕ, ◌-◌, Bool, true, false, List, [], ◌∷◌, ◌++◌, Option, none, some, ite, if◌then◌else◌, CString,
  bytes, str_dec, str_lt, strscpy, take, ℕ_discrete, length, ◌==◌, not,
}
use opensync_platform_rdk.Common.Tree.{find, insert, remove, adjust}
use opensync_platform_rdk.HalQueue.{Queue, push, drain, dispatch, start}
use Scan.{scan_mac}
use Types.{Client, CbEntry, SecurityMode, Update, Hal, State, max_macstr, max_buffer, csmm}

-- The loop over the table, with its break.
pub find_mode : CString → List SecurityMode → Option SecurityMode
find_mode security [] = none
find_mode security (m ∷ ms) = ite (str_dec m.security security) (some m) (find_mode security ms)

pub security_mode : Hal → ℕ → Option SecurityMode
unfolding find_mode
security_mode hal ap = elim (hal.get_ap_security_mode ap) [
  | none ↦ none
  | some security ↦ find_mode security csmm
]

abbrev pub mode_field : (SecurityMode → Option CString) → Option SecurityMode → Option CString
mode_field f none = none
mode_field f (some m) = f m

pub clients_update : Hal → Client → CString → Bool → Update
unfolding security_mode
clients_update hal client ifname connected =
    let mode = security_mode hal client.ap_index in
    record {
      mac = client.mac;
      key_id = client.key_id;
      wpa_key_mgmt = mode_field (λ m. m.wpa_key_mgmt) mode;
      pairwise_cipher = mode_field (λ m. m.pairwise_cipher) mode;
      state = if connected then bytes "active" else bytes "inactive";
      ifname = hal.unmap_ifname ifname;
      connected = connected;
    }

abbrev pub report : Update → State → State
report u s = record s { updates = s.updates ++ u ∷ [] }

abbrev pub write_client : CString → Client → State → State
write_client mac c s = record s {
  connected_clients = adjust str_dec mac (λ _. c) s.connected_clients;
}

-- The tail of clients_connection: the key id is copied, and the client reported as active.
pub connection_active : Hal → CString → Client → CString → CString → State → State
unfolding clients_update
connection_active hal mac client key_id ifname s =
    let client' = record client { key_id = strscpy max_buffer key_id } in
    report (clients_update hal client' ifname true) (write_client mac client' s)

-- No client of that address is known.
pub connection_new : Hal → ℕ → CString → CString → CString → State → State
unfolding connection_active
connection_new hal ap mac key_id ifname s =
    let client : Client = record { mac = strscpy max_macstr mac; key_id = []; ap_index = ap } in
    connection_active hal client.mac client key_id ifname
      (record s { connected_clients = insert str_dec str_lt client.mac client s.connected_clients })

-- The client is known on another access point.
pub connection_moves : Hal → ℕ → CString → Client → CString → CString → State → State
unfolding connection_active
connection_moves hal ap mac client key_id ifname s = elim (hal.get_ap_name client.ap_index) [
  | none ↦ s
  | some ifname_old ↦
      let client' = record client { ap_index = ap } in
      connection_active hal mac client' key_id ifname
        (write_client mac client' (report (clients_update hal client ifname_old false) s))
]

-- The client is known on this access point; strncmp looks at the bytes of the field.
pub connection_known : Hal → CString → Client → CString → CString → State → State
unfolding connection_active
connection_known hal mac client key_id ifname s =
    ite (str_dec (take max_buffer client.key_id) (take max_buffer key_id)) s (
      connection_active hal mac client key_id ifname
        (report (clients_update hal client ifname false) s))

pub connection_on : Hal → ℕ → CString → CString → CString → State → State
unfolding connection_new connection_moves connection_known
connection_on hal ap mac key_id ifname s = elim (find str_dec mac s.connected_clients) [
  | none ↦ connection_new hal ap mac key_id ifname s
  | some client ↦
      ite (ℕ_discrete client.ap_index ap) (connection_known hal mac client key_id ifname s)
        (connection_moves hal ap mac client key_id ifname s)
]

-- `none` is a null pointer.
pub clients_connection : Hal → ℕ → Option CString → Option CString → State → State
unfolding connection_on
clients_connection hal ap none key_id s = s
clients_connection hal ap (some mac) none s = s
clients_connection hal ap (some mac) (some key_id) s = elim (hal.get_ap_name ap) [
  | none ↦ s
  | some ifname ↦ connection_on hal ap mac key_id ifname s
]

-- The client that the caller shall remove, if any.
pub clients_disconnection : Hal → ℕ → Option CString → State → State × Option Client
unfolding clients_update
clients_disconnection hal ap mac s = elim (hal.get_ap_name ap) [
  | none ↦ (s, none)
  | some ifname ↦ elim mac [
    | none ↦ (s, none)
    | some m ↦ elim (find str_dec m s.connected_clients) [
      | none ↦ (s, none)
      | some client ↦
          ite (ℕ_discrete client.ap_index ap)
            (report (clients_update hal client ifname false) s, some client) (s, none)
    ]
  ]
]

-- Both callers drop the client that clients_disconnection gives them.
pub drop_client : CString → State × Option Client → State
drop_client mac (s, none) = s
drop_client mac (s, some client) = record s {
  connected_clients = remove str_dec client.mac s.connected_clients;
}

-- The callbacks, as far as they hold the lock, and their results; the wake-up that follows is `wake`.
pub clients_hal_assocdev_cb : ℕ → CString → Bool → State → State × Bool
clients_hal_assocdev_cb ssid_index address active s =
    let entry : CbEntry = record {
      ssid_index = ssid_index;
      cli_mac_address = address;
      cli_active = active;
    } in
    let (q, ok) = push entry s.hal_cb_queue in (record s { hal_cb_queue = q }, ok)

pub clients_hal_dissocdev_cb : ℕ → CString → State → State × Bool
unfolding clients_hal_assocdev_cb scan_mac
clients_hal_dissocdev_cb ssid_index mac s =
    clients_hal_assocdev_cb ssid_index (scan_mac mac) false s

-- The key id under which a client is reported; `none` skips the client.
pub client_key_id : Hal → ℕ → CString → Option CString
client_key_id hal ap address =
    if hal.multi_psk_support
    then (elim (hal.get_multi_psk_client_key ap address) [
      | none ↦ none
      | some key ↦ if length key == 0 then some (hal.cached_key_id ap) else some key
    ])
    else some (hal.cached_key_id ap)

-- Report the connection of a device that the HAL names by its address.
pub device_connected : Hal → ℕ → CString → CString → State → State
unfolding client_key_id clients_connection
device_connected hal ap address mac s = elim (client_key_id hal ap address) [
  | none ↦ s
  | some key_id ↦ clients_connection hal ap (some mac) (some key_id) s
]

-- One round of the loop of clients_hal_async_cb.
pub handle_entry : Hal → CbEntry → State → State
unfolding device_connected clients_disconnection drop_client
handle_entry hal e s =
    let mac = strscpy 20 (hal.format_mac e.cli_mac_address) in
    elim (hal.get_ap_name e.ssid_index) [
      | none ↦ s
      | some ifname ↦
          if e.cli_active
          then device_connected hal e.ssid_index e.cli_mac_address mac s
          else drop_client mac (clients_disconnection hal e.ssid_index (some mac) s)
    ]

pub clients_hal_async_cb : Hal → State → State
unfolding handle_entry
clients_hal_async_cb hal s =
    let (q, s') = drain (handle_entry hal) s.hal_cb_queue s in record s' { hal_cb_queue = q }

-- The inner loop of detect_disconnection: whether a device of the list bears the address. A
-- device whose address does not print in 17 bytes is passed over.
pub is_listed : Hal → CString → List CString → Bool
is_listed hal mac [] = false
is_listed hal mac (d ∷ ds) =
    let text = hal.format_mac d in
    if length text == max_macstr - 1
    then ite (str_dec mac (strscpy max_macstr text)) true (is_listed hal mac ds)
    else is_listed hal mac ds

pub detect_client : Hal → ℕ → List CString → Client → State → State
unfolding is_listed clients_disconnection drop_client
detect_client hal ap devices client s =
    ite (ℕ_discrete client.ap_index ap)
      (if is_listed hal client.mac devices
        then s
        else drop_client client.mac (clients_disconnection hal ap (some client.mac) s))
      s

-- The iteration goes over the entries as they stood at its start; each round removes at most its own.
pub detect_disconnection : Hal → ℕ → List CString → List (CString × Client) → State → State
unfolding detect_client
detect_disconnection hal ap devices [] s = s
detect_disconnection hal ap devices ((k, client) ∷ rest) s =
    detect_disconnection hal ap devices rest (detect_client hal ap devices client s)

-- The loop of clients_hal_fetch_existing.
pub fetch_devices : Hal → ℕ → List CString → State → State
unfolding device_connected
fetch_devices hal ap [] s = s
fetch_devices hal ap (d ∷ ds) s =
    fetch_devices hal ap ds (device_connected hal ap d (strscpy 20 (hal.format_mac d)) s)

pub clients_hal_fetch_existing : Hal → ℕ → State → State × Bool
unfolding fetch_devices detect_disconnection
clients_hal_fetch_existing hal ap s = elim (hal.get_ap_name ap) [
  | none ↦ (s, false)
  | some ifname ↦ elim (hal.get_associated_devices ap) [
    | none ↦ (s, false)
    | some devices ↦
        let s' = fetch_devices hal ap devices s in
        (detect_disconnection hal ap devices s'.connected_clients s', true)
  ]
]

-- `loop_known` is whether wifihal_evloop is set. A second call only starts the watcher again.
pub clients_hal_init : Bool → State → State × Bool
clients_hal_init loop_known s =
    if s.hal_cb_queue.loop
    then (s, true)
    else if not loop_known
    then (record s { connected_clients = [] }, false)
    else (record s { connected_clients = []; hal_cb_queue = start s.hal_cb_queue }, true)
