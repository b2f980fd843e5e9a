-- ===== src/Bsal/Info.antt =====
-- The state of a client on request: bsal_client_set_connected and target_bsal_client_info.
pub mod Request
use opensync_platform_rdk.Common.{
  ◌-◌, ◌++◌, replicate, ℕ, Bool, true, false, not, List, [], ◌∷◌, Option, none, some, ite,
  if◌then◌else◌, ltb, length, CString, str_dec,
}
use opensync_platform_rdk.Common.Tree.{find, adjust}
use opensync_platform_rdk.Bsal.Types.{AssocDev, ClientInfo, Hal, State, no_info}
use opensync_platform_rdk.Bsal.{group_get_iface_by_name}
use opensync_platform_rdk.Bsal.Rates.{set_client_legacy, for_each_element, parse_elements}

unfoldable pub find_device : CString → List AssocDev → Option AssocDev
find_device mac [] = none
find_device mac (d ∷ ds) = ite (str_dec mac d.cli_mac) (some d) (find_device mac ds)

abbrev pub with_device : AssocDev → ClientInfo → ClientInfo
with_device d info = record info {
  connected = true;
  snr = d.cli_snr;
  tx_bytes = d.cli_bytes_sent;
  rx_bytes = d.cli_bytes_received;
}

-- `none` where the function returns false, and else what it writes to `info`.
unfoldable pub bsal_client_set_connected : Hal → ℕ → CString → State → State × Option ClientInfo
bsal_client_set_connected hal ap_index mac s = elim (hal.associated_devices ap_index) [
  | none ↦ (s, none)
  | some devices ↦ elim (find_device mac devices) [
    | none ↦ (s, some no_info)
    | some d ↦
        if hal.has_assoc_req_ies
        then (s, some (with_device d no_info))
        else elim (find str_dec mac s.clients) [
          | none ↦ (s, some (with_device d no_info))
          | some c ↦ (
            record s { clients = adjust str_dec mac (with_device d) s.clients },
            some (with_device d c),
          )
        ]
  ]
]

-- The size of req_ies, and the memory behind the bytes of a request.
abbrev pub req_ies_size : ℕ
req_ies_size = 1024

unfoldable pub behind : CString → CString → CString
behind stack ies = replicate (req_ies_size - length ies) 0 ++ stack

-- The part that reads the association request of a client that is connected. `ies_max` is the
-- size of assoc_ies. The array req_ies is zero after the bytes that the HAL writes. The code reads the
-- fields of an element without a look at its length, so that behind the last one it may read on
-- into the zeros, and from an array that is full into what stands after it: `stack`.
unfoldable pub read_assoc_ies : ℕ → CString → Hal → ℕ → CString → ClientInfo → Bool × ClientInfo
unfolding behind
read_assoc_ies ies_max stack hal ap_index mac info = elim (hal.assoc_req_ies ap_index mac) [
  | none ↦ (false, info)
  | some ies ↦ if ltb ies_max (length ies) then (false, info) else (
    true,
    parse_elements (for_each_element (length ies) (ies ++ behind stack ies) (length ies))
        (set_client_legacy (record info { assoc_ies = ies })),
  )
]

-- The state, whether the function returns 0, and what `info` then points to.
unfoldable pub target_bsal_client_info :
    ℕ → CString → Hal → CString → CString → ClientInfo → State → State × (Bool × ClientInfo)
target_bsal_client_info ies_max stack hal ifname mac info s =
    elim (group_get_iface_by_name ifname s.ifaces) [
      | none ↦ (s, (false, info))
      | some iface ↦
          let r = bsal_client_set_connected hal iface.wifihal_cfg.ap_index mac s in
          elim r.1 [
            | none ↦ (r.0, (false, no_info))
            | some told ↦
                if hal.has_assoc_req_ies
                then (if told.connected
                    then (r.0, read_assoc_ies ies_max stack hal iface.wifihal_cfg.ap_index mac told)
                    else (r.0, (true, told)))
                else (r.0, (true, told))
          ]
    ]
