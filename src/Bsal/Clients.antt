-- ===== src/Bsal/Clients.antt =====
-- The operations on the clients of an interface, and the life cycle of the layer.
use opensync_platform_rdk.Common.{
  ◌≢◌, true, ℕ, ◌≡◌, ◌⊎◌, ap, Bool, false, Option, none, some, replicate, CString, arith,
}
use opensync_platform_rdk.Bsal.Types.{
  ClientConfig, DiscType, disc_other, Call, set_group, client_set, client_unset, client_drop,
  neighbor_reports, Hal, State, no_iface,
}
use opensync_platform_rdk.Bsal.{
  target_bsal_client_add, target_bsal_client_update, target_bsal_client_remove,
  target_bsal_client_disconnect, target_bsal_init, target_bsal_cleanup, registered,
}

pub data ClientOp : Type 0 where
  adds : ClientConfig → ClientOp
  updates : ClientConfig → ClientOp
  removes : ClientOp
  disconnects : DiscType → ℕ → ClientOp

unfoldable pub client_op : Hal → CString → CString → ClientOp → State → State × Bool
client_op hal ifname mac (adds cfg) s = target_bsal_client_add hal ifname mac cfg s
client_op hal ifname mac (updates cfg) s = target_bsal_client_update hal ifname mac cfg s
client_op hal ifname mac removes s = target_bsal_client_remove hal ifname mac s
client_op hal ifname mac (disconnects type reason) s =
    target_bsal_client_disconnect hal ifname mac type reason s

-- The group, the access point and the client that a call addresses.
unfoldable pub addressed : Call → Option (ℕ × ℕ × CString)
addressed (client_set g a m cfg) = some (g, a, m)
addressed (client_unset g a m) = some (g, a, m)
addressed (client_drop g a m type reason) = some (g, a, m)
addressed (set_group index count configs) = none
addressed (neighbor_reports ap reports) = none

-- No configuration of a client has both probe thresholds at 0.
unfoldable pub Probed : Call → Type 0
Probed (client_set g a m cfg) = (cfg.rssi_probe_hwm ≡ 0) → (cfg.rssi_probe_lwm ≡ 0) → ⊥
Probed c = Unit

-- The disconnection of a type that the code does not know.
unfoldable pub Refused : ClientOp → Type 0
Refused (disconnects disc_other reason) = Unit
Refused op = ⊥

-- The configuration that is set instead of a given one: one with both probe thresholds at 0 gets 120 for
-- the upper threshold of probes and of authentications, another stays.
unfoldable pub Unblocked : ClientConfig → ClientConfig → Type 0
Unblocked c d =
    ((c.rssi_probe_hwm ≡ 0)
      × (c.rssi_probe_lwm ≡ 0)
      × (d ≡ record c { rssi_probe_hwm = 120; rssi_auth_hwm = 120 }))
    ⊎ (((c.rssi_probe_hwm ≢ 0) ⊎ (c.rssi_probe_lwm ≢ 0)) × (d ≡ c))

-- The call that an operation stands for, by group, access point and client.
unfoldable pub Does : ClientOp → ℕ → ℕ → CString → Call → Type 0
Does (adds cfg) g a m c = (d : ClientConfig) × Unblocked cfg d × (c ≡ client_set g a m d)
Does (updates cfg) g a m c = (d : ClientConfig) × Unblocked cfg d × (c ≡ client_set g a m d)
Does removes g a m c = c ≡ client_unset g a m
Does (disconnects type reason) g a m c = c ≡ client_drop g a m type reason

-- After an initialisation, with a callback for events, of a layer that was not initialised, whether it succeeded or not, every
-- further one fails and changes nothing, until a cleanup; and the one after the cleanup gives, when
-- the HAL tells the number of radios, a group of that many empty slots.
pub init-cleanup :
    (callback : Bool) (hal hal' : Hal) (n : ℕ) (s : State)
    → s.has_callback ≡ false
    → hal'.num_radios ≡ some n
    → let t = (target_bsal_init true hal s).0 in
      let u = (target_bsal_init callback hal' (target_bsal_cleanup t).0) in
      (target_bsal_init callback hal' t ≡ (t, false))
      × (u.0.ifaces ≡ replicate n no_iface)
      × (u.0.freed ≡ false)
      × (u.1 ≡ registered hal')
unfolding target_bsal_init target_bsal_cleanup
init-cleanup callback hal hal' n s off radios =
    (ground arith, ground (arith, radios), ground (arith, radios), ground (arith, radios))
