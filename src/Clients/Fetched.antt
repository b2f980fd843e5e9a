-- ===== src/Clients/Fetched.antt =====
-- What a fetch of the list of associated devices (clients_hal_fetch_existing) makes of the table, in
-- terms of the list and of the table before.
use opensync_platform_rdk.Common.{
  ℕ, ◌≡◌, ◌≢◌, ◌≤◌, ◌⊎◌, ◌∙◌, inl, inr, refl, sym, ap, subst, true, false, List, [], ◌∷◌, Option,
  none, some, Option-cases, Bool-cases, ite, if_neg, CString, str_dec, strscpy, take_of_length-le,
  length, ℕ_discrete, ◌==◌, arith,
}
use opensync_platform_rdk.Common.Tree.{find}
use opensync_platform_rdk.Clients.Types.{Client, Hal, State}
use opensync_platform_rdk.Clients.Reports.{Reported}
use opensync_platform_rdk.Clients.Steps.{fetch_devices-Reported, printed}
use opensync_platform_rdk.Clients.Stale.{survivor, found_mac, detect_disconnection-survivor}
use opensync_platform_rdk.Clients.{
  clients_connection, client_key_id, device_connected, is_listed, fetch_devices,
  clients_hal_fetch_existing,
}
use opensync_platform_rdk.Clients.Connects.{Present, on-Connects}

module _ (hal : Hal) where
  -- The list names an address: one of its devices prints as it.
  unfoldable pub Lists : CString → List CString → Type 0
  Lists m [] = ⊥
  Lists m (d ∷ ds) = (hal.format_mac d ≡ m) ⊎ Lists m ds

  -- What is left of an entry when its address has left this access point.
  unfoldable pub left_from : ℕ → Option Client → Option Client
  left_from ap none = none
  left_from ap (some c) = ite (ℕ_discrete c.ap_index ap) none (some c)

  single_key :
      (ap : ℕ) (d : CString)
      → hal.multi_psk_support ≡ false
      → client_key_id hal ap d ≡ some (hal.cached_key_id ap)
  unfolding client_key_id
  single_key ap d single = ground (arith, single)

  module _ (short : (d : CString) → length (hal.format_mac d) ≤ 17) (ap : ℕ) (ifname : CString)
      (named : hal.get_ap_name ap ≡ some ifname) where
    connected-other :
        (d m : CString) (s : State)
        → hal.format_mac d ≢ m
        → find str_dec m (device_connected hal ap d (hal.format_mac d) s).connected_clients
          ≡ find str_dec m s.connected_clients
    unfolding device_connected clients_connection
    connected-other d m s ne = elim (Option-cases (client_key_id hal ap d)) [
      | inl e ↦ rw (e, device_connected) refl
      | inr (key, e) ↦
          rw (e, device_connected, named, clients_connection)
            ((on-Connects hal ap (hal.format_mac d) key ifname s (short d)).others m ne)
    ]

    connected-Present :
        (d : CString) (s : State)
        → hal.multi_psk_support ≡ false
        → Present hal ap (
            find str_dec
              (hal.format_mac d)
              (device_connected hal ap d (hal.format_mac d) s).connected_clients)
    unfolding device_connected clients_connection
    connected-Present d s single =
        rw (device_connected, single_key ap d single, named, clients_connection)
          (on-Connects hal ap (hal.format_mac d) (hal.cached_key_id ap) ifname s (short d)).own

    fetched-other :
        (m : CString) (ds : List CString) (s : State)
        → (Lists m ds → ⊥)
        → find str_dec m (fetch_devices hal ap ds s).connected_clients
          ≡ find str_dec m s.connected_clients
    unfolding fetch_devices Lists
    fetched-other m [] s not_listed = refl
    fetched-other m (d ∷ ds) s not_listed =
        rw (fetch_devices, printed hal short d)
          (fetched-other m ds (device_connected hal ap d (hal.format_mac d) s)
              (λ l. not_listed (inr l))
            ∙ connected-other d m s (λ e. not_listed (inl e)))

    kept-Present :
        (m : CString) (ds : List CString) (s : State)
        → hal.multi_psk_support ≡ false
        → (Present hal ap (find str_dec m s.connected_clients)) ⊎ Lists m ds
        → Present hal ap (find str_dec m (fetch_devices hal ap ds s).connected_clients)
    unfolding fetch_devices Lists
    kept-Present m [] s single (inl p) = p
    kept-Present m [] s single (inr l) = absurd l
    kept-Present m (d ∷ ds) s single h =
        rw (fetch_devices, printed hal short d)
          (kept-Present m ds (device_connected hal ap d (hal.format_mac d) s) single
            (elim (str_dec (hal.format_mac d) m) [
              | yes e ↦ inl (
                  subst
                    (λ x. Present hal ap (
                      find str_dec x
                        (device_connected hal ap d (hal.format_mac d) s).connected_clients))
                    e (connected-Present d s single))
              | no ne ↦ elim h [
                | inl p ↦ inl (subst (Present hal ap) (sym (connected-other d m s ne)) p)
                | inr l ↦ elim l [ inl e ↦ absurd (ne e) | inr later ↦ inr later ]
              ]
            ]))

  is_listed-Lists :
      (m : CString) (ds : List CString) → length m ≡ 17 → Lists m ds → is_listed hal m ds ≡ true
  unfolding is_listed Lists
  is_listed-Lists m [] long l = absurd l
  is_listed-Lists m (d ∷ ds) long (inl e) =
      let cut : strscpy 18 (hal.format_mac d) ≡ m =
        take_of_length-le 17 (hal.format_mac d) (omega (arith, ap length e, long)) ∙ e in
      ground (arith, cut, ap length e, long)
  is_listed-Lists m (d ∷ ds) long (inr l) = ground (arith, is_listed-Lists m ds long l)

  not_listed-Lists :
      (m : CString) (ds : List CString) → (Lists m ds → ⊥) → is_listed hal m ds ≡ false
  unfolding is_listed Lists
  not_listed-Lists m [] not_in = refl
  not_listed-Lists m (d ∷ ds) not_in = elim (Bool-cases (length (hal.format_mac d) == 17)) [
    | inl long ↦
        let cut : strscpy 18 (hal.format_mac d) ≡ hal.format_mac d =
          take_of_length-le 17 (hal.format_mac d) (ground (arith, long)) in
        rw
          (
            long,
            if_neg (str_dec m (strscpy 18 (hal.format_mac d))) (λ e. not_in (inl (sym (e ∙ cut)))),
          )
          (not_listed-Lists m ds (λ l. not_in (inr l)))
    | inr other ↦ rw other (not_listed-Lists m ds (λ l. not_in (inr l)))
  ]

  survivor-left :
      (ap : ℕ) (m : CString) (ds : List CString) (s : State)
      → Reported hal s
      → is_listed hal m ds ≡ false
      → survivor hal ap ds (find str_dec m s.connected_clients)
        ≡ left_from ap (find str_dec m s.connected_clients)
  unfolding survivor left_from
  survivor-left ap m ds s r gone = elim (Option-cases (find str_dec m s.connected_clients)) [
    | inl e ↦ rw e refl
    | inr (c, e) ↦ ground (arith, e, found_mac hal ap ds m c s r e, gone)
  ]

  survivor-stays :
      (ap : ℕ) (m : CString) (ds : List CString) (s : State)
      → Reported hal s
      → is_listed hal m ds ≡ true
      → survivor hal ap ds (find str_dec m s.connected_clients) ≡ find str_dec m s.connected_clients
  unfolding survivor
  survivor-stays ap m ds s r there = elim (Option-cases (find str_dec m s.connected_clients)) [
    | inl e ↦ rw e refl
    | inr (c, e) ↦ ground (arith, e, found_mac hal ap ds m c s r e, there)
  ]

  the_le : {n : ℕ} → n ≡ 17 → n ≤ 17
  the_le e = omega (arith, e)

  Lists-cases : (m : CString) (ds : List CString) → Lists m ds ⊎ (Lists m ds → ⊥)
  unfolding Lists
  Lists-cases m [] = inr (λ l. l)
  Lists-cases m (d ∷ ds) = elim (str_dec (hal.format_mac d) m) [
    | yes e ↦ inl (inl e)
    | no ne ↦ elim (Lists-cases m ds) [
      | inl l ↦ inl (inr l)
      | inr not_later ↦ inr (λ l. elim l [ inl e ↦ ne e | inr later ↦ not_later later ])
    ]
  ]

  length-Lists :
      (exact : (d : CString) → length (hal.format_mac d) ≡ 17) (m : CString) (ds : List CString)
      → Lists m ds
      → length m ≡ 17
  unfolding Lists
  length-Lists exact m [] l = absurd l
  length-Lists exact m (d ∷ ds) (inl e) = subst (λ x. length x ≡ 17) e (exact d)
  length-Lists exact m (d ∷ ds) (inr l) = length-Lists exact m ds l

  -- What becomes of an address, by the entries before and after: none of the listed devices prints as
  -- it, and it keeps its entry unless that is of this access point; or one does, and it has an entry,
  -- if the build has no multi-PSK support.
  abbrev pub Outcome : ℕ → CString → List CString → Option Client → Option Client → Type 0
  Outcome ap m devices before after =
      ((Lists m devices → ⊥) × (after ≡ left_from ap before))
      ⊎ (Lists m devices × (Present hal ap after ⊎ (hal.multi_psk_support ≡ true)))

  -- From a state that its reports describe, with addresses that print in 17 bytes, and with a HAL
  -- that names the access point and lists its devices, a fetch succeeds. An address that no
  -- listed device prints as keeps its entry of before, unless that is of this access point, and
  -- then it has none. An address that a listed device prints as has an entry, unless the
  -- build has multi-PSK support: one of this access point, or one of an access point whose name
  -- the HAL does not tell.
  pub fetch_existing-Lists :
      (exact : (d : CString) → length (hal.format_mac d) ≡ 17) (index : ℕ) (m ifname : CString)
      (devices : List CString) (s : State)
      → hal.get_ap_name index ≡ some ifname
      → hal.get_associated_devices index ≡ some devices
      → Reported hal s
      → let (t, ok) = clients_hal_fetch_existing hal index s in
        (ok ≡ true)
        × Outcome index m devices
            (find str_dec m s.connected_clients)
            (find str_dec m t.connected_clients)
  unfolding clients_hal_fetch_existing
  fetch_existing-Lists exact index m ifname devices s named listed r =
      let short = (λ (d : CString). the_le (exact d)) in
      let fetched = fetch_devices hal index devices s in
      let r' = fetch_devices-Reported hal short index devices s r in
      let after = detect_disconnection-survivor hal index devices m ifname fetched named r' in
      rw (named, listed, clients_hal_fetch_existing)
        (
          refl,
          elim (Lists-cases m devices) [
            | inr not_in ↦ inl (
              not_in,
              after
                  ∙ survivor-left index m devices fetched r' (not_listed-Lists m devices not_in)
                  ∙ ap (left_from index)
                      (fetched-other short index ifname named m devices s not_in),
            )
            | inl there ↦ inr (
              there,
              elim (Bool-cases hal.multi_psk_support) [
                | inl multi ↦ inr multi
                | inr single ↦ inl (
                    subst (Present hal index)
                      (sym (
                        after
                        ∙ survivor-stays index m devices fetched r'
                            (is_listed-Lists m devices (length-Lists exact m devices there) there)))
                      (kept-Present short index ifname named m devices s single (inr there)))
              ],
            )
          ],
        )
