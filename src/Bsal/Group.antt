-- ===== src/Bsal/Group.antt =====
-- The group of interfaces: what its operations do to the slots, and what the HAL is told.
pub mod Copies
use opensync_platform_rdk.Common.{
  length-replicate, ℕ, suc, zero, ◌≡◌, ◌⊎◌, inl, inr, refl, ap, ◌∙◌, Bool, true, false, Bool-cases,
  List, [], ◌∷◌, Option, none, some, Option-cases, ite, if◌then◌else◌, length, replicate, set, All,
  CString, str_dec, arith,
}
use opensync_platform_rdk.Bsal.Types.{
  Band, uninitialized, Band-discrete, IfConfig, ApConfig, Iface, Call, set_group, Hal, State,
  no_config, no_iface,
}
use opensync_platform_rdk.Bsal.{
  call_hal, has_band, lookup_ifname, group_get_iface_by_name, write_slot, group_add_iface,
  is_group_initialized, is_group_uninitialized, fill_configs, create_wifihal_ap_config_list,
  announce, target_bsal_iface_add, target_bsal_iface_update, target_bsal_iface_remove,
}

write_slot-length :
    (band : Band) (new : Iface) (g g' : List Iface)
    → write_slot band new g ≡ some g'
    → length g' ≡ length g
unfolding write_slot
write_slot-length band new [] g' e = ground arith
write_slot-length band new (i ∷ is) g' e = elim (Bool-cases (has_band band i)) [
  | inl b ↦ ground arith
  | inr b ↦ elim (Option-cases (write_slot band new is)) [
    | inl f ↦ ground arith
    | inr (rest, f) ↦ ground (arith, write_slot-length band new is rest f)
  ]
]

fill_configs-length : (g : List Iface) (cs : List ApConfig) → length (fill_configs g cs) ≡ length cs
unfolding fill_configs
fill_configs-length [] cs = refl
fill_configs-length (i ∷ is) [] = fill_configs-length is []
fill_configs-length (i ∷ is) (c ∷ cs) = fill_configs-length is (i.wifihal_cfg ∷ cs)

configs-length : (g : List Iface) → length (create_wifihal_ap_config_list g) ≡ length g
unfolding create_wifihal_ap_config_list
configs-length g = fill_configs-length g _ ∙ length-replicate (length g) no_config

-- A group of `n` interfaces is announced whole or removed, and its list has that many entries.
unfoldable pub SizedCall : ℕ → Call × Bool → Type 0
SizedCall n (set_group index count configs, ok) =
    ((count ≡ 0) ⊎ (count ≡ n)) × (length configs ≡ count)
SizedCall n (c, ok) = Unit

pub record Sized (n : ℕ) (s : State) : Type 0 where
  pub slots : length s.ifaces ≡ n
  pub calls : All (SizedCall n) s.calls

announce-Sized : (n : ℕ) (hal : Hal) (s : State) → Sized n s → Sized n (announce hal s).0
unfolding announce SizedCall
announce-Sized n hal s v = elim (Bool-cases (is_group_initialized s.ifaces)) [
  | inl e ↦
      rw (e, announce)
        (record { slots = v.slots; calls = ((inr v.slots, configs-length s.ifaces), v.calls) })
  | inr e ↦ rw (e, announce) v
]

-- An operation on the interfaces, with what the uninitialised memory that it reads holds.
pub data Operation : Type 0 where
  adds : Hal → Band → Iface → IfConfig → Operation
  updates : Hal → Band → IfConfig → Operation
  removes : Hal → Band → IfConfig → Operation

unfoldable pub operate : Operation → State → State
operate (adds hal held stack ifcfg) s = (target_bsal_iface_add hal held stack ifcfg s).0
operate (updates hal held ifcfg) s = (target_bsal_iface_update hal held ifcfg s).0
operate (removes hal held ifcfg) s = (target_bsal_iface_remove hal held ifcfg s).0

unfoldable pub operate_all : List Operation → State → State
operate_all [] s = s
operate_all (o ∷ os) s = operate_all os (operate o s)

group_add-length :
    (stack iface : Iface) (g g' : List Iface)
    → group_add_iface stack iface g ≡ some g'
    → length g' ≡ length g
unfolding group_add_iface
group_add-length stack iface g g' e =
    elim (Option-cases (group_get_iface_by_name iface.bsal_cfg.ifname g)) [
      | inl f ↦ write_slot-length uninitialized stack g g' (ground arith)
      | inr (i, f) ↦ absurd (ground arith)
    ]

-- The two operations that announce the group, for the outcomes of the look-up and of the write.
slots-Sized :
    (n : ℕ) (hal : Hal) (g : Option (List Iface)) (s : State)
    → ((g' : List Iface) → g ≡ some g' → length g' ≡ length s.ifaces)
    → Sized n s
    → Sized n
        (elim g as (λ g. State × Bool) [
          | none ↦ (s, false)
          | some group ↦ announce hal (record s { ifaces = group })
        ]).0
slots-Sized n hal none s keeps v = v
slots-Sized n hal (some g) s keeps v =
    announce-Sized n hal _ (record { slots = keeps g refl ∙ v.slots; calls = v.calls })

iface_add-Sized :
    (n : ℕ) (hal : Hal) (held : Band) (stack : Iface) (ifcfg : IfConfig) (s : State)
    → Sized n s
    → Sized n (target_bsal_iface_add hal held stack ifcfg s).0
unfolding target_bsal_iface_add
iface_add-Sized n hal held stack ifcfg s v = elim (Option-cases (lookup_ifname hal held ifcfg)) [
  | inl e ↦ rw (e, target_bsal_iface_add) v
  | inr (iface, e) ↦
      rw (e, target_bsal_iface_add)
        (slots-Sized n hal (group_add_iface stack iface s.ifaces) s
          (group_add-length stack iface s.ifaces) v)
]

iface_update-Sized :
    (n : ℕ) (hal : Hal) (held : Band) (ifcfg : IfConfig) (s : State)
    → Sized n s
    → Sized n (target_bsal_iface_update hal held ifcfg s).0
unfolding target_bsal_iface_update
iface_update-Sized n hal held ifcfg s v = elim (Option-cases (lookup_ifname hal held ifcfg)) [
  | inl e ↦ rw (e, target_bsal_iface_update) v
  | inr (iface, e) ↦
      rw (e, target_bsal_iface_update)
        (slots-Sized n hal (write_slot iface.band iface s.ifaces) s
          (write_slot-length iface.band iface s.ifaces) v)
]

iface_remove-Sized :
    (n : ℕ) (hal : Hal) (held : Band) (ifcfg : IfConfig) (s : State)
    → Sized n s
    → Sized n (target_bsal_iface_remove hal held ifcfg s).0
unfolding target_bsal_iface_remove SizedCall
iface_remove-Sized n hal held ifcfg s v = elim (Option-cases (lookup_ifname hal held ifcfg)) [
  | inl e ↦ rw (e, target_bsal_iface_remove) v
  | inr (iface, e) ↦ elim (Option-cases (write_slot iface.band no_iface s.ifaces)) [
    | inl f ↦ rw (e, f, target_bsal_iface_remove) v
    | inr (g, f) ↦ elim (Bool-cases (is_group_uninitialized g)) [
      | inl u ↦
          rw (e, f, u, target_bsal_iface_remove)
            (record {
              slots = write_slot-length iface.band no_iface s.ifaces g f ∙ v.slots;
              calls = ((inl refl, refl), v.calls);
            })
      | inr u ↦
          rw (e, f, u, target_bsal_iface_remove)
            (record {
              slots = write_slot-length iface.band no_iface s.ifaces g f ∙ v.slots;
              calls = v.calls;
            })
    ]
  ]
]

operate-Sized : (n : ℕ) (o : Operation) (s : State) → Sized n s → Sized n (operate o s)
unfolding operate
operate-Sized n (adds hal held stack ifcfg) s v = iface_add-Sized n hal held stack ifcfg s v
operate-Sized n (updates hal held ifcfg) s v = iface_update-Sized n hal held ifcfg s v
operate-Sized n (removes hal held ifcfg) s v = iface_remove-Sized n hal held ifcfg s v

-- However interfaces are added, updated and removed, whatever the HAL answers and whatever the
-- uninitialised memory holds: the group keeps its number of slots, and every call of
-- wifi_steering_setGroup announces either no interface or all of them, with a list of exactly as
-- many entries as it says.
pub operate_all-Sized :
    (n : ℕ) (os : List Operation) (s : State) → Sized n s → Sized n (operate_all os s)
unfolding operate_all
operate_all-Sized n [] s v = v
operate_all-Sized n (o ∷ os) s v = operate_all-Sized n os (operate o s) (operate-Sized n o s v)
