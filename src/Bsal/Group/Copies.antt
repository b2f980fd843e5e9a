-- ===== src/Bsal/Group/Copies.antt =====
-- What the memory copies of the group's code copy.
use opensync_platform_rdk.Common.{
  ◌≡◌, inl, inr, refl, Bool-cases, List, [], ◌∷◌, none, some, Option-cases, ite, if◌then◌else◌,
  length, replicate, CString, str_dec, arith,
}
use opensync_platform_rdk.Bsal.Types.{uninitialized, ApConfig, Iface, no_config}
use opensync_platform_rdk.Bsal.{
  has_band, group_get_iface_by_name, write_slot, group_add_iface, fill_configs,
  create_wifihal_ap_config_list,
}

abbrev last_config : ApConfig → List Iface → ApConfig
last_config c [] = c
last_config c (i ∷ is) = last_config i.wifihal_cfg is

fill_configs-first :
    (g : List Iface) (c : ApConfig) (cs : List ApConfig)
    → fill_configs g (c ∷ cs) ≡ last_config c g ∷ cs
unfolding fill_configs
fill_configs-first [] c cs = refl
fill_configs-first (i ∷ is) c cs = fill_configs-first is i.wifihal_cfg cs

-- The list that announces a group of one interface or more has the configuration of the last
-- interface as its first entry, and all its other entries are zero.
pub create_wifihal_ap_config_list-last :
    (i : Iface) (is : List Iface)
    → create_wifihal_ap_config_list (i ∷ is)
      ≡ last_config i.wifihal_cfg is ∷ replicate (length is) no_config
unfolding create_wifihal_ap_config_list fill_configs
create_wifihal_ap_config_list-last i is =
    fill_configs-first is i.wifihal_cfg (replicate (length is) no_config)

write_free-lookup :
    (ifname : CString) (stack : Iface) (g g' : List Iface)
    → group_get_iface_by_name ifname g ≡ none
    → write_slot uninitialized stack g ≡ some g'
    → group_get_iface_by_name ifname g' ≡ (
        if has_band uninitialized stack
        then none
        else ite (str_dec ifname stack.bsal_cfg.ifname) (some stack) none)
unfolding group_get_iface_by_name write_slot
write_free-lookup ifname stack [] g' absent e = absurd (ground arith)
write_free-lookup ifname stack (i ∷ is) g' absent e =
    elim (Option-cases (write_slot uninitialized stack is)) [
      | inl f ↦ ground arith
      | inr (rest, f) ↦ elim (Bool-cases (has_band uninitialized i)) [
        | inl free ↦ ground arith
        | inr used ↦ ground (arith, write_free-lookup ifname stack is rest (ground arith) f)
      ]
    ]

-- An interface that was added without error is found under its name exactly if the stack memory
-- that was copied in its place happens to be an interface in use of that name.
pub group_add-lookup :
    (stack iface : Iface) (g g' : List Iface)
    → group_add_iface stack iface g ≡ some g'
    → group_get_iface_by_name iface.bsal_cfg.ifname g' ≡ (
        if has_band uninitialized stack
        then none
        else ite (str_dec iface.bsal_cfg.ifname stack.bsal_cfg.ifname) (some stack) none)
unfolding group_add_iface
group_add-lookup stack iface g g' e =
    elim (Option-cases (group_get_iface_by_name iface.bsal_cfg.ifname g)) [
      | inl f ↦ write_free-lookup iface.bsal_cfg.ifname stack g g' f (ground arith)
      | inr (i, f) ↦ absurd (ground arith)
    ]
