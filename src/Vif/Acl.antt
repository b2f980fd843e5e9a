-- ===== src/Vif/Acl.antt =====
-- The access list of an interface, src/lib/target/src/vif.c, for HALs that give it as a text: its
-- columns, and how it is brought to the configured one.
pub mod Applied
use opensync_platform_rdk.Common.{
  ℕ, zero, suc, ◌+◌, ◌-◌, Bool, true, false, not, ◌&&◌, ◌||◌, List, [], ◌∷◌, ◌++◌, Option, none,
  some, if◌then◌else◌, ◌==◌, ltb, leb, CString, bytes, str_eq, length, take,
}
use opensync_platform_rdk.Vif.Types.{
  FilterMode, white_list, black_list, filter_other, BssInfo, VapInfo, Row, VifConfig, Flags,
  Kconfig, VifHal, VifCall, del_acl, add_acl,
}
use opensync_platform_rdk.Vif.Security.{text}

-- ACL_BUF_SIZE, and MAC_STR_LEN without the terminator
abbrev pub acl_buf_size : ℕ
acl_buf_size = 1024

abbrev pub mac_str_len : ℕ
mac_str_len = 17

-- map_acl_modes
unfoldable pub acl_mode_text : FilterMode → Option CString
acl_mode_text white_list = some (bytes "whitelist")
acl_mode_text black_list = some (bytes "blacklist")
acl_mode_text filter_other = none

unfoldable pub acl_mode_of : CString → Option FilterMode
acl_mode_of s =
    if str_eq s (bytes "whitelist")
    then some white_list
    else if str_eq s (bytes "blacklist")
    then some black_list
    else none

-- The separators "," and "\n", and strtok_r over a text: its longest pieces without separator.
abbrev pub is_separator : ℕ → Bool
is_separator c = c == 44 || c == 10

abbrev pub emit : CString → List CString → List CString
emit [] out = out
emit (c ∷ cs) out = (c ∷ cs) ∷ out

unfoldable pub tokens_from : CString → CString → List CString
tokens_from piece [] = emit piece []
tokens_from piece (c ∷ cs) =
    if is_separator c then emit piece (tokens_from [] cs) else tokens_from (piece ++ c ∷ []) cs

unfoldable pub strtok : CString → List CString
unfolding tokens_from
strtok s = tokens_from [] s

-- The pieces that have the length of an address.
unfoldable pub well_formed : List CString → List CString
well_formed [] = []
well_formed (p ∷ ps) = if length p == mac_str_len then p ∷ well_formed ps else well_formed ps

-- The loop over a list of strings that looks for one.
unfoldable pub in_list : CString → List CString → Bool
in_list s [] = false
in_list s (x ∷ xs) = if str_eq s x then true else in_list s xs

-- The list of the HAL, appended to the column.
unfoldable pub acl_listed : Option CString → Row → Row × Bool
unfolding strtok well_formed
acl_listed none row = (row, false)
acl_listed (some acl) row = if leb acl_buf_size (length acl) then (row, false) else (
  record row { mac_list_present = true; mac_list = row.mac_list ++ well_formed (strtok acl) },
  true,
)

-- acl_to_state and acl_to_config, which differ in the test for home interfaces: the columns after
-- the call, and what it returns. `skip` is that test.
unfoldable pub acl_to_row : VifHal → Bool → VapInfo → Row → Row × Bool
unfolding acl_mode_text acl_listed
acl_to_row hal skip v row =
    let acl = hal.acl_devices v.vap_index in
    (if skip
      then (row, true)
      else (if v.bss.filter_enable
          then elim (acl_mode_text v.bss.filter_mode) [
            | none ↦ (record row { mac_list_type = some [] }, false)
            | some t ↦ acl_listed acl (record row { mac_list_type = some t })
          ]
          else acl_listed acl (record row { mac_list_type = some (bytes "none") })))

unfoldable pub is_home_ap : Kconfig → CString → Bool
unfolding in_list
is_home_ap kc ifname = in_list ifname kc.home_ifnames

unfoldable pub acl_to_state : Kconfig → VifHal → VapInfo → Row → Row × Bool
unfolding acl_to_row is_home_ap
acl_to_state kc hal v row =
    acl_to_row hal (not kc.sync_ext_home_acls && is_home_ap kc v.vap_name) v row

unfoldable pub acl_to_config : VifHal → VapInfo → VifConfig → VifConfig × Bool
unfolding acl_to_row
acl_to_config hal v conf = acl_to_row hal false v conf

-- acl_buf_to_acl_list, after `i` pieces, with room for `size`.
unfoldable pub acl_buf_to_acl_list : ℕ → ℕ → List CString → Option (List CString)
acl_buf_to_acl_list size i [] = some []
acl_buf_to_acl_list size i (p ∷ ps) =
    let more = acl_buf_to_acl_list size (suc i) ps in
    (if not (length p == mac_str_len)
      then none
      else (if leb size i then none else elim more [ none ↦ none | some l ↦ some (p ∷ l) ]))

unfoldable pub get_acl_list : VifHal → ℕ → Option (List CString)
unfolding acl_buf_to_acl_list strtok
get_acl_list hal i = elim (hal.acl_device_num i) [
  | none ↦ none
  | some zero ↦ some []
  | some (suc n) ↦ elim (hal.acl_devices i) [
    | none ↦ none
    | some acl ↦
        (if leb acl_buf_size (length acl) then none else acl_buf_to_acl_list (suc n) 0 (strtok acl))
  ]
]

unfoldable pub remove_not_needed_acls : ℕ → List CString → List CString → List VifCall
unfolding in_list
remove_not_needed_acls i wanted [] = []
remove_not_needed_acls i wanted (x ∷ current) =
    if in_list x wanted
    then remove_not_needed_acls i wanted current
    else del_acl i x ∷ remove_not_needed_acls i wanted current

unfoldable pub add_needed_acls : ℕ → List CString → List CString → List VifCall
unfolding in_list
add_needed_acls i current [] = []
add_needed_acls i current (x ∷ wanted) =
    if in_list x current
    then add_needed_acls i current wanted
    else add_acl i x ∷ add_needed_acls i current wanted

-- The part of acl_apply that changes the list: its calls.
unfoldable pub apply_list : VifHal → ℕ → List CString → List VifCall
unfolding get_acl_list remove_not_needed_acls add_needed_acls
apply_list hal i wanted = elim (get_acl_list hal i) [
  | none ↦ []
  | some current ↦ remove_not_needed_acls i wanted current ++ add_needed_acls i current wanted
]

-- The part that sets the type: the interface, and whether the type is one that the code knows.
unfoldable pub apply_type : CString → BssInfo → Option BssInfo
unfolding acl_mode_of
apply_type t b =
    if str_eq (bytes "none") t
    then some (record b { filter_enable = false })
    else elim (acl_mode_of t) [
      | none ↦ none
      | some m ↦ some (record b { filter_enable = true; filter_mode = m })
    ]

-- acl_apply: the interface, whether it must be configured anew, and the calls.
unfoldable pub acl_apply :
    Kconfig → VifHal → ℕ → VifConfig → Flags → Bool → VapInfo → VapInfo × Bool × List VifCall
unfolding is_home_ap apply_type apply_list
acl_apply kc hal i conf changed trigger v =
    let calls = (if changed.mac_list then apply_list hal i conf.mac_list else []) in
    (if not kc.sync_ext_home_acls && is_home_ap kc v.vap_name
      then (v, trigger, [])
      else (if changed.mac_list_type
          then elim (conf.mac_list_type) [
            | none ↦ (v, trigger, calls)
            | some t ↦ elim (apply_type t v.bss) [
              | none ↦ (v, trigger, [])
              | some b ↦ (record v { bss = b }, true, calls)
            ]
          ]
          else (v, trigger, calls)))
