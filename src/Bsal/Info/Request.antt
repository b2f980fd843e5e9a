-- ===== src/Bsal/Info/Request.antt =====
-- What the association request of a client gives.
use opensync_platform_rdk.Common.{
  ℕ, ◌≤◌, ◌≡◌, inl, inr, true, ◌++◌, List, some, Option-cases, Bool-cases, ltb, length, CString,
  arith,
}
use opensync_platform_rdk.Bsal.Types.{ClientInfo, Hal}
use opensync_platform_rdk.Bsal.Rates.{for_each_element, parse_elements, set_client_legacy}
use opensync_platform_rdk.Bsal.Rates.Elements.{
  encode, walked, Bounded, elements-Bounded, for_each-encode,
}
use opensync_platform_rdk.Bsal.Info.{read_assoc_ies, behind}

-- Whatever bytes the HAL gives for the association request, well formed or not, and whatever stands
-- in memory after the array: if the function
-- succeeds, the channel width is at most 3 (160 MHz), the highest rate at most 9 and the number of
-- streams at most 8.
pub read_assoc_ies-Bounded :
    (ies_max : ℕ) (stack : CString) (hal : Hal) (ap_index : ℕ) (mac : CString) (info : ClientInfo)
    → (read_assoc_ies ies_max stack hal ap_index mac info).0 ≡ true
    → Bounded (read_assoc_ies ies_max stack hal ap_index mac info).1.datarate_info
unfolding read_assoc_ies set_client_legacy
read_assoc_ies-Bounded ies_max stack hal ap_index mac info done =
    elim (Option-cases (hal.assoc_req_ies ap_index mac)) [
      | inl e ↦ absurd (ground arith)
      | inr (ies, e) ↦ elim (Bool-cases (ltb ies_max (length ies))) [
        | inl big ↦ absurd (ground arith)
        | inr fits ↦
            rw (e, fits, read_assoc_ies)
              (elements-Bounded
                (for_each_element (length ies) (ies ++ behind stack ies) (length ies)) _
                (record { width = omega arith; mcs = omega arith; streams = omega arith }))
      ]
    ]

-- A request that is a list of elements, and that fits into assoc_ies, is read element by element, in order; each
-- is decoded from its own data and what follows it: the rest of the request, the zeros up to the
-- end of the array of 1024 bytes, and then whatever memory stands after the array.
pub read_assoc_ies-encode :
    (ies_max : ℕ) (stack : CString) (hal : Hal) (ap_index : ℕ) (mac : CString) (info : ClientInfo)
    (es : List (ℕ × CString))
    → hal.assoc_req_ies ap_index mac ≡ some (encode es)
    → length (encode es) ≤ ies_max
    → read_assoc_ies ies_max stack hal ap_index mac info ≡ (
      true,
      parse_elements
          (walked es (behind stack (encode es)))
          (set_client_legacy (record info { assoc_ies = encode es })),
    )
unfolding read_assoc_ies
read_assoc_ies-encode ies_max stack hal ap_index mac info es given fits =
    ground (
      arith,
      given,
      for_each-encode (length (encode es)) es (behind stack (encode es)) (omega arith),
    )
