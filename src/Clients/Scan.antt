-- ===== src/Clients/Scan.antt =====
-- The call sscanf(mac, "%hhx:%hhx:%hhx:%hhx:%hhx:%hhx", ...) of clients_hal_dissocdev_cb.
use opensync_platform_rdk.Common.{
  ℕ, zero, suc, ◌+◌, ◌-◌, ◌*◌, ◌%◌, ◌^◌, min, Bool, true, false, ◌&&◌, ◌||◌, [], ◌∷◌, Option, none,
  some, if◌then◌else◌, ◌==◌, leb, CString, replicate, ◌≡◌, refl, bytes,
}

hex_digit : ℕ → Option ℕ
hex_digit c =
    if leb b'0' c && leb c b'9'
    then some (c - b'0')
    else if leb b'a' c && leb c b'f'
    then some (c - b'a' + 10)
    else if leb b'A' c && leb c b'F'
    then some (c - b'A' + 10)
    else none

-- The digits of a number, which stops at ULONG_MAX, and the rest of the text.
hex_digits : ℕ → CString → ℕ × CString
unfolding hex_digit
hex_digits acc [] = (acc, [])
hex_digits acc (c ∷ cs) = elim (hex_digit c) [
  | none ↦ (acc, c ∷ cs)
  | some d ↦ hex_digits (min (acc * 16 + d) (2 ^ 64 - 1)) cs
]

-- At least one digit.
hex_number : CString → Option (ℕ × CString)
unfolding hex_digits
hex_number [] = none
hex_number (c ∷ cs) = elim (hex_digit c) [ none ↦ none | some d ↦ some (hex_digits d cs) ]

-- A number may stand behind "0x".
hex_prefixed : CString → Option (ℕ × CString)
unfolding hex_number
hex_prefixed (c ∷ x ∷ cs) = elim (c == b'0' && (x == b'x' || x == b'X')) [
  | true ↦ elim (hex_number cs) [ none ↦ hex_number (c ∷ x ∷ cs) | some r ↦ some r ]
  | false ↦ hex_number (c ∷ x ∷ cs)
]
hex_prefixed s = hex_number s

abbrev is_space : ℕ → Bool
is_space c = c == b' ' || leb 9 c && leb c 13

skip_spaces : CString → CString
skip_spaces [] = []
skip_spaces (c ∷ cs) = elim (is_space c) [ true ↦ skip_spaces cs | false ↦ c ∷ cs ]

-- A sign; the result is converted to an unsigned char.
hex_signed : CString → Option (ℕ × CString)
unfolding hex_prefixed
hex_signed [] = none
hex_signed (c ∷ cs) =
    if c == b'-'
    then (elim (hex_prefixed cs) [
      | none ↦ none
      | some (v, rest) ↦ some ((256 - v % 256) % 256, rest)
    ])
    else (elim (hex_prefixed (if c == b'+' then cs else c ∷ cs)) [
      | none ↦ none
      | some (v, rest) ↦ some (v % 256, rest)
    ])

-- The conversions that are left; a byte that is not converted keeps the zero of memset.
scan_bytes : ℕ → CString → CString
unfolding hex_signed skip_spaces
scan_bytes zero s = []
scan_bytes (suc n) s = elim (hex_signed (skip_spaces s)) [
  | none ↦ replicate (suc n) 0
  | some (v, []) ↦ v ∷ replicate n 0
  | some (v, c ∷ rest) ↦
      let more = scan_bytes n rest in v ∷ (if c == b':' then more else replicate n 0)
]

unfoldable pub scan_mac : CString → CString
unfolding scan_bytes
scan_mac s = scan_bytes 6 s

scan_mac_text : scan_mac (bytes "f4:09:D8:89:54:4f") ≡ 0xf4 ∷ 0x09 ∷ 0xd8 ∷ 0x89 ∷ 0x54 ∷ 0x4f ∷ []
unfolding scan_mac
scan_mac_text = refl

scan_mac_stops : scan_mac (bytes "f4:09;D8") ≡ 0xf4 ∷ 0x09 ∷ 0 ∷ 0 ∷ 0 ∷ 0 ∷ []
unfolding scan_mac
scan_mac_stops = refl
