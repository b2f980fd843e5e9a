-- ===== src/Common/Text.antt =====
-- C strings and byte arrays as the list of their bytes, a string without its terminator.
use Prim.Native.Nat.{ℕ, ◌-◌}
use Prim.Native.Char.{code}
use Prim.Native.String.{String}
use mathlib.Core.Path.{◌≡◌, refl}
use native.Mathlib.Omega.{arith}
use mathlib.Core.Bool.{Bool, true, false}
use mathlib.Core.List.{List, [], ◌∷◌}
use native.Mathlib.Decide.{ℕ_discrete}
use opensync_platform_rdk.Common.Tests.{ltb, ◌==◌, if◌then◌else◌}
use opensync_platform_rdk.Common.Lists.{take}

abbrev pub CString : Type 0
CString = List ℕ

-- The bytes of an ASCII text.
abbrev pub bytes : String → CString
bytes String.[] = []
bytes (String.◌∷◌ c s) = code c ∷ bytes s

-- strcmp(a, b) == 0, and memcmp(a, b, n) == 0 on byte arrays of one size n.
unfoldable pub str_dec : Discrete CString
unfolding ℕ_discrete
str_dec = hlevel ℕ_discrete

-- The same test as a Boolean.
abbrev pub str_eq : CString → CString → Bool
str_eq [] [] = true
str_eq (x ∷ xs) (y ∷ ys) = if x == y then str_eq xs ys else false
str_eq xs ys = false

pub str_eq-true : (a b : CString) → str_eq a b ≡ true → a ≡ b
str_eq-true [] [] h = refl
str_eq-true (x ∷ xs) (y ∷ ys) h = ground (arith, h, str_eq-true xs ys)
str_eq-true [] (y ∷ ys) h = ground (arith, h)
str_eq-true (x ∷ xs) [] h = ground (arith, h)

-- strstr(s, part) != NULL
abbrev pub is_prefix : CString → CString → Bool
is_prefix [] s = true
is_prefix (x ∷ xs) [] = false
is_prefix (x ∷ xs) (y ∷ ys) = if x == y then is_prefix xs ys else false

abbrev pub has_part : CString → CString → Bool
has_part [] part = is_prefix part []
has_part (x ∷ xs) part = if is_prefix part (x ∷ xs) then true else has_part xs part

-- STRSCPY into an array of `size` bytes, the terminator included.
abbrev pub strscpy : ℕ → CString → CString
strscpy size s = take (size - 1) s

-- strcmp(a, b) < 0, and memcmp alike.
unfoldable pub str_lt : CString → CString → Bool
str_lt a [] = false
str_lt [] (y ∷ ys) = true
str_lt (x ∷ xs) (y ∷ ys) = if ltb x y then true else if ltb y x then false else str_lt xs ys
