-- ===== src/Strconv.antt =====
-- Of Go's standard library, what pkg/config and pkg/db use of texts as bytes: literals, the package
-- strconv on a 64-bit int, and the verbs %s and %d of fmt.
pub mod Decimal
use Prim.Native.Char.{code}
use skillsphere_api.Common.{
  ◌+◌, ◌-◌, ◌*◌, ◌/◌, ◌%◌, ◌^◌, ℕ, zero, suc, String, Bool, true, false, ◌&&◌, ◌||◌, Option, none,
  some, List, [], ◌∷◌, ◌++◌, ltb, leb, ◌==◌, if◌then◌else◌,
}

abbrev pub Bytes : Type 0
Bytes = List ℕ

-- The bytes of a literal of ASCII characters.
abbrev pub ascii : String → Bytes
ascii String.[] = []
ascii (String.◌∷◌ c s) = code c ∷ ascii s

abbrev pub same_bytes : Bytes → Bytes → Bool
same_bytes [] [] = true
same_bytes [] (b ∷ t) = false
same_bytes (a ∷ s) [] = false
same_bytes (a ∷ s) (b ∷ t) = (a == b) && same_bytes s t

-- The comparison of a string with "".
abbrev pub is_nil : Bytes → Bool
is_nil [] = true
is_nil (a ∷ s) = false

pub data ℤ : Type 0 where
  pos negsuc : ℕ → ℤ

-- The values of Go's int on a 64-bit machine.
abbrev pub in_int64 : ℤ → Bool
in_int64 (pos n) = ltb n (2 ^ 63)
in_int64 (negsuc n) = ltb n (2 ^ 63)

abbrev pub is_digit : ℕ → Bool
is_digit b = leb 48 b && leb b 57

-- Digits, the most significant first, after those that made a value.
unfoldable pub parse_digits : Bytes → ℕ → Option ℕ
parse_digits [] v = some v
parse_digits (b ∷ s) v =
    let rest = parse_digits s (v * 10 + (b - 48)) in if is_digit b then rest else none

unfoldable pub parse_nat : Bytes → Option ℕ
unfolding parse_digits
parse_nat [] = none
parse_nat (b ∷ s) = parse_digits (b ∷ s) 0

abbrev pub with_sign : Bool → ℕ → ℤ
with_sign false n = pos n
with_sign true zero = pos zero
with_sign true (suc n) = negsuc n

-- A value out of the range is strconv.ErrRange.
abbrev pub in_range : Bool → Option ℕ → Option ℤ
in_range negative none = none
in_range negative (some n) =
    if in_int64 (with_sign negative n) then some (with_sign negative n) else none

-- strconv.Atoi
unfoldable pub atoi : Bytes → Option ℤ
unfolding parse_nat
atoi [] = none
atoi (b ∷ s) =
    if b == 45
    then in_range true (parse_nat s)
    else if b == 43
    then in_range false (parse_nat s)
    else in_range false (parse_nat (b ∷ s))

-- strconv.ParseBool
unfoldable pub parse_bool : Bytes → Option Bool
parse_bool s =
    if any_same ("1" ∷ "t" ∷ "T" ∷ "true" ∷ "TRUE" ∷ "True" ∷ [])
    then some true
    else if any_same ("0" ∷ "f" ∷ "F" ∷ "false" ∷ "FALSE" ∷ "False" ∷ [])
    then some false
    else none
  where
    any_same : List String → Bool
    any_same [] = false
    any_same (t ∷ ts) = same_bytes s (ascii t) || any_same ts

-- The decimal digits of a number below 10 ^ fuel.
unfoldable pub digits : ℕ → ℕ → Bytes
digits zero n = []
digits (suc fuel) n =
    let rest = digits fuel (n / 10) in
    if ltb n 10 then (48 + n) ∷ [] else rest ++ ((48 + n % 10) ∷ [])

-- The verb %d. An int has at most 19 digits.
unfoldable pub itoa : ℤ → Bytes
unfolding digits
itoa (pos n) = digits 20 n
itoa (negsuc n) = 45 ∷ digits 20 (suc n)
