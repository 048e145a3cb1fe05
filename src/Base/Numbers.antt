-- ===== src/Base/Numbers.antt =====
-- strconv.ParseUint, strconv.Atoi, strconv.ParseBool and strconv.Itoa.
use Prim.Native.Nat.{ℕ, zero, suc, ◌+◌, ◌-◌, ◌*◌, ◌/◌, ◌%◌, ◌^◌, ◌≤◌}
use mathlib.Core.Path.{◌≡◌, refl}
use mathlib.Core.Logic.{inl, inr}
use mathlib.Core.Bool.{Bool, true, false, ◌&&◌, ◌||◌}
use mathlib.Core.Option.{Option, none, some}
use mathlib.Core.List.{List, [], ◌∷◌}
use native.Mathlib.Omega.{arith}
use dcos_log.Base.Tests.{◌==◌, ltb, leb, if◌then◌else◌, Option-cases}
use dcos_log.Base.ByteStrings.{Bytes, bytes, bytes_eq}
use dcos_log.Base.Int.{ℤ, pos, negsuc}

abbrev pub max_uint64 : ℕ
max_uint64 = 2 ^ 64 - 1

-- The value of a digit in a base of at most 36.
unfoldable pub digit_value : ℕ → Option ℕ
digit_value c =
    if leb b'0' c && leb c b'9'
    then some (c - b'0')
    else if leb b'a' c && leb c b'z'
    then some (c - b'a' + 10)
    else if leb b'A' c && leb c b'Z'
    then some (c - b'A' + 10)
    else none

-- A digit of the base, and none for any other byte.
unfoldable pub digit : ℕ → ℕ → Option ℕ
unfolding digit_value
digit base c = elim (digit_value c) [ none ↦ none | some d ↦ if ltb d base then some d else none ]

-- The digits of `s` read behind the number `n`; `none` for a bad digit or a value past 64 bits.
unfoldable pub scan : ℕ → Bytes → ℕ → Option ℕ
scan base [] n = some n
scan base (c ∷ s) n = elim (digit base c) [
  | none ↦ none
  | some d ↦ elim (leb (n * base + d) max_uint64) [
    | true ↦ scan base s (n * base + d)
    | false ↦ none
  ]
]

unfoldable pub parse_uint : ℕ → Bytes → Option ℕ
unfolding scan digit
parse_uint base [] = none
parse_uint base (c ∷ s) = scan base (c ∷ s) 0

-- The number behind a sign, if it is in the range of an int.
abbrev in_range : Bool → Option ℕ → Option ℤ
in_range negative none = none
in_range false (some n) = if ltb n (2 ^ 63) then some (pos n) else none
in_range true (some zero) = some (pos 0)
in_range true (some (suc n)) = if ltb n (2 ^ 63) then some (negsuc n) else none

unfoldable pub atoi : Bytes → Option ℤ
atoi [] = none
atoi (c ∷ s) =
    if c == b'-'
    then in_range true (parse_uint 10 s)
    else if c == b'+'
    then in_range false (parse_uint 10 s)
    else in_range false (parse_uint 10 (c ∷ s))

abbrev one_of : Bytes → List Bytes → Bool
one_of s [] = false
one_of s (t ∷ ts) = bytes_eq s t || one_of s ts

unfoldable pub parse_bool : Bytes → Option Bool
unfolding bytes_eq
parse_bool s =
    if one_of s
      (bytes "1" ∷ bytes "t" ∷ bytes "T" ∷ bytes "TRUE" ∷ bytes "true" ∷ bytes "True" ∷ [])
    then some true
    else if one_of s
        (bytes "0" ∷ bytes "f" ∷ bytes "F" ∷ bytes "FALSE" ∷ bytes "false" ∷ bytes "False" ∷ [])
    then some false
    else none

-- The decimal digits of `n` in front of `out`; a number of 64 bits has at most 20.
unfoldable pub decimal : ℕ → ℕ → Bytes → Bytes
decimal zero n out = out
decimal (suc fuel) n out =
    let out' = (b'0' + n % 10) ∷ out in
    let rest = decimal fuel (n / 10) out' in if ltb n 10 then out' else rest

unfoldable pub format_uint : ℕ → Bytes
unfolding decimal
format_uint n = decimal 20 n []

unfoldable pub itoa : ℤ → Bytes
unfolding format_uint
itoa (pos n) = format_uint n
itoa (negsuc n) = b'-' ∷ format_uint (n + 1)

-- A number read from digits is in the range of a uint64.
scan-le :
    (base : ℕ) (s : Bytes) (n : ℕ) {r : ℕ}
    → n ≤ max_uint64
    → scan base s n ≡ some r
    → r ≤ max_uint64
unfolding scan
scan-le base [] n h e = ground arith
scan-le base (c ∷ s) n {r} h e = elim (Option-cases (digit base c)) [
  | inl bad ↦ ground arith
  | inr (d, read) ↦ ground (arith, scan-le base s (n * base + d) {r = r})
]

pub parse_uint-le : (base : ℕ) (s : Bytes) {r : ℕ} → parse_uint base s ≡ some r → r ≤ max_uint64
unfolding parse_uint
parse_uint-le base [] e = ground arith
parse_uint-le base (c ∷ s) e = scan-le base (c ∷ s) 0 (omega arith) e

parse_tests :
    (parse_uint 16 (bytes "fF") ≡ some 255)
    × (parse_uint 10 (bytes "18446744073709551616") ≡ none)
    × (atoi (bytes "-12") ≡ some (negsuc 11))
    × (atoi (bytes "+7") ≡ some (pos 7))
    × (atoi (bytes "-") ≡ none)
    × (itoa (negsuc 119) ≡ bytes "-120")
unfolding parse_uint atoi itoa
parse_tests = (refl, refl, refl, refl, refl, refl)
