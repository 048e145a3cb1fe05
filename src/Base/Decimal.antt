-- ===== src/Base/Decimal.antt =====
-- strconv.Atoi reads what strconv.Itoa prints.
use Prim.Native.Nat.{ℕ, zero, suc, ◌+◌, ◌*◌, ◌/◌, ◌%◌, ◌^◌, ◌≤◌, ◌<◌}
use mathlib.Core.Path.{◌≡◌, refl, sym, ap, ◌∙◌}
use mathlib.Core.Logic.{inl, inr}
use mathlib.Core.Option.{some}
use mathlib.Core.List.{[], ◌∷◌}
use native.Mathlib.Nat.{pow-suc}
use native.Mathlib.Omega.{arith}
use dcos_log.Base.Tests.{ltb, Bool-cases}
use dcos_log.Base.Lists.{length}
use dcos_log.Base.ByteStrings.{Bytes}
use dcos_log.Base.Int.{pos, negsuc}
use dcos_log.Base.Numbers.{
  digit, digit_value, scan, parse_uint, decimal, format_uint, itoa, atoi, max_uint64,
}

scan_last :
    (n : ℕ) (out : Bytes)
    → n ≤ max_uint64
    → scan 10 ((b'0' + n % 10) ∷ out) (n / 10) ≡ scan 10 out n
unfolding scan digit digit_value
scan_last n out h = ground arith

fits_less : (fuel n : ℕ) → n < 10 ^ suc fuel → n / 10 < 10 ^ fuel
fits_less fuel n h = let larger : 10 ^ suc fuel ≡ 10 ^ fuel * 10 = pow-suc 10 fuel in omega arith

scan-decimal :
    (fuel n : ℕ) (out : Bytes)
    → n < 10 ^ fuel
    → n ≤ max_uint64
    → scan 10 (decimal fuel n out) 0 ≡ scan 10 out n
unfolding decimal
scan-decimal zero n out h k = ap (scan 10 out) {x = 0} {y = n} (omega arith)
scan-decimal (suc fuel) n out h k = elim (Bool-cases (ltb n 10)) [
  | inl short ↦
      rw short (
        ap (scan 10 ((b'0' + n % 10) ∷ out)) {x = 0} {y = n / 10} (ground arith)
        ∙ scan_last n out k)
  | inr long ↦ rw long (
      scan-decimal fuel (n / 10) ((b'0' + n % 10) ∷ out) (fits_less fuel n h) (omega arith)
      ∙ scan_last n out k)
]

length-decimal : (fuel n : ℕ) (out : Bytes) → length (decimal fuel n out) ≤ fuel + length out
unfolding decimal
length-decimal zero n out = omega arith
length-decimal (suc fuel) n out =
    ground (arith, length-decimal fuel (n / 10) ((b'0' + n % 10) ∷ out))

pub length-itoa : (n : ℕ) → length (itoa (pos n)) ≤ 20
unfolding itoa
length-itoa n = length-decimal 20 n []

-- The text starts with a digit.
head-decimal :
    (fuel n : ℕ) (out : Bytes)
    → (c : ℕ) × (s : Bytes) × (decimal (suc fuel) n out ≡ c ∷ s) × (b'0' ≤ c) × (c ≤ b'9')
unfolding decimal
head-decimal zero n out = (b'0' + n % 10, out, ground arith, omega arith, omega arith)
head-decimal (suc fuel) n out = elim (Bool-cases (ltb n 10)) [
  | inl short ↦ (b'0' + n % 10, out, rw short, omega arith, omega arith)
  | inr long ↦
      let (c, s, e, low, high) = head-decimal fuel (n / 10) ((b'0' + n % 10) ∷ out) in
      (c, s, rw long e, low, high)
]

parse_digits :
    (c : ℕ) (s : Bytes) (n : ℕ) → scan 10 (c ∷ s) 0 ≡ some n → parse_uint 10 (c ∷ s) ≡ some n
unfolding parse_uint
parse_digits c s n e = e

atoi_digits :
    (c : ℕ) (s : Bytes) (n : ℕ)
    → b'0' ≤ c
    → n < 2 ^ 63
    → scan 10 (c ∷ s) 0 ≡ some n
    → atoi (c ∷ s) ≡ some (pos n)
unfolding atoi
atoi_digits c s n low h e = ground (arith, parse_digits c s n e)

pub atoi-itoa : (n : ℕ) → n < 2 ^ 63 → atoi (itoa (pos n)) ≡ some (pos n)
unfolding itoa
atoi-itoa n h =
    let (c, s, e, low, high) = head-decimal 19 n [] in
    ap atoi e
    ∙ atoi_digits c s n low h (
        ap (λ t. scan 10 t 0) (sym e)
        ∙ scan-decimal 20 n [] (omega arith) (omega arith)
        ∙ unfold scan in refl)

-- Printing a number of 64 bits and reading it gives the number.
pub parse_uint-format_uint : (n : ℕ) → n ≤ max_uint64 → parse_uint 10 (format_uint n) ≡ some n
unfolding format_uint
parse_uint-format_uint n h =
    let (c, s, e, low, high) = head-decimal 19 n [] in
    ap (parse_uint 10) e
    ∙ parse_digits c s n
        (ap (λ t. scan 10 t 0) (sym e) ∙ scan-decimal 20 n [] (omega arith) h ∙ unfold scan in refl)

pub atoi-itoa_negsuc : (n : ℕ) → n < 2 ^ 63 → atoi (itoa (negsuc n)) ≡ some (negsuc n)
unfolding itoa atoi
atoi-itoa_negsuc n h = rw (parse_uint-format_uint (n + 1) (omega arith)) (ground arith)
