-- ===== src/Mesos/FileTime/Laws.antt =====
-- What UnmarshalJSON of mTime in dcos-log/mesos/files/reader/read.go reads.
use dcos_log.Base.{
  ℕ, ◌+◌, ◌*◌, ◌-◌, ◌≤◌, leb, ◌≡◌, refl, ap, sym, ◌∙◌, true, [], ◌∷◌, ◌++◌, arith, Bytes, bytes,
  bytes_eq, eq_of_bytes_eq, bytes_eq_refl, length, length-append, take, drop, take-append-drop,
  scan, digit, digit_value, parse_uint, max_uint64, format_uint, parse_uint-format_uint, none, some,
  inl, inr, Bool-cases, Option-cases,
}
use dcos_log.Mesos.FileTime.{trim_suffix, unmarshal_json}

-- No number has a point.
scan-point : (xs ys : Bytes) (n : ℕ) → scan 10 (xs ++ b'.' ∷ ys) n ≡ none
unfolding scan digit digit_value
scan-point [] ys n = refl
scan-point (x ∷ xs) ys n = elim (Option-cases (digit 10 x)) [
  | inl bad ↦ ground arith
  | inr (d, good) ↦ ground (arith, scan-point xs ys (n * 10 + d))
]

parse_uint-point : (xs ys : Bytes) → parse_uint 10 (xs ++ b'.' ∷ ys) ≡ none
unfolding parse_uint
parse_uint-point [] ys = scan-point [] ys 0
parse_uint-point (x ∷ xs) ys = scan-point (x ∷ xs) ys 0

drop-length-append : (xs ys : Bytes) → drop (length xs) (xs ++ ys) ≡ ys
drop-length-append [] ys = refl
drop-length-append (x ∷ xs) ys = drop-length-append xs ys

take-length-append : (xs ys : Bytes) → take (length xs) (xs ++ ys) ≡ xs
take-length-append [] ys = refl
take-length-append (x ∷ xs) ys = ap (λ t. x ∷ t) (take-length-append xs ys)

trim_suffix-append : (s suffix : Bytes) → trim_suffix (s ++ suffix) suffix ≡ s
unfolding trim_suffix
trim_suffix-append s suffix =
    let long = length-append {0} s suffix in
    let front : length (s ++ suffix) - length suffix ≡ length s = omega (arith, long) in
    let enough : leb (length suffix) (length (s ++ suffix)) ≡ true = ground (arith, long) in
    let same : bytes_eq (drop (length (s ++ suffix) - length suffix) (s ++ suffix)) suffix ≡ true =
      ap (λ n. bytes_eq (drop n (s ++ suffix)) suffix) front
      ∙ ap (λ t. bytes_eq t suffix) (drop-length-append s suffix)
      ∙ bytes_eq_refl suffix in
    let cut : trim_suffix (s ++ suffix) suffix
        ≡ take (length (s ++ suffix) - length suffix) (s ++ suffix) =
      ground arith in
    cut ∙ ap (λ n. take n (s ++ suffix)) front ∙ take-length-append s suffix

-- A text that is a number is not cut.
trim_suffix-number : (s : Bytes) (n : ℕ) → parse_uint 10 s ≡ some n → trim_suffix s (bytes ".0") ≡ s
unfolding trim_suffix
trim_suffix-number s n h = elim (Bool-cases (bytes_eq (drop (length s - 2) s) (bytes ".0"))) [
  | inl same ↦
      let whole : s ≡ take (length s - 2) s ++ bytes ".0" =
        sym (take-append-drop (length s - 2) s)
        ∙ ap (λ t. take (length s - 2) s ++ t)
            (eq_of_bytes_eq (drop (length s - 2) s) (bytes ".0") same) in
      let bad : parse_uint 10 s ≡ none =
        ap (parse_uint 10) whole ∙ parse_uint-point (take (length s - 2) s) (bytes "0") in
      absurd (cc)
  | inr other ↦ ground arith
]

-- The time of a file is read from the decimal number that is printed for it, with the suffix `.0` and
-- without, whatever the number of 64 bits.
pub unmarshal_json-format_uint :
    (n : ℕ)
    → n ≤ max_uint64
    → (unmarshal_json (format_uint n) ≡ some n)
      × (unmarshal_json (format_uint n ++ bytes ".0") ≡ some n)
unfolding unmarshal_json
unmarshal_json-format_uint n h =
    let number = parse_uint-format_uint n h in
    (
      ap (parse_uint 10) (trim_suffix-number (format_uint n) n number) ∙ number,
      ap (parse_uint 10) (trim_suffix-append (format_uint n) (bytes ".0")) ∙ number,
    )
