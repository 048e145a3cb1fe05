-- ===== src/Mesos/SeekBack.antt =====
-- The search of calcOffset in dcos-log/mesos/files/reader/read.go for the last lines of a file.
use dcos_log.Base.{
  >>=-eq-ok, split-ne-nil, bytes, ℕ, zero, suc, ◌+◌, ◌≤◌, ◌<◌, ◌^◌, ◌≡◌, refl, ap, ◌≢◌, List, [],
  ◌∷◌, arith, Bytes, length, ℤ, pos, ◌-ℤ◌, +ℤ_pos, some, Result, ok, err, split,
}
use dcos_log.Mesos.Types.{chunk_size, Error, text, int, out_of_fuel, Line, ReadManager}
use dcos_log.Mesos.Text.{reverse_text}
use dcos_log.Mesos.Client.{
  do_request, new_request, file_path, split_last, read, place_lines, cut_partial, chunk_lines,
}
use dcos_log.Mesos.Setup.{calc_loop, calc_offset, skip_size}
use dcos_log.Mesos.Totality.{read-fuel}

-- No answer has more lines than an int can count twice.
abbrev pub IsBounded : ReadManager → Type 0
IsBounded rm =
    (offset size : ℤ) (ls : List Line) (delta : ℕ)
    → read rm offset size reverse_text ≡ ok (ls, delta)
    → length ls < 2 ^ 62

cut_partial-ne-nil : (offset : ℤ) (ls : List Bytes) → ls ≢ [] → (cut_partial offset ls).0 ≢ []
unfolding cut_partial
cut_partial-ne-nil offset [] h = absurd (h refl)
cut_partial-ne-nil offset (p ∷ []) h = cc
cut_partial-ne-nil offset (p ∷ (q ∷ ps)) h = unfold split_last in ground arith

pub place_lines-length :
    (offset : ℤ) (n : ℕ) (ls : List Bytes) → length (place_lines offset n ls) ≡ length ls
unfolding place_lines
place_lines-length offset n [] = refl
place_lines-length offset n (l ∷ ls) = ap suc (place_lines-length offset (n + (length l + 1)) ls)

pos_length {ℓ} : {A : Type ℓ} (xs : List A) → xs ≢ [] → 0 < length xs
pos_length [] h = absurd (h refl)
pos_length (x ∷ xs) h = omega arith

chunk_lines-length : (offset : ℤ) (chunk : Bytes) → 0 < length (chunk_lines offset chunk).0
unfolding chunk_lines
chunk_lines-length offset chunk =
    let parts = cut_partial-ne-nil offset (split chunk b'\n') (split-ne-nil chunk b'\n') in
    omega (
      arith,
      place_lines-length offset 0 (cut_partial offset (split chunk b'\n')).0,
      pos_length (cut_partial offset (split chunk b'\n')).0 parts,
    )

read-ne-nil :
    (rm : ReadManager) (offset size : ℤ) (ls : List Line) (delta : ℕ)
    → read rm offset size reverse_text ≡ ok (ls, delta)
    → 0 < length ls
unfolding read
read-ne-nil rm offset size ls delta h =
    let (req, h0, h1) =
      >>=-eq-ok
        (new_request rm (
          (bytes "path", text (file_path rm))
          ∷ (bytes "offset", int offset)
          ∷ (bytes "length", int size)
          ∷ []))
        _ h in
    let (resp, h2, h3) = >>=-eq-ok (do_request rm.client req) _ h1 in
    let counted = chunk_lines-length offset (reverse_text resp.content) in ground arith

calc_loop-ends :
    (fuel k m : ℕ) (offset size : ℤ) (rm : ReadManager)
    → skip_size rm ≡ pos m
    → k ≤ m
    → m < 2 ^ 62
    → m < k + fuel
    → IsBounded rm
    → (calc_loop fuel offset size (pos k) rm).1 ≢ some out_of_fuel
unfolding calc_loop read
calc_loop-ends zero k m offset size rm skip le fits enough bounded = absurd (omega arith)
calc_loop-ends (suc fuel) k m offset size rm skip le fits enough bounded =
    go (read rm offset size reverse_text) refl (λ n o below more.
      calc_loop-ends fuel (k + n) m o (pos chunk_size) (record rm { offset = o }) skip (omega arith)
        fits (omega arith) bounded)
  where
    go :
        (got : Result Error (List Line × ℕ))
        → read rm offset size reverse_text ≡ got
        → ((n : ℕ) (o : ℤ)
            → k + n < m
            → 0 < n
            → (calc_loop fuel o (pos chunk_size) (pos (k + n)) (record rm { offset = o })).1
              ≢ some out_of_fuel)
        → (calc_loop (suc fuel) offset size (pos k) rm).1 ≢ some out_of_fuel
    go (err e) h later = ground (arith, read-fuel rm offset size reverse_text)
    go (ok (ls, delta)) h later =
        let some_lines = read-ne-nil rm offset size ls delta h in
        let few = bounded offset size ls delta h in
        let total = +ℤ_pos k (length ls) (omega arith) in
        let on = later (length ls) (offset -ℤ (pos chunk_size -ℤ pos delta)) in
        ground (arith, h, total, skip)

-- The search of calcOffset ends, whatever the files API answers: it takes no more requests than there
-- are lines to skip, and one. No answer has 2^62 lines or more, and the number of lines to skip is
-- less than that.
pub calc_offset-ends :
    (fuel m : ℕ) (offset size : ℤ) (rm : ReadManager)
    → skip_size rm ≡ pos m
    → m < 2 ^ 62
    → m < fuel
    → IsBounded rm
    → (calc_offset fuel offset size rm).1 ≢ some out_of_fuel
unfolding calc_offset
calc_offset-ends fuel m offset size rm skip fits enough bounded =
    calc_loop-ends fuel 0 m offset size rm skip (omega arith) fits (omega arith) bounded
