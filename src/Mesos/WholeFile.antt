-- ===== src/Mesos/WholeFile.antt =====
-- The search for more last lines than a file has: calcOffset of dcos-log/mesos/files/reader/read.go ends
-- in front of the file's first line.
use dcos_log.Base.{
  ℕ, suc, ◌+◌, ◌-◌, ◌≤◌, ◌<◌, ◌^◌, ◌≡◌, refl, ap, sym, ◌∙◌, ◌≢◌, false, true, List, [], ◌∷◌, arith,
  Bytes, All, length, none, pos, negsuc, ltb_ℤ, -ℤ_pos, -ℤ_neg, +ℤ_pos, ok, Bool-cases, inl, inr, ℤ,
  ◌-ℤ◌, drop, leb, take, length-drop, length-take, take-append-drop, subst, All-right, is_negative,
  negate, negate_negsuc, if◌then◌else◌,
}
use dcos_log.Mesos.Types.{chunk_size, ReadManager, line_format}
use dcos_log.Mesos.Text.{IsAscii}
use dcos_log.Mesos.Client.{read, place_lines}
use dcos_log.Mesos.Setup.{move_back, calc_loop, calc_offset, skip_size, seek_back, guard_offset}
use dcos_log.Mesos.Chunks.{body, weight}
use dcos_log.Mesos.Follow.{Serves, IsLine, IsLine-filled, IsLine-Lacks}
use dcos_log.Mesos.Upward.{upward, weight-upward, length-upward, upward-filled}
use dcos_log.Mesos.Tail.{length-body, length-le-weight, all_upward, read-upward, length-all_upward}
use dcos_log.Mesos.Delivery.{IsUnlimited}
use dcos_log.Mesos.CopyOut.{FitsBuffer, copy_lines}
use dcos_log.Mesos.LastLines.{two_bytes, copy_lines-seek_back}
use dcos_log.Mesos.WindowCopy.{copy_lines-supplied}
use dcos_log.Mesos.Start.{start-Supplies}

-- Past all lines, none of them blank, the offset moves back by what they take up, and it can be the
-- first byte that is missed.
move_back-past :
    (ms : List Bytes) (j k off a : ℕ) (o : ℤ)
    → All (λ l. l ≢ []) ms
    → j + length ms ≤ k
    → weight ms ≡ off + 1
    → off < 2 ^ 63
    → move_back (pos k) j (place_lines o a ms) (pos off) ≡ negsuc 0
unfolding move_back place_lines
move_back-past [] j k off a o filled count same fits = absurd (omega arith)
move_back-past ([] ∷ ms) j k off a o (h, filled) count same fits = absurd (h refl)
move_back-past ((c ∷ m) ∷ []) j k off a o (h, filled) count same fits =
    let missed = -ℤ_neg off (length m + 2) (omega arith) (omega arith) in ground arith
move_back-past ((c ∷ m) ∷ (n ∷ ms)) j k off a o (h, filled) count same fits =
    let on =
      move_back-past (n ∷ ms) (j + 1) k (off - (length m + 2)) (a + (length m + 2)) o filled
        (omega arith) (omega arith) (omega arith) in
    let back = -ℤ_pos off (length m + 2) (omega arith) fits in ground arith

-- The blank line behind the last newline is passed first.
move_back-past_upward :
    (ls : List Bytes) (k : ℕ)
    → All (λ l. l ≢ []) ls
    → 0 < k
    → length ls ≤ k
    → 0 < weight ls
    → weight ls < 2 ^ 63
    → move_back (pos k) 0 (all_upward ls) (pos (weight ls)) ≡ negsuc 0
unfolding move_back place_lines
move_back-past_upward ls k filled some_lines few in_front fits =
    let blank = -ℤ_pos (weight ls) 1 (omega arith) fits in
    let size = weight-upward ls in
    let number = length-upward ls in
    let on =
      move_back-past (upward ls) 0 k (weight ls - 1) 1 (pos 0) (upward-filled ls filled)
        (omega arith) (omega arith) (omega arith) in
    ground arith

-- There is no chunk in front of the first one.
above_start : pos 0 -ℤ (pos chunk_size -ℤ pos 0) ≡ negsuc (chunk_size - 1)
above_start =
    ap (λ t. pos 0 -ℤ t) (-ℤ_pos chunk_size 0 (omega arith) (omega arith))
    ∙ -ℤ_neg 0 chunk_size (omega arith) (omega arith)

-- Where a file of one chunk has no more lines than are asked for, the reader is placed at its start.
pub seek_back-short :
    (ls : List Bytes) (k fuel : ℕ) (rm : ReadManager)
    → Serves (body ls) rm
    → rm.skip ≡ negsuc k
    → rm.offset ≡ pos (length (body ls))
    → ls ≢ []
    → length ls ≤ k + 1
    → k + 1 < 2 ^ 63
    → All IsLine ls
    → IsAscii (body ls)
    → length (body ls) ≤ chunk_size
    → seek_back (suc fuel) rm ≡ ok (record rm { offset = pos 0 })
unfolding seek_back guard_offset calc_offset calc_loop
seek_back-short ls k fuel rm serves skip at some_line few fits lines ascii small =
    let (c, d, s, long, in_front) = two_bytes ls some_line lines in
    let size = length-body ls in
    let got = read-upward ls rm c d s serves long ascii (IsLine-Lacks ls lines) at in
    let number = length-all_upward ls in
    let skips : skip_size rm ≡ pos (k + 1) =
      ap (λ t. if is_negative t then negate t else t) skip ∙ negate_negsuc k fits in
    let fewer = length-le-weight ls in
    let total = +ℤ_pos 0 (length (all_upward ls)) (omega arith) in
    let moved : move_back (skip_size rm) 0 (all_upward ls) rm.offset ≡ negsuc 0 =
      (λ i. move_back (skips i) 0 (all_upward ls) (at i))
      ∙ ap (λ t. move_back (pos (k + 1)) 0 (all_upward ls) (pos t)) size
      ∙ move_back-past_upward ls (k + 1) (IsLine-filled ls lines) (omega arith) few (omega arith)
          (omega arith) in
    let above = above_start in
    let whole : ltb_ℤ (pos chunk_size) rm.offset ≡ false =
      ap (λ t. ltb_ℤ (pos chunk_size) t) at ∙ ground arith in
    elim (Bool-cases (ltb_ℤ (pos (0 + length (all_upward ls))) (pos (k + 1)))) [
      | inl short ↦ ground (arith, got, total, above, skips, whole)
      | inr long_enough ↦ ground (arith, got, total, moved, skips, whole)
    ]

-- An empty file has no lines to look for.
seek_back-empty :
    (fuel : ℕ) (rm : ReadManager)
    → Serves [] rm
    → rm.offset ≡ pos 0
    → seek_back (suc fuel) rm ≡ ok (record rm { offset = pos 0 })
unfolding seek_back guard_offset calc_offset calc_loop read
seek_back-empty fuel rm serves at =
    let (resp, accepted, sent, status, decoded) = serves 0 0 in ground arith

-- The search for no fewer lines than a file has.
seek_back-first :
    (ls : List Bytes) (k fuel : ℕ) (rm : ReadManager)
    → Serves (body ls) rm
    → rm.skip ≡ negsuc k
    → rm.offset ≡ pos (length (body ls))
    → length ls ≤ k + 1
    → k + 1 < 2 ^ 63
    → All IsLine ls
    → IsAscii (body ls)
    → length (body ls) ≤ chunk_size
    → seek_back (suc fuel) rm ≡ ok (record rm { offset = pos 0 })
seek_back-first [] k fuel rm serves skip at few fits lines ascii small =
    seek_back-empty fuel rm serves at
seek_back-first (l ∷ ls) k fuel rm serves skip at few fits lines ascii small =
    seek_back-short (l ∷ ls) k fuel rm serves skip at (cc) few fits lines ascii small

-- Asked for the last lines of a file, with the offset at its end and a negative skip, the search that
-- ends NewLineReader succeeds, and copying from the reader writes exactly so many lines, the last of the
-- file, or all lines where the file has no more.
pub copy_lines-last :
    (ls : List Bytes) (k seeks copies : ℕ) (rm : ReadManager)
    → Serves (body ls) rm
    → IsUnlimited rm
    → rm.lines ≡ []
    → rm.skip ≡ negsuc k
    → k + 1 < 2 ^ 63
    → rm.offset ≡ pos (length (body ls))
    → All IsLine ls
    → IsAscii (body ls)
    → length (body ls) < chunk_size
    → All FitsBuffer ls
    → rm.format_fn ≡ line_format
    → length ls < copies
    → (found last : ReadManager) × (seek_back (suc seeks) rm ≡ ok found)
      × (copy_lines copies found ≡ (last, body (drop (length ls - (k + 1)) ls), none))
copy_lines-last ls k seeks copies rm serves unlimited empty skip fits at lines ascii small buffers
      plain enough =
    elim (Bool-cases (leb (length ls) (k + 1))) [ inl few ↦ all few | inr more ↦ some_last more ]
  where
    n : ℕ
    n = length ls - (k + 1)

    Copied : Type 0
    Copied =
        (found last : ReadManager) × (seek_back (suc seeks) rm ≡ ok found)
        × (copy_lines copies found ≡ (last, body (drop n ls), none))

    all : leb (length ls) (k + 1) ≡ true → Copied
    all few =
        let at_most : length ls ≤ k + 1 = ground arith in
        let start = record rm { offset = pos 0 } in
        let (last, copied) =
          copy_lines-supplied ls start none 0 copies (IsLine-filled ls lines) buffers plain
            (record {
              supplies = start-Supplies ls start serves refl empty lines small;
              skips = unlimited.1;
              allows = unlimited.0;
            })
            enough in
        let none_passed : n ≡ 0 = omega arith in
        (
          start,
          last,
          seek_back-first ls k seeks rm serves skip at (omega arith) fits lines ascii (omega arith),
          copied ∙ ap (λ (i : ℕ). (last, body (drop i ls), none)) (sym none_passed),
        )

    some_last : leb (length ls) (k + 1) ≡ false → Copied
    some_last more =
        let beyond : k + 1 < length ls = ground arith in
        let parts = sym (take-append-drop n ls) in
        let some_front : take n ls ≢ [] = λ e. omega (arith, ap length e, length-take n ls) in
        copy_lines-seek_back (take n ls) (drop n ls) k (suc seeks) copies rm
          (subst (λ t. Serves (body t) rm) parts serves) unlimited empty skip
          (subst (λ t. rm.offset ≡ pos (length (body t))) parts at) some_front
          (omega (arith, length-drop n ls)) (subst (All IsLine) parts lines)
          (subst (λ t. IsAscii (body t)) parts ascii)
          (subst (λ (t : List Bytes). length (body t) ≤ chunk_size) parts (omega arith))
          (All-right FitsBuffer (take n ls) (drop n ls) (subst (All FitsBuffer) parts buffers))
          plain (omega arith) (omega (arith, length-drop n ls))
