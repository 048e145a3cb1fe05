-- ===== src/Mesos/Start.antt =====
-- Reading a file from its start, where a short file is one chunk: Read of
-- dcos-log/mesos/files/reader/read.go at the offset 0.
use mathlib.Core.List.{reverse, reverse_aux}
use dcos_log.Base.{
  ℕ, ◌+◌, ◌<◌, ◌≡◌, refl, ap, sym, ◌∙◌, List, [], ◌∷◌, ◌++◌, arith, Bytes, All, Lacks, length, take,
  drop, split, split_lacking, split_front, ℤ, ◌+ℤ◌, pos, ok, err,
}
use dcos_log.Mesos.Types.{chunk_size, eof, Line, ReadManager}
use dcos_log.Mesos.Client.{read, place_lines, chunk_lines, cut_partial}
use dcos_log.Mesos.Reading.{fill, take_chunk, prepend_all, lines_len, next_offset}
use dcos_log.Mesos.Chunks.{body, weight, take_all}
use dcos_log.Mesos.Follow.{
  Serves, IsLine, IsLine-Lacks, read-chunk, lines_len-place_lines, next_offset-whole,
}
use dcos_log.Mesos.Queue.{filled_by, fill_chunk}
use dcos_log.Mesos.Delivery.{fill_full}
use dcos_log.Mesos.CopyOut.{fill-last}
use dcos_log.Mesos.LastLines.{two_bytes}
use dcos_log.Mesos.Tail.{length-body}
use dcos_log.Mesos.Supply.{taken, Supplies}

read-nothing :
    (file : Bytes) (rm : ReadManager) (o n : ℕ)
    → Serves file rm
    → take n (drop o file) ≡ []
    → read rm (pos o) (pos n) (λ t. t) ≡ err eof
unfolding read
read-nothing file rm o n serves e =
    let (resp, accepted, sent, status, decoded) = serves o n in ground arith

-- The messages of buffered lines.
abbrev Messages : List Line → List Bytes → Type 0
Messages [] [] = Unit
Messages (b ∷ q) (l ∷ ls) = (b.message ≡ l) × Messages q ls
Messages [] (l ∷ ls) = ⊥
Messages (b ∷ q) [] = ⊥

Messages-place_lines : (o : ℤ) (n : ℕ) (ls : List Bytes) → Messages (place_lines o n ls) ls
unfolding place_lines
Messages-place_lines o n [] = tt
Messages-place_lines o n (l ∷ ls) = (refl, Messages-place_lines o (n + (length l + 1)) ls)

-- A reader that has a file's last lines in its buffer, and whose offset is at the end of the file.
Supplies-buffered :
    (file : Bytes) (q : List Line) (ls : List Bytes) (rm : ReadManager) (off : ℕ)
    → Serves file rm
    → rm.lines ≡ reverse q
    → rm.offset ≡ pos off
    → take chunk_size (drop off file) ≡ []
    → Messages q ls
    → Supplies rm ls
Supplies-buffered file [] [] rm off serves buffered at end m = fill-last rm buffered (
    ap (λ t. read rm t (pos chunk_size) (λ s. s)) at
    ∙ read-nothing file rm off chunk_size serves end)
Supplies-buffered file [] (l ∷ ls) rm off serves buffered at end m = absurd m
Supplies-buffered file (b ∷ q) [] rm off serves buffered at end m = absurd m
Supplies-buffered file (b ∷ q) (l ∷ ls) rm off serves buffered at end (m, ms) = (
  b,
  q,
  off,
  fill_full rm q b off buffered at,
  m,
  λ skipped read_lines.
      Supplies-buffered file q ls (taken rm q off skipped read_lines) off serves refl refl end ms,
)

split-body : (ls : List Bytes) → All (Lacks b'\n') ls → split (body ls) b'\n' ≡ ls ++ ([] ∷ [])
split-body [] h = split_lacking b'\n' [] tt
split-body (l ∷ ls) (h, hs) = split_front b'\n' l (body ls) h ∙ ap (λ t. l ∷ t) (split-body ls hs)

-- At the start of a file no line is cut off.
cut_partial-start : (ps : List Bytes) → cut_partial (pos 0) ps ≡ (ps, 0)
unfolding cut_partial
cut_partial-start [] = refl
cut_partial-start (p ∷ []) = refl
cut_partial-start (p ∷ (q ∷ ps)) = refl

chunk_lines-body :
    (ls : List Bytes)
    → All (Lacks b'\n') ls
    → chunk_lines (pos 0) (body ls) ≡ (place_lines (pos 0) 0 (ls ++ ([] ∷ [])), 0)
unfolding chunk_lines
chunk_lines-body ls h = rw (split-body ls h, cut_partial-start (ls ++ ([] ∷ [])))

-- The blank line behind the last newline is not kept.
prepend_all-body :
    (o : ℤ) (n : ℕ) (ls : List Bytes) (rm : ReadManager)
    → All IsLine ls
    → prepend_all (place_lines o n (ls ++ ([] ∷ []))) rm
      ≡ record rm { lines = reverse_aux (place_lines o n ls) rm.lines }
unfolding prepend_all place_lines
prepend_all-body o n [] rm h = refl
prepend_all-body o n ([] ∷ ls) rm ((h, _, _), hs) = absurd (h refl)
prepend_all-body o n ((c ∷ l) ∷ ls) rm (h, hs) =
    let first : Line = record { message = c ∷ l; offset = o +ℤ pos n; size = length (c ∷ l) } in
    prepend_all-body o (n + (length (c ∷ l) + 1)) ls (record rm { lines = first ∷ rm.lines }) hs

weight-ended : (ls : List Bytes) → weight (ls ++ ([] ∷ [])) ≡ 1 + weight ls
weight-ended [] = refl
weight-ended (l ∷ ls) = omega (arith, weight-ended ls)

drop_all : (xs : Bytes) → drop (length xs) xs ≡ []
drop_all [] = refl
drop_all (x ∷ xs) = drop_all xs

nothing_behind : (ls : List Bytes) → take chunk_size (drop (weight ls) (body ls)) ≡ []
nothing_behind ls =
    ap (λ (n : ℕ). take chunk_size (drop n (body ls))) (sym (length-body ls))
    ∙ ap (take chunk_size) (drop_all (body ls))

take_chunk-body :
    (l : Bytes) (ls : List Bytes) (rm : ReadManager)
    → rm.offset ≡ pos 0
    → rm.lines ≡ []
    → All IsLine (l ∷ ls)
    → length (body (l ∷ ls)) < chunk_size
    → take_chunk (place_lines (pos 0) 0 ((l ∷ ls) ++ ([] ∷ []))) 0 rm
      ≡ filled_by rm (place_lines (pos 0) 0 (l ∷ ls)) (weight (l ∷ ls))
unfolding take_chunk place_lines
take_chunk-body l ls rm at empty h small =
    let placed = place_lines (pos 0) 0 ((l ∷ ls) ++ ([] ∷ [])) in
    let size = length-body (l ∷ ls) in
    let moved : next_offset rm.offset (lines_len placed) 0 ≡ pos (weight (l ∷ ls)) =
      ap (λ t. next_offset t (lines_len placed) 0) at
      ∙ ap (λ (k : ℕ). next_offset (pos 0) k 0)
          (lines_len-place_lines (pos 0) 0 ((l ∷ ls) ++ ([] ∷ [])) ∙ weight-ended (l ∷ ls))
      ∙ next_offset-whole 0 (weight (l ∷ ls)) 0 (omega arith) (omega arith)
      ∙ ap pos {x = 0 + weight (l ∷ ls)} (omega arith) in
    ap (λ (r : ReadManager). record r { offset = next_offset rm.offset (lines_len placed) 0 })
      (prepend_all-body (pos 0) 0 (l ∷ ls) rm h)
    ∙ (λ i. record rm {
      lines = reverse_aux (place_lines (pos 0) 0 (l ∷ ls)) (empty i);
      offset = moved i;
    })

-- A reader at the start of a file of complete lines that is shorter than a chunk supplies all of them.
pub start-Supplies :
    (ls : List Bytes) (rm : ReadManager)
    → Serves (body ls) rm
    → rm.offset ≡ pos 0
    → rm.lines ≡ []
    → All IsLine ls
    → length (body ls) < chunk_size
    → Supplies rm ls
start-Supplies [] rm serves at empty h small =
    fill-last rm empty (
      ap (λ t. read rm t (pos chunk_size) (λ s. s)) at
      ∙ read-nothing [] rm 0 chunk_size serves refl)
start-Supplies (l ∷ ls) rm serves at empty h small =
    let (c, d, s, long, _) = two_bytes (l ∷ ls) (cc) h in
    let whole = take_all (body (l ∷ ls)) chunk_size (omega arith) in
    let got : read rm (pos 0) (pos chunk_size) (λ t. t)
        ≡ ok (place_lines (pos 0) 0 ((l ∷ ls) ++ ([] ∷ [])), 0) =
      read-chunk (body (l ∷ ls)) rm 0 chunk_size c d s serves (whole ∙ long)
      ∙ ap (λ t. ok (chunk_lines (pos 0) t)) (sym long)
      ∙ ap ok (chunk_lines-body (l ∷ ls) (IsLine-Lacks (l ∷ ls) h)) in
    let filled : fill rm ≡ ok (filled_by rm (place_lines (pos 0) 0 (l ∷ ls)) (weight (l ∷ ls))) =
      fill_chunk rm _ _ empty (ap (λ t. read rm t (pos chunk_size) (λ s. s)) at ∙ got)
      ∙ ap ok (take_chunk-body l ls rm at empty h small) in
    unfold place_lines in
    (
      record { message = l; offset = pos 0 +ℤ pos 0; size = length l },
      place_lines (pos 0) (0 + (length l + 1)) ls,
      weight (l ∷ ls),
      filled,
      refl,
      λ skipped read_lines.
          Supplies-buffered (body (l ∷ ls)) (place_lines (pos 0) (0 + (length l + 1)) ls) ls
            (taken rm (place_lines (pos 0) (0 + (length l + 1)) ls) (weight (l ∷ ls)) skipped
              read_lines)
            (weight (l ∷ ls)) serves refl refl (nothing_behind (l ∷ ls))
            (Messages-place_lines (pos 0) (0 + (length l + 1)) ls),
    )
