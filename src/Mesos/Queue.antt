-- ===== src/Mesos/Queue.antt =====
-- The lines that a reader still has to deliver: those of its buffer, then those of the file behind its
-- offset.
use mathlib.Core.List.{reverse, reverse_aux}
use dcos_log.Base.{
  ℕ, suc, ◌+◌, ◌≤◌, ◌<◌, ◌^◌, ◌≡◌, refl, ap, sym, subst, ◌∙◌, List, [], ◌∷◌, ◌++◌, arith, Bytes,
  All, All-left, length, take, drop, pos, ◌+ℤ◌, +ℤ_pos, ok, length-drop,
}
use dcos_log.Mesos.Types.{chunk_size, Line, ReadManager}
use dcos_log.Mesos.Client.{read, place_lines}
use dcos_log.Mesos.Reading.{fill, take_chunk, next_offset, lines_len}
use dcos_log.Mesos.Chunks.{body, text_of, weight, drop-append, drop-drop, Cut, Cut-at}
use dcos_log.Mesos.Follow.{
  Serves, IsLine, IsLine-Lacks, read-chunk, chunk_lines-text, lines_len-place_lines,
  next_offset-whole, prepend_all-place_lines,
}

-- The end of the line is the position of the newline in front of `ls`.
abbrev pub Ends : Bytes → Line → List Bytes → Type 0
Ends file b ls = (s : ℕ) × (b.offset ≡ pos s) × (0 < s) × (drop (s + b.size) file ≡ text_of ls)

-- The buffered lines `q`, the first one first, and the file from `off` on hold the lines `ls`.
abbrev pub Queue : Bytes → List Line → List Bytes → ℕ → Type 0
Queue file [] ls off = drop off file ≡ text_of ls
Queue file (b ∷ q) [] off = ⊥
Queue file (b ∷ q) (l ∷ ls) off =
    (b.message ≡ l) × (b.size ≡ length l) × Ends file b ls × Queue file q ls off

pub record Follows (file : Bytes) (rm : ReadManager) (ls : List Bytes) : Type 0 where
  pub off : ℕ
  pub at : rm.offset ≡ pos off
  pub positive : 0 < off
  pub queue : List Line
  pub buffered : rm.lines ≡ reverse queue
  pub waiting : Queue file queue ls off

pub drop-weight : (xs zs : List Bytes) → drop (weight xs) (text_of (xs ++ zs)) ≡ text_of zs
drop-weight [] zs = refl
drop-weight (x ∷ xs) zs =
    ap (λ (k : ℕ). drop k (text_of (x ∷ (xs ++ zs)))) {x = length x + 1 + weight xs}
      {y = suc (length x + weight xs)} (omega arith)
    ∙ sym (drop-drop (length x) (weight xs) (x ++ text_of (xs ++ zs)))
    ∙ ap (drop (weight xs)) (drop-append x (text_of (xs ++ zs)))
    ∙ drop-weight xs zs

module _ (file : Bytes) where
  line_end :
      (s : ℕ) (x : Bytes) (ls : List Bytes)
      → drop s file ≡ body (x ∷ ls)
      → drop (s + length x) file ≡ text_of ls
  line_end s x ls e =
      sym (drop-drop s (length x) file) ∙ ap (drop (length x)) e ∙ drop-append x (text_of ls)

  pub Queue-place_lines :
      (off acc end : ℕ) (xs zs : List Bytes)
      → drop (off + acc) file ≡ body (xs ++ zs)
      → drop end file ≡ text_of zs
      → 0 < off + acc
      → off + acc + weight xs < 2 ^ 63
      → Queue file (place_lines (pos off) acc xs) (xs ++ zs) end
  unfolding place_lines
  Queue-place_lines off acc end [] zs e f h k = f
  Queue-place_lines off acc end (x ∷ xs) zs e f h k =
      let ends = line_end (off + acc) x (xs ++ zs) e in
      (
        refl,
        refl,
        (off + acc, +ℤ_pos off acc (omega arith), h, ends),
        Queue-place_lines off (acc + (length x + 1)) end xs zs
            (ap (λ (k : ℕ). drop k file) {y = off + acc + length x + 1} (omega arith)
              ∙ sym (drop-drop (off + acc + length x) 1 file)
              ∙ ap (drop 1) ends)
            f (omega arith) (omega arith),
      )

-- A position in front of text is a position of the file.
pub offset_bound :
    (file : Bytes) (o : ℕ) (ls : List Bytes) → drop o file ≡ text_of ls → o ≤ length file
offset_bound file o ls e = omega (arith, ap length e, length-drop o file)

-- What one request for a chunk does to a reader whose buffer is empty.
abbrev pub filled_by : ReadManager → List Line → ℕ → ReadManager
filled_by rm q off = record rm { lines = reverse q; offset = pos off }

take_chunk-whole :
    (rm : ReadManager) (o d : ℕ) (xs : List Bytes)
    → rm.offset ≡ pos o
    → rm.lines ≡ []
    → o + chunk_size < 2 ^ 63
    → weight xs + d + 1 ≤ chunk_size
    → All IsLine xs
    → take_chunk (place_lines (pos o) 0 ([] ∷ xs)) d rm
      ≡ filled_by rm (place_lines (pos o) 1 xs) (o + weight xs)
unfolding take_chunk place_lines
take_chunk-whole rm o d xs at empty fits small h =
    let placed = place_lines (pos o) 1 xs in
    let moved : next_offset rm.offset (1 + lines_len placed) d ≡ pos (o + weight xs) =
      ap (λ t. next_offset t (1 + lines_len placed) d) at
      ∙ ap (λ (k : ℕ). next_offset (pos o) (1 + k) d) (lines_len-place_lines (pos o) 1 xs)
      ∙ next_offset-whole o (weight xs) d fits (omega arith) in
    ap (λ (r : ReadManager). record r { offset = next_offset rm.offset (1 + lines_len placed) d })
      (prepend_all-place_lines (pos o) 1 xs rm h)
    ∙ (λ i. record rm { lines = reverse_aux placed (empty i); offset = moved i })

pub fill_chunk :
    (rm : ReadManager) (lines : List Line) (delta : ℕ)
    → rm.lines ≡ []
    → read rm rm.offset (pos chunk_size) (λ t. t) ≡ ok (lines, delta)
    → fill rm ≡ ok (take_chunk lines delta rm)
unfolding fill
fill_chunk rm lines delta empty got = ground arith

fill_whole :
    (file : Bytes) (rm : ReadManager) (o : ℕ) (d : ℕ) (y : Bytes) (ys : List Bytes)
    → Serves file rm
    → length file + chunk_size < 2 ^ 63
    → rm.offset ≡ pos o
    → 0 < o
    → rm.lines ≡ []
    → drop o file ≡ text_of ((d ∷ y) ∷ ys)
    → (c : Cut 65535 ((d ∷ y) ∷ ys)) → All IsLine c.whole
    → fill rm ≡ ok (filled_by rm (place_lines (pos o) 1 c.whole) (o + weight c.whole))
fill_whole file rm o d y ys serves fits at h empty e c lines =
    let got =
      read-chunk file rm o chunk_size b'\n' d (take 65534 (y ++ text_of ys)) serves
        (ap (take chunk_size) e)
      ∙ ap ok (chunk_lines-text o 65535 ((d ∷ y) ∷ ys) c h) in
    let small = c.small in
    let bound = offset_bound file o ((d ∷ y) ∷ ys) e in
    fill_chunk rm _ _ empty (ap (λ t. read rm t (pos chunk_size) (λ s. s)) at ∙ got)
    ∙ ap ok (take_chunk-whole rm o _ c.whole at empty (omega arith) (omega arith) lines)

abbrev pub Filled : Bytes → ReadManager → List Bytes → Type 0
Filled file rm ls =
    (b : Line) × (q : List Line) × (off : ℕ) × (0 < off)
    × (fill rm ≡ ok (filled_by rm (b ∷ q) off))
    × Queue file (b ∷ q) ls off

fill_started :
    (file : Bytes) (rm : ReadManager) (o : ℕ) (d : ℕ) (y : Bytes) (ys : List Bytes)
    → Serves file rm
    → length file + chunk_size < 2 ^ 63
    → rm.offset ≡ pos o
    → 0 < o
    → rm.lines ≡ []
    → drop o file ≡ text_of ((d ∷ y) ∷ ys)
    → All IsLine ((d ∷ y) ∷ ys)
    → (c : Cut 65535 ((d ∷ y) ∷ ys)) (whole : List Bytes) → c.whole ≡ whole
    → Filled file rm ((d ∷ y) ∷ ys)
unfolding place_lines
fill_started file rm o d y ys serves fits at h empty e ((_, _, k), _) c [] same =
    absurd (c.started (omega arith) same)
fill_started file rm o d y ys serves fits at h empty e lines c (x ∷ xs) same =
    let parts : (d ∷ y) ∷ ys ≡ (x ∷ xs) ++ c.rest = c.parts ∙ ap (λ t. t ++ c.rest) same in
    let c' : Cut 65535 ((d ∷ y) ∷ ys) = record {
      whole = x ∷ xs;
      rest = c.rest;
      part = c.part;
      parts = parts;
      cut = c.cut ∙ ap (λ t. t ++ c.part ∷ []) same;
      small = rw same at c.small;
      started = λ _. cc;
    } in
    let kept = All-left IsLine (x ∷ xs) c.rest (subst (All IsLine) parts lines) in
    let filled = fill_whole file rm o d y ys serves fits at h empty e c' kept in
    let small = c'.small in
    let bound = offset_bound file o ((d ∷ y) ∷ ys) e in
    let whole_text = e ∙ ap text_of parts in
    let queue =
      Queue-place_lines file o 1 (o + weight (x ∷ xs)) (x ∷ xs) c.rest
        (sym (drop-drop o 1 file) ∙ ap (drop 1) whole_text)
        (sym (drop-drop o (weight (x ∷ xs)) file)
          ∙ ap (drop (weight (x ∷ xs))) whole_text
          ∙ drop-weight (x ∷ xs) c.rest)
        (omega arith) (omega arith) in
    (
      record { message = x; offset = pos o +ℤ pos 1; size = length x },
      place_lines (pos o) (1 + (length x + 1)) xs,
      o + weight (x ∷ xs),
      omega arith,
      filled,
      subst (λ l. Queue file (place_lines (pos o) 1 (x ∷ xs)) l (o + weight (x ∷ xs))) (sym parts)
          queue,
    )

-- A request from a newline on brings whole lines, at least the next one, and leaves the reader on the
-- newline behind them.
pub fill_empty :
    (file : Bytes) (rm : ReadManager) (o : ℕ) (y : Bytes) (ys : List Bytes)
    → Serves file rm
    → length file + chunk_size < 2 ^ 63
    → rm.offset ≡ pos o
    → 0 < o
    → rm.lines ≡ []
    → drop o file ≡ text_of (y ∷ ys)
    → All IsLine (y ∷ ys)
    → Filled file rm (y ∷ ys)
fill_empty file rm o [] ys serves fits at h empty e ((k, _, _), _) = absurd (k refl)
fill_empty file rm o (d ∷ y) ys serves fits at h empty e lines =
    let c = Cut-at 65535 ((d ∷ y) ∷ ys) (IsLine-Lacks ((d ∷ y) ∷ ys) lines) in
    fill_started file rm o d y ys serves fits at h empty e lines c c.whole refl
