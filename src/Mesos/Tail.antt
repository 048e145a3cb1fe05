-- ===== src/Mesos/Tail.antt =====
-- The search of calcOffset of dcos-log/mesos/files/reader/read.go in a file of one chunk.
use dcos_log.Base.{
  ℕ, zero, suc, ◌+◌, ◌-◌, ◌≤◌, ◌<◌, ◌^◌, ◌≡◌, refl, ap, sym, ◌∙◌, ◌≢◌, false, List, [], ◌∷◌, ◌++◌,
  arith, Bytes, All, Lacks, length, length-append, drop, none, pos, ltb_ℤ, -ℤ_pos, +ℤ_pos, ok,
}
use dcos_log.Mesos.Types.{chunk_size, Line, ReadManager}
use dcos_log.Mesos.Text.{IsAscii, reverse_text}
use dcos_log.Mesos.Client.{read, place_lines, chunk_lines, cut_partial}
use dcos_log.Mesos.Setup.{move_back, calc_loop, calc_offset, skip_size}
use dcos_log.Mesos.Chunks.{body, text_of, weight, take_all}
use dcos_log.Mesos.Follow.{Serves}
use dcos_log.Mesos.Queue.{drop-weight}
use dcos_log.Mesos.Upward.{
  reverse_text-ascii, upward, upward-append, split-upward, weight-upward, length-upward,
  upward-filled, move_back-place_lines, weight-append,
}
use dcos_log.Mesos.SeekBack.{place_lines-length}

pub length-le-weight : (ls : List Bytes) → length ls ≤ weight ls
length-le-weight [] = omega arith
length-le-weight (l ∷ ls) = omega (arith, length-le-weight ls)

pub length-body : (ls : List Bytes) → length (body ls) ≡ weight ls
length-body [] = refl
length-body (l ∷ ls) = omega (arith, length-append l (b'\n' ∷ body ls), length-body ls)

-- The lines of a whole file, from the last one up.
abbrev pub all_upward : List Bytes → List Line
all_upward ls = place_lines (pos 0) 0 ([] ∷ upward ls)

read-whole :
    (file : Bytes) (rm : ReadManager) (c d : ℕ) (s : Bytes)
    → Serves file rm
    → file ≡ c ∷ (d ∷ s)
    → read rm (pos 0) (pos (length file)) reverse_text
      ≡ ok (chunk_lines (pos 0) (reverse_text file))
unfolding read
read-whole file rm c d s serves e =
    let (resp, accepted, sent, status, decoded) = serves 0 (length file) in
    let whole = take_all file (length file) (omega arith) in ground arith

abbrev placed : List Bytes × ℕ → List Line × ℕ
placed (lines, delta) = (place_lines (pos 0) 0 lines, delta)

chunk_lines-upward :
    (ls : List Bytes)
    → All (Lacks b'\n') ls
    → IsAscii (body ls)
    → chunk_lines (pos 0) (reverse_text (body ls)) ≡ (all_upward ls, 0)
unfolding chunk_lines
chunk_lines-upward ls h ascii =
    ap (λ t. chunk_lines (pos 0) t) (reverse_text-ascii (body ls) ascii)
    ∙ ap (λ (t : List Bytes). placed (cut_partial (pos 0) t)) (split-upward ls h)
    ∙ uncut (upward ls)
  where
    uncut :
        (ms : List Bytes)
        → placed (cut_partial (pos 0) ([] ∷ ms)) ≡ (place_lines (pos 0) 0 ([] ∷ ms), 0)
    uncut [] = unfold cut_partial in refl
    uncut (m ∷ ms) = unfold cut_partial in refl

-- Of a whole file the search gets all lines.
pub read-upward :
    (ls : List Bytes) (rm : ReadManager) (c d : ℕ) (s : Bytes)
    → Serves (body ls) rm
    → body ls ≡ c ∷ (d ∷ s)
    → IsAscii (body ls)
    → All (Lacks b'\n') ls
    → rm.offset ≡ pos (length (body ls))
    → read rm (pos 0) rm.offset reverse_text ≡ ok (all_upward ls, 0)
read-upward ls rm c d s serves long ascii lacking at =
    ap (λ t. read rm (pos 0) t reverse_text) at
    ∙ read-whole (body ls) rm c d s serves long
    ∙ ap ok (chunk_lines-upward ls lacking ascii)

pub length-all_upward : (ls : List Bytes) → length (all_upward ls) ≡ length ls + 1
length-all_upward ls =
    omega (arith, place_lines-length (pos 0) 0 ([] ∷ upward ls), length-upward ls)

-- The offset moves back to the newline in front of the lines to read.
move_back-upward :
    (front back : List Bytes) (k : ℕ)
    → length back ≡ k
    → 0 < k
    → All (λ l. l ≢ []) back
    → 0 < weight front
    → weight front + weight back < 2 ^ 63
    → move_back (pos k) 0 (all_upward (front ++ back)) (pos (weight front + weight back))
      ≡ pos (weight front - 1)
unfolding move_back place_lines
move_back-upward front back k count some_lines filled in_front fits =
    let blank = -ℤ_pos (weight front + weight back) 1 (omega arith) fits in
    let lines : upward (front ++ back) ≡ upward back ++ upward front = upward-append front back in
    let size = weight-upward back in
    let number = length-upward back in
    let on =
      move_back-place_lines (upward back) (upward front) 0 k (weight front + weight back - 1) 1
        (pos 0) (upward-filled back filled) (omega arith) (omega arith) (omega arith) in
    let left : weight front + weight back - 1 - weight (upward back) ≡ weight front - 1 =
      omega arith in
    ground arith

pub drop-front :
    (front back : List Bytes)
    → 0 < weight front
    → drop (weight front - 1) (body (front ++ back)) ≡ text_of back
drop-front front back h = go (weight front) refl
  where
    go : (w : ℕ) → weight front ≡ w → drop (weight front - 1) (body (front ++ back)) ≡ text_of back
    go zero e = absurd (omega arith)
    go (suc w) e =
        ap (λ t. drop t (body (front ++ back))) (omega arith)
        ∙ ap (λ t. drop t (text_of (front ++ back))) (sym e)
        ∙ drop-weight front back

-- The reader after the search.
abbrev pub sought : ReadManager → List Bytes → ReadManager
sought rm front = record rm { offset = pos (weight front - 1) }

pub calc_offset-whole :
    (front back : List Bytes) (k fuel : ℕ) (rm : ReadManager) (c d : ℕ) (s : Bytes)
    → Serves (body (front ++ back)) rm
    → body (front ++ back) ≡ c ∷ (d ∷ s)
    → IsAscii (body (front ++ back))
    → All (Lacks b'\n') (front ++ back)
    → All (λ l. l ≢ []) back
    → length back ≡ k
    → 0 < k
    → 0 < weight front
    → length (body (front ++ back)) ≤ chunk_size
    → skip_size rm ≡ pos k
    → rm.offset ≡ pos (length (body (front ++ back)))
    → calc_offset (suc fuel) (pos 0) rm.offset rm ≡ (sought rm front, none)
unfolding calc_offset calc_loop
calc_offset-whole front back k fuel rm c d s serves long ascii lacking filled count some_lines
      in_front fits skip at =
    let size = length-body (front ++ back) in
    let parts = weight-append front back in
    let got = read-upward (front ++ back) rm c d s serves long ascii lacking at in
    let number = length-all_upward (front ++ back) in
    let parted = length-append front back in
    let few = length-le-weight (front ++ back) in
    let total = +ℤ_pos 0 (length (all_upward (front ++ back))) (omega arith) in
    let moved : move_back (skip_size rm) 0 (all_upward (front ++ back)) rm.offset
        ≡ pos (weight front - 1) =
      (λ i. move_back (skip i) 0 (all_upward (front ++ back)) (at i))
      ∙ ap (λ t. move_back (pos k) 0 (all_upward (front ++ back)) (pos t)) (omega arith)
      ∙ move_back-upward front back k count some_lines filled in_front (omega arith) in
    let enough : ltb_ℤ (pos (0 + length (all_upward (front ++ back)))) (pos k) ≡ false =
      ground arith in
    ground (arith, got, total, moved, skip)
