-- ===== src/Mesos/Losses.antt =====
-- Where Read of dcos-log/mesos/files/reader/read.go does not deliver the bytes of the file: lines past
-- the caller's buffer, and the first chunk of a long file.
use dcos_log.Base.{
  ℕ, suc, ◌+◌, ◌-◌, ◌≤◌, ◌<◌, ◌^◌, ◌≡◌, refl, ap, sym, ◌∙◌, ◌≢◌, List, [], ◌∷◌, ◌++◌, arith, Bytes,
  bytes, All, length, take, length-take, pos, ◌+ℤ◌, ◌-ℤ◌, int64, ok, split, split_lacking, Lacks,
  subst, ℤ, cons_head,
}
use dcos_log.Mesos.Types.{chunk_size, Line, line_format, ReadManager}
use dcos_log.Mesos.Client.{read, chunk_lines, place_lines, cut_partial}
use dcos_log.Mesos.Format.{formatted}
use dcos_log.Mesos.Reading.{
  fill, take_chunk, prepend, prepend_all, lines_len, next_offset, read_line, read_into,
}
use dcos_log.Mesos.Chunks.{weight, take_append_le}
use dcos_log.Mesos.Follow.{Serves, IsLine, read-chunk, lines_len-place_lines}
use dcos_log.Mesos.Queue.{fill_chunk}
use dcos_log.Mesos.Upward.{split-append}
use dcos_log.Mesos.Delivery.{IsReady, read_line-Delivers}

cut_short :
    (b : Line) (rm : ReadManager) (l : Bytes) (n : ℕ)
    → b.message ≡ l
    → 0 < n
    → n ≤ length l
    → read_into n (ok (formatted line_format b rm)) ≡ ok (take n l)
unfolding formatted
cut_short b rm [] n same pos_n h = absurd (omega arith)
cut_short b rm (c ∷ l) n same pos_n h =
    ap (λ t. read_into n (ok (t ++ bytes "\n"))) same
    ∙ ap ok (take_append_le (c ∷ l) (bytes "\n") n h)

-- A line that is not shorter than the buffer of the call of Read is cut: the call returns what fits,
-- without the newline, and the reader goes on with the lines behind it, so that no later call delivers
-- the rest. The conditions are those of a delivery, with plain lines.
pub read_line_cut :
    (file : Bytes) (rm : ReadManager) (n : ℕ) (l : Bytes) (ls : List Bytes)
    → length file + chunk_size < 2 ^ 63
    → All IsLine (l ∷ ls)
    → IsReady file rm (l ∷ ls)
    → rm.format_fn ≡ line_format
    → 0 < n
    → n ≤ length l
    → (rm' : ReadManager) × (read_line rm n ≡ (rm', ok (take n l))) × IsReady file rm' ls
read_line_cut file rm n l ls fits lines ready plain pos_n h =
    let d = read_line-Delivers file rm n l ls fits lines ready in
    (
      d.after,
      d.result
          ∙ ap (λ t. (d.after, read_into n (ok (formatted t d.line d.after)))) plain
          ∙ ap (λ t. (d.after, t)) (cut_short d.line d.after l n d.message pos_n h),
      d.ready,
    )

weight-cons_head : (c : ℕ) (ps : List Bytes) → ps ≢ [] → weight (cons_head c ps) ≡ suc (weight ps)
weight-cons_head c [] h = absurd (h refl)
weight-cons_head c (p ∷ ps) h = omega arith

split_nonempty : (s : Bytes) (sep : ℕ) → split s sep ≢ []
unfolding split
split_nonempty [] sep = cc
split_nonempty (c ∷ s) sep = ground (arith, split_nonempty s sep)

weight-split : (s : Bytes) (sep : ℕ) → weight (split s sep) ≡ length s + 1
unfolding split
weight-split [] sep = omega arith
weight-split (c ∷ s) sep =
    ground (arith, weight-split s sep, weight-cons_head c (split s sep), split_nonempty s sep)

whole_at_start : (s : Bytes) → cut_partial (pos 0) (split s b'\n') ≡ (split s b'\n', 0)
unfolding cut_partial
whole_at_start s = go (split s b'\n')
  where
    go : (ps : List Bytes) → cut_partial (pos 0) ps ≡ (ps, 0)
    go [] = refl
    go (p ∷ []) = refl
    go (p ∷ (q ∷ ps)) = refl

chunk_lines-start : (s : Bytes) → chunk_lines (pos 0) s ≡ (place_lines (pos 0) 0 (split s b'\n'), 0)
unfolding chunk_lines
chunk_lines-start s =
    ap (λ (t : List Bytes × ℕ). (place_lines (pos 0) 0 t.0, t.1)) (whole_at_start s)

take_chunk-offset :
    (ls : List Line) (rm : ReadManager)
    → ls ≢ []
    → (take_chunk ls 0 rm).offset ≡ next_offset rm.offset (lines_len ls) 0
unfolding take_chunk
take_chunk-offset [] rm h = absurd (h refl)
take_chunk-offset (l ∷ ls) rm h = refl

full_offset : (n : ℕ) → n ≡ chunk_size + 1 → next_offset (pos 0) n 0 ≡ pos (chunk_size - 1)
unfolding next_offset ◌+ℤ◌ ◌-ℤ◌ int64
full_offset n e = ground arith

-- The last of the lines is put in front of the buffer.
prepend_all-last :
    (o : ℤ) (n : ℕ) (ps : List Bytes) (last : Bytes) (rm : ReadManager)
    → last ≢ []
    → (b : Line) × (q : List Line) × ((prepend_all (place_lines o n (ps ++ (last ∷ []))) rm).lines
        ≡ b ∷ q)
      × (b.message ≡ last)
unfolding prepend_all prepend place_lines
prepend_all-last o n [] [] rm h = absurd (h refl)
prepend_all-last o n [] (c ∷ l) rm h =
    (record { message = c ∷ l; offset = o +ℤ pos n; size = length (c ∷ l) }, rm.lines, refl, refl)
prepend_all-last o n (p ∷ ps) last rm h =
    prepend_all-last o (n + (length p + 1)) ps last
      (prepend (record { message = p; offset = o +ℤ pos n; size = length p }) rm) h

take_chunk-lines :
    (ls : List Line) (rm : ReadManager) → (take_chunk ls 0 rm).lines ≡ (prepend_all ls rm).lines
unfolding take_chunk prepend_all
take_chunk-lines [] rm = refl
take_chunk-lines (l ∷ ls) rm = refl

take_chunk-last :
    (ps : List Bytes) (last : Bytes) (rm : ReadManager)
    → last ≢ []
    → (b : Line) × (q : List Line) × ((take_chunk
          (place_lines (pos 0) 0 (ps ++ (last ∷ [])))
          0
          rm).lines
        ≡ b ∷ q)
      × (b.message ≡ last)
take_chunk-last ps last rm h =
    let (b, q, buffered, message) = prepend_all-last (pos 0) 0 ps last rm h in
    (b, q, take_chunk-lines (place_lines (pos 0) 0 (ps ++ (last ∷ []))) rm ∙ buffered, message)

-- Reading a file from its start whose first chunk is full and ends in a part of a line, behind a newline
-- of the chunk and not empty, puts this part into the buffer as a line of its own, behind the other lines
-- of the chunk, and leaves the reader on the last byte of the chunk, which is the last one of the part,
-- and not behind it.
pub fill_first_chunk :
    (file front last : Bytes) (rm : ReadManager)
    → Serves file rm
    → rm.offset ≡ pos 0
    → rm.lines ≡ []
    → chunk_size ≤ length file
    → take chunk_size file ≡ front ++ (b'\n' ∷ last)
    → last ≢ []
    → Lacks b'\n' last
    → (rm' : ReadManager) × (b : Line) × (q : List Line) × (fill rm ≡ ok rm')
      × (rm'.lines ≡ b ∷ q)
      × (b.message ≡ last)
      × (rm'.offset ≡ pos (chunk_size - 1))
unfolding lines_len
fill_first_chunk file front last rm serves at empty long parts some_last lacking =
    go (take chunk_size file) refl
  where
    size : length (take chunk_size file) ≡ chunk_size
    size = omega (arith, length-take chunk_size file)

    pieces : split (take chunk_size file) b'\n' ≡ split front b'\n' ++ (last ∷ [])
    pieces =
        ap (λ t. split t b'\n') parts
        ∙ split-append b'\n' front last
        ∙ ap (λ t. split front b'\n' ++ t) (split_lacking b'\n' last lacking)

    go :
        (s : Bytes)
        → take chunk_size file ≡ s
        → (rm' : ReadManager) × (b : Line) × (q : List Line) × (fill rm ≡ ok rm')
          × (rm'.lines ≡ b ∷ q)
          × (b.message ≡ last)
          × (rm'.offset ≡ pos (chunk_size - 1))
    go [] e = absurd (omega (arith, ap length e, size))
    go (c ∷ []) e = absurd (omega (arith, ap length e, size))
    go (c ∷ (d ∷ s)) e =
        let lines = place_lines (pos 0) 0 (split (take chunk_size file) b'\n') in
        let got =
          ap (λ t. read rm t (pos chunk_size) (λ x. x)) at
          ∙ read-chunk file rm 0 chunk_size c d s serves e
          ∙ ap (λ t. ok (chunk_lines (pos 0) t)) (sym e)
          ∙ ap ok (chunk_lines-start (take chunk_size file)) in
        let len : lines_len lines ≡ chunk_size + 1 =
          lines_len-place_lines (pos 0) 0 (split (take chunk_size file) b'\n')
          ∙ weight-split (take chunk_size file) b'\n'
          ∙ ap (λ (k : ℕ). k + 1) size in
        let (b, q, buffered, message) =
          subst
            (λ t.
              (b : Line) × (q : List Line) × ((take_chunk (place_lines (pos 0) 0 t) 0 rm).lines
                ≡ b ∷ q)
              × (b.message ≡ last))
            (sym pieces) (take_chunk-last (split front b'\n') last rm some_last) in
        (
          take_chunk lines 0 rm,
          b,
          q,
          fill_chunk rm lines 0 empty got,
          buffered,
          message,
          take_chunk-offset lines rm
                (λ none_left. absurd (omega (arith, len, ap lines_len none_left)))
              ∙ ap (λ t. next_offset t (lines_len lines) 0) at
              ∙ full_offset (lines_len lines) len,
        )
