-- ===== src/Mesos/LastLines.antt =====
-- The last lines of a file: what NewLineReader of dcos-log/mesos/files/reader/read.go makes of a
-- negative skip from the file's end, and what io.Copy then writes.
use dcos_log.Base.{
  ℕ, zero, suc, ◌+◌, ◌-◌, ◌≤◌, ◌<◌, ◌≡◌, refl, ap, ◌∙◌, ◌≢◌, false, List, [], ◌∷◌, ◌++◌, arith,
  Bytes, All, All-left, All-right, length, length-append, none, pos, negsuc, ltb_ℤ, negate_negsuc,
  if◌then◌else◌, negate, is_negative, ok,
}
use dcos_log.Mesos.Types.{chunk_size, ReadManager, line_format}
use dcos_log.Mesos.Text.{IsAscii}
use dcos_log.Mesos.Setup.{seek_back, guard_offset, skip_size}
use dcos_log.Mesos.Chunks.{body, weight}
use dcos_log.Mesos.Follow.{Serves, IsLine, IsLine-filled, IsLine-Lacks}
use dcos_log.Mesos.Delivery.{IsReady, IsUnlimited}
use dcos_log.Mesos.CopyOut.{FitsBuffer, copy_lines, copy_lines-body}
use dcos_log.Mesos.Tail.{length-body, calc_offset-whole, drop-front, length-le-weight, sought}

-- A file of lines that are not blank has two bytes at least.
pub two_bytes :
    (ls : List Bytes)
    → ls ≢ []
    → All IsLine ls
    → (c : ℕ) × (d : ℕ) × (s : Bytes) × (body ls ≡ c ∷ (d ∷ s)) × (1 < weight ls)
two_bytes [] h lines = absurd (h refl)
two_bytes ([] ∷ ls) h lines = absurd (lines.0.0 refl)
two_bytes ((c ∷ []) ∷ ls) h lines = (c, b'\n', body ls, refl, omega arith)
two_bytes ((c ∷ (d ∷ l)) ∷ ls) h lines = (c, d, l ++ (b'\n' ∷ body ls), refl, omega arith)

append_some : (xs ys : List Bytes) → xs ≢ [] → (xs ++ ys) ≢ []
append_some [] ys h = absurd (h refl)
append_some (x ∷ xs) ys h = cc

seek_back-IsReady :
    (front back : List Bytes) (k fuel : ℕ) (rm : ReadManager)
    → Serves (body (front ++ back)) rm
    → IsUnlimited rm
    → rm.lines ≡ []
    → rm.skip ≡ negsuc k
    → rm.offset ≡ pos (length (body (front ++ back)))
    → front ≢ []
    → length back ≡ k + 1
    → All IsLine (front ++ back)
    → IsAscii (body (front ++ back))
    → length (body (front ++ back)) ≤ chunk_size
    → (seek_back (suc fuel) rm ≡ ok (sought rm front))
      × IsReady (body (front ++ back)) (sought rm front) back
unfolding seek_back guard_offset
seek_back-IsReady front back k fuel rm serves unlimited empty skip at some_front count lines ascii
      fits =
    let (c, d, s, long, _) = two_bytes (front ++ back) (append_some front back some_front) lines in
    let (_, _, _, _, in_front) = two_bytes front some_front (All-left IsLine front back lines) in
    let size = length-body (front ++ back) in
    let lines_fit = length-le-weight (front ++ back) in
    let parted = length-append front back in
    let skips : skip_size rm ≡ pos (k + 1) =
      ap (λ t. if is_negative t then negate t else t) skip ∙ negate_negsuc k (omega arith) in
    let found =
      calc_offset-whole front back (k + 1) fuel rm c d s serves long ascii
        (IsLine-Lacks (front ++ back) lines)
        (IsLine-filled back (All-right IsLine front back lines)) count (omega arith) (omega arith)
        fits skips at in
    let whole : ltb_ℤ (pos chunk_size) rm.offset ≡ false =
      ap (λ t. ltb_ℤ (pos chunk_size) t) at ∙ ground arith in
    (
      ground (arith, found, whole),
      record {
        serves = serves;
        unlimited = unlimited;
        follows = record {
          off = weight front - 1;
          at = refl;
          positive = omega arith;
          queue = [];
          buffered = empty;
          waiting = drop-front front back (omega arith);
        };
      },
    )

-- Asked for the last lines of a file, with the offset at its end and a negative skip, the search that
-- ends NewLineReader succeeds, and copying from the reader writes exactly so many lines, the last of the
-- file, and ends without an error. The file is ASCII and no longer than a chunk and has a line in front
-- of those, its lines are not blank and fit the buffer, and the files API serves it to the reader, which
-- has no limit and formats plain lines.
pub copy_lines-seek_back :
    (front back : List Bytes) (k seeks copies : ℕ) (rm : ReadManager)
    → Serves (body (front ++ back)) rm
    → IsUnlimited rm
    → rm.lines ≡ []
    → rm.skip ≡ negsuc k
    → rm.offset ≡ pos (length (body (front ++ back)))
    → front ≢ []
    → length back ≡ k + 1
    → All IsLine (front ++ back)
    → IsAscii (body (front ++ back))
    → length (body (front ++ back)) ≤ chunk_size
    → All FitsBuffer back
    → rm.format_fn ≡ line_format
    → 0 < seeks
    → length back < copies
    → (found last : ReadManager) × (seek_back seeks rm ≡ ok found)
      × (copy_lines copies found ≡ (last, body back, none))
copy_lines-seek_back front back k zero copies rm serves unlimited empty skip at some_front count
      lines ascii fits buffers plain seeks_left copies_left =
    absurd (omega arith)
copy_lines-seek_back front back k (suc seeks) copies rm serves unlimited empty skip at some_front
      count lines ascii fits buffers plain seeks_left copies_left =
    let (found, ready) =
      seek_back-IsReady front back k seeks rm serves unlimited empty skip at some_front count lines
        ascii fits in
    let (last, copied, _) =
      copy_lines-body (body (front ++ back)) back (sought rm front) copies (omega arith)
        (All-right IsLine front back lines) buffers plain ready copies_left in
    (sought rm front, last, found, copied)
