-- ===== src/Mesos/CopyOut.antt =====
-- io.Copy from a reader of the Mesos files API, as filesAPIHandler calls it.
use mathlib.Core.List.{reverse}
use dcos_log.Base.{
  ℕ, zero, suc, ◌+◌, ◌≤◌, ◌<◌, ◌^◌, ◌≡◌, refl, ap, ◌∙◌, ◌≢◌, Bool, true, false, List, [], ◌∷◌, ◌++◌,
  append_assoc, arith, Bytes, bytes, All, length, take, drop, pos, pos_part, ◌-ℤ◌, Option, none,
  Result, ok, err, copy, copy_buffer, copy_ends, copy_goes_on, length-append,
}
use dcos_log.Mesos.Types.{chunk_size, Error, eof, out_of_fuel, Line, line_format, ReadManager}
use dcos_log.Mesos.Client.{read}
use dcos_log.Mesos.Format.{formatted}
use dcos_log.Mesos.Reading.{fill, read_turn, read_loop, read_line, read_into, limit_reached}
use dcos_log.Mesos.Chunks.{body, take_all}
use dcos_log.Mesos.Follow.{Serves, IsLine}
use dcos_log.Mesos.Queue.{Queue, Follows}
use dcos_log.Mesos.Delivery.{IsReady, unlimited-below, read_line-Delivers}

abbrev pub is_eof : Error → Bool
is_eof eof = true
is_eof _ = false

-- io.Copy(w, r)
unfoldable pub copy_lines : ℕ → ReadManager → ReadManager × Bytes × Option Error
unfolding copy
copy_lines = copy read_line is_eof out_of_fuel

read-last :
    (file : Bytes) (rm : ReadManager) (o n : ℕ)
    → Serves file rm
    → take n (drop o file) ≡ b'\n' ∷ []
    → read rm (pos o) (pos n) (λ t. t) ≡ err eof
unfolding read
read-last file rm o n serves e =
    let (resp, accepted, sent, status, decoded) = serves o n in ground arith

pub fill-last :
    (rm : ReadManager)
    → rm.lines ≡ []
    → read rm rm.offset (pos chunk_size) (λ t. t) ≡ err eof
    → fill rm ≡ err eof
unfolding fill
fill-last rm empty got = ground arith

pub turn-last :
    (again : ReadManager → ReadManager × Result Error Bytes) (rm : ReadManager)
    → limit_reached rm ≡ false
    → fill rm ≡ err eof
    → read_turn again rm ≡ (rm, err eof)
unfolding read_turn
turn-last again rm below e = ground arith

pub fill-end :
    (file : Bytes) (rm : ReadManager) → Serves file rm → Follows file rm [] → fill rm ≡ err eof
fill-end file rm serves f = go f.queue f.buffered f.waiting
  where
    go : (q : List Line) → rm.lines ≡ reverse q → Queue file q [] f.off → fill rm ≡ err eof
    go [] empty waiting = fill-last rm empty (
        ap (λ t. read rm t (pos chunk_size) (λ s. s)) f.at
        ∙ read-last file rm f.off chunk_size serves (ap (take chunk_size) waiting))
    go (b ∷ q) full waiting = absurd waiting

-- A reader that has delivered every line returns io.EOF, and stays as it is.
pub read_line-eof :
    (file : Bytes) (rm : ReadManager) (n : ℕ) → IsReady file rm [] → read_line rm n ≡ (rm, err eof)
unfolding read_line read_loop
read_line-eof file rm n ready =
    ap (λ (t : ReadManager × Result Error Bytes). (t.0, read_into n t.1))
      (turn-last (read_loop (pos_part (rm.skip -ℤ rm.skipped))) rm
        (unlimited-below rm ready.unlimited) (fill-end file rm ready.serves ready.follows))

-- The text of a line is written whole if it fits the buffer of io.Copy.
abbrev pub FitsBuffer : Bytes → Type 0
FitsBuffer l = length l + 1 ≤ copy_buffer

pub written :
    (b : Line) (rm : ReadManager) (l : Bytes)
    → b.message ≡ l
    → l ≢ []
    → FitsBuffer l
    → read_into copy_buffer (ok (formatted line_format b rm)) ≡ ok (l ++ b'\n' ∷ [])
unfolding formatted
written b rm [] same h fits = absurd (h refl)
written b rm (c ∷ l) same h fits =
    ap (λ t. read_into copy_buffer (ok (t ++ bytes "\n"))) same
    ∙ ap ok (
        take_all ((c ∷ l) ++ b'\n' ∷ []) copy_buffer
          (omega (arith, length-append (c ∷ l) (b'\n' ∷ []))))

-- Copying from a reader in front of complete lines of a served file writes exactly the bytes of the
-- file from there to its end, and ends without an error; any fuel beyond the number of lines is enough.
-- The reader has no limit and nothing to skip and formats plain lines; lines are not blank and fit the
-- buffer, and the file's size fits an int.
pub copy_lines-body :
    (file : Bytes) (ls : List Bytes) (rm : ReadManager) (fuel : ℕ)
    → length file + chunk_size < 2 ^ 63
    → All IsLine ls
    → All FitsBuffer ls
    → rm.format_fn ≡ line_format
    → IsReady file rm ls
    → length ls < fuel
    → (rm' : ReadManager) × (copy_lines fuel rm ≡ (rm', body ls, none)) × IsReady file rm' []
unfolding copy_lines
copy_lines-body file ls rm zero fits lines buffers plain ready h = elim h [ ]
copy_lines-body file [] rm (suc fuel) fits lines buffers plain ready h = (
  rm,
  copy_ends read_line is_eof out_of_fuel fuel rm rm eof (read_line-eof file rm copy_buffer ready),
  ready,
)
copy_lines-body file (l ∷ ls) rm (suc fuel) fits (h0, hs) (k, ks) plain ready h =
    let d = read_line-Delivers file rm copy_buffer l ls fits (h0, hs) ready in
    let (rm', rest, done) =
      copy_lines-body file ls d.after fuel fits hs ks (d.same_format ∙ plain) d.ready
        (omega arith) in
    let out =
      d.result
      ∙ ap (λ t. (d.after, read_into copy_buffer (ok (formatted t d.line d.after)))) plain
      ∙ ap (λ t. (d.after, t)) (written d.line d.after l d.message h0.0 k) in
    (
      rm',
      copy_goes_on read_line is_eof out_of_fuel fuel rm d.after rm' (l ++ b'\n' ∷ []) (body ls) none
            out rest
          ∙ ap (λ t. (rm', t, none)) (append_assoc l (b'\n' ∷ []) (body ls)),
      done,
    )
