-- ===== src/Mesos/Delivery.antt =====
-- What the calls of Read deliver, and what io.Copy writes: the lines of the file behind the offset.
use mathlib.Core.List.{reverse, reverse-cons, concat-ne-nil}
use dcos_log.Base.{
  ℕ, ◌+◌, ◌<◌, ◌^◌, ◌≡◌, refl, ap, sym, ◌∙◌, false, not, ◌&&◌, List, [], ◌∷◌, ◌++◌, arith, Bytes,
  All, length, pos, pos_part, ltb_ℤ, ◌+ℤ◌, ◌-ℤ◌, some, Result, ok,
}
use dcos_log.Mesos.Types.{chunk_size, Error, Line, ReadManager}
use dcos_log.Mesos.Format.{formatted}
use dcos_log.Mesos.Reading.{
  fill, pop, pop_last, read_turn, read_loop, read_line, read_into, must_skip, limit_reached,
}
use dcos_log.Mesos.Follow.{Serves, IsLine}
use dcos_log.Mesos.Queue.{Ends, Queue, Follows, Filled, filled_by, fill_empty}

-- Nothing is left to skip, and no limit applies.
abbrev pub IsUnlimited : ReadManager → Type 0
IsUnlimited rm = ((not rm.stream && ltb_ℤ (pos 0) rm.read_limit) ≡ false) × (must_skip rm ≡ false)

pub fill_full :
    (rm : ReadManager) (q : List Line) (b : Line) (off : ℕ)
    → rm.lines ≡ reverse (b ∷ q)
    → rm.offset ≡ pos off
    → fill rm ≡ ok (filled_by rm (b ∷ q) off)
unfolding fill
fill_full rm q b off full at =
    kept rm.lines refl ∙ (λ i. ok (record rm { lines = full i; offset = at i }))
  where
    kept : (ls : List Line) → rm.lines ≡ ls → fill rm ≡ ok rm
    kept [] empty = absurd (concat-ne-nil b (reverse q) (sym (reverse-cons b q) ∙ sym full ∙ empty))
    kept (x ∷ xs) some_left = ground arith

pub fill_next :
    (file : Bytes) (rm : ReadManager) (l : Bytes) (ls : List Bytes)
    → Serves file rm
    → length file + chunk_size < 2 ^ 63
    → All IsLine (l ∷ ls)
    → Follows file rm (l ∷ ls)
    → Filled file rm (l ∷ ls)
fill_next file rm l ls serves fits lines f = go f.queue f.buffered f.waiting
  where
    go :
        (q : List Line)
        → rm.lines ≡ reverse q
        → Queue file q (l ∷ ls) f.off
        → Filled file rm (l ∷ ls)
    go [] empty waiting =
        fill_empty file rm f.off l ls serves fits f.at f.positive empty waiting lines
    go (b ∷ q) full waiting = (b, q, f.off, f.positive, fill_full rm q b f.off full f.at, waiting)

-- The reader after a line is delivered.
abbrev pub delivered : ReadManager → List Line → ℕ → ReadManager
delivered rm q off = record rm {
  lines = reverse q;
  offset = pos off;
  read_lines = rm.read_lines +ℤ pos 1;
}

pop_last-append : (xs : List Line) (b : Line) → pop_last (xs ++ b ∷ []) ≡ some (xs, b)
unfolding pop_last
pop_last-append [] b = refl
pop_last-append (x ∷ []) b = refl
pop_last-append (x ∷ (y ∷ ys)) b = rw (pop_last-append (y ∷ ys) b)

pub pop-filled_by :
    (rm : ReadManager) (b : Line) (q : List Line) (off : ℕ)
    → pop (filled_by rm (b ∷ q) off) ≡ some (record rm { lines = reverse q; offset = pos off }, b)
unfolding pop
pop-filled_by rm b q off = ground (arith, reverse-cons b q, pop_last-append (reverse q) b)

pub turn :
    (again : ReadManager → ReadManager × Result Error Bytes) (rm : ReadManager) (b : Line)
    (q : List Line) (off : ℕ)
    → limit_reached rm ≡ false
    → must_skip rm ≡ false
    → fill rm ≡ ok (filled_by rm (b ∷ q) off)
    → read_turn again rm ≡ (delivered rm q off, ok (formatted rm.format_fn b (delivered rm q off)))
unfolding read_turn
turn again rm b q off below read_on filled = ground (arith, pop-filled_by rm b q off)

pub unlimited-below : (rm : ReadManager) → IsUnlimited rm → limit_reached rm ≡ false
unlimited-below rm (unlimited, _) = ground arith

-- A reader that has delivered what came before the lines `ls`, and can go on.
pub record IsReady (file : Bytes) (rm : ReadManager) (ls : List Bytes) : Type 0 where
  pub serves : Serves file rm
  pub unlimited : IsUnlimited rm
  pub follows : Follows file rm ls

-- Nothing but the buffer, the offset and the count of lines has changed.
abbrev pub Kept : ReadManager → ReadManager → Type 0
Kept rm after =
    after ≡ record rm { lines = after.lines; offset = after.offset; read_lines = after.read_lines }

-- The outcome of a call of Read that has the line `l` to deliver, with a buffer of `n` bytes.
pub record Delivers (file : Bytes) (rm : ReadManager) (n : ℕ) (l : Bytes) (ls : List Bytes)
    : Type 0 where
  pub line : Line
  pub after : ReadManager
  pub result : read_line rm n ≡ (after, read_into n (ok (formatted rm.format_fn line after)))
  pub message : line.message ≡ l
  pub ends : Ends file line ls
  pub ready : IsReady file after ls
  pub same_format : after.format_fn ≡ rm.format_fn
  pub size : line.size ≡ length l
  pub kept : Kept rm after

-- A call of Read on a reader in front of the line `l` of a served file, with no limit and nothing to
-- skip, returns that line, formatted, as far as it fits the buffer. The line's end is its place in the
-- file, and the reader is left in front of the lines behind it. Lines are not blank and shorter than a
-- chunk, and the file's size fits an int.
pub read_line-Delivers :
    (file : Bytes) (rm : ReadManager) (n : ℕ) (l : Bytes) (ls : List Bytes)
    → length file + chunk_size < 2 ^ 63
    → All IsLine (l ∷ ls)
    → IsReady file rm (l ∷ ls)
    → Delivers file rm n l ls
unfolding read_line read_loop
read_line-Delivers file rm n l ls fits lines ready =
    let (b, q, off, positive, filled, queued) =
      fill_next file rm l ls ready.serves fits lines ready.follows in
    let (message, size, ends, waiting) = queued in
    record {
      line = b;
      after = delivered rm q off;
      result =
          ap (λ (t : ReadManager × Result Error Bytes). (t.0, read_into n t.1))
            (turn (read_loop (pos_part (rm.skip -ℤ rm.skipped))) rm b q off
              (unlimited-below rm ready.unlimited) ready.unlimited.1 filled);
      message = message;
      ends = ends;
      ready = record {
        serves = ready.serves;
        unlimited = ready.unlimited;
        follows = record {
          off = off;
          at = refl;
          positive = positive;
          queue = q;
          buffered = refl;
          waiting = waiting;
        };
      };
      same_format = refl;
      size = size;
      kept = refl;
    }
