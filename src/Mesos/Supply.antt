-- ===== src/Mesos/Supply.antt =====
-- The lines that the calls of Read of dcos-log/mesos/files/reader/read.go have in front of them, however
-- the reader came to its place.
use mathlib.Core.List.{reverse}
use dcos_log.Base.{ℕ, ◌+◌, ◌<◌, ◌^◌, ◌≡◌, refl, List, [], ◌∷◌, Bytes, All, length, ℤ, pos, ok, err}
use dcos_log.Mesos.Types.{chunk_size, eof, Line, ReadManager}
use dcos_log.Mesos.Reading.{fill}
use dcos_log.Mesos.Follow.{Serves, IsLine}
use dcos_log.Mesos.Queue.{Follows, filled_by}
use dcos_log.Mesos.Delivery.{fill_next}
use dcos_log.Mesos.CopyOut.{fill-end}

-- The reader when a line was taken from its buffer, with any counts of lines.
abbrev pub taken : ReadManager → List Line → ℕ → ℤ → ℤ → ReadManager
taken rm q off skipped read_lines = record rm {
  lines = reverse q;
  offset = pos off;
  skipped = skipped;
  read_lines = read_lines;
}

-- The buffer, filled where it is empty, gives the lines one by one, and then the end of the file.
abbrev pub Supplies : ReadManager → List Bytes → Type 0
Supplies rm [] = fill rm ≡ err eof
Supplies rm (l ∷ ls) =
    (b : Line) × (q : List Line) × (off : ℕ) × (fill rm ≡ ok (filled_by rm (b ∷ q) off))
    × (b.message ≡ l)
    × ((skipped read_lines : ℤ) → Supplies (taken rm q off skipped read_lines) ls)

-- A reader on a newline in front of complete lines of a served file supplies them.
pub Follows-Supplies :
    (file : Bytes) (ls : List Bytes) (rm : ReadManager)
    → length file + chunk_size < 2 ^ 63
    → All IsLine ls
    → Serves file rm
    → Follows file rm ls
    → Supplies rm ls
Follows-Supplies file [] rm fits lines serves follows = fill-end file rm serves follows
Follows-Supplies file (l ∷ ls) rm fits (h, hs) serves follows =
    let (b, q, off, positive, filled, queued) =
      fill_next file rm l ls serves fits (h, hs) follows in
    let (message, size, ends, waiting) = queued in
    (
      b,
      q,
      off,
      filled,
      message,
      λ skipped read_lines.
          Follows-Supplies file ls (taken rm q off skipped read_lines) fits hs serves (record {
            off = off;
            at = refl;
            positive = positive;
            queue = q;
            buffered = refl;
            waiting = waiting;
          }),
    )
