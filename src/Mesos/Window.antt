-- ===== src/Mesos/Window.antt =====
-- Read of dcos-log/mesos/files/reader/read.go with lines to skip and a limit: what one call delivers.
use mathlib.Core.List.{reverse}
use dcos_log.Base.{
  ℕ, zero, suc, ◌+◌, ◌-◌, ◌<◌, ◌^◌, ◌≡◌, ap, ◌∙◌, true, false, not, ◌&&◌, List, ◌∷◌, arith, Bytes,
  take, pos, ltb_ℤ, ◌+ℤ◌, +ℤ_pos, Option, none, some, Result, ok, err,
}
use dcos_log.Mesos.Types.{Error, eof, Line, ReadManager}
use dcos_log.Mesos.Reading.{fill, read_turn, must_skip, limit_reached}
use dcos_log.Mesos.Follow.{Serves}
use dcos_log.Mesos.Queue.{Follows, filled_by}
use dcos_log.Mesos.Delivery.{delivered, pop-filled_by}

-- The reader has `k` lines left to skip.
abbrev pub Skips : ReadManager → ℕ → Type 0
Skips rm zero = must_skip rm ≡ false
Skips rm (suc k) =
    (j m : ℕ) × (rm.skipped ≡ pos j) × (rm.skip ≡ pos m) × (m ≡ j + suc k) × (m < 2 ^ 63)

-- No line was skipped yet.
pub fresh-Skips :
    (rm : ReadManager) (k : ℕ) → rm.skipped ≡ pos 0 → rm.skip ≡ pos k → k < 2 ^ 63 → Skips rm k
fresh-Skips rm zero none_yet upto fits = ground arith
fresh-Skips rm (suc k) none_yet upto fits = (0, suc k, none_yet, upto, omega arith, fits)

-- The reader may deliver so many lines more: any number, without a limit.
abbrev pub Allows : ReadManager → Option ℕ → Type 0
Allows rm none = (not rm.stream && ltb_ℤ (pos 0) rm.read_limit) ≡ false
Allows rm (some c) =
    (j m : ℕ) × (rm.stream ≡ false)
    × (rm.read_lines ≡ pos j)
    × (rm.read_limit ≡ pos m)
    × (m ≡ j + c)
    × (0 < m)
    × (m < 2 ^ 63)

-- One line less.
abbrev pub spent : Option ℕ → Option ℕ
spent none = none
spent (some c) = some (c - 1)

-- The lines that the limit lets through.
abbrev pub within : Option ℕ → List Bytes → List Bytes
within none ls = ls
within (some c) ls = take c ls

-- A reader in front of the lines `ls` of a file.
pub record IsBefore (file : Bytes) (rm : ReadManager) (budget : Option ℕ) (k : ℕ) (ls : List Bytes)
    : Type 0 where
  pub serves : Serves file rm
  pub follows : Follows file rm ls
  pub skips : Skips rm k
  pub allows : Allows rm budget

pub must_skip-more : (rm : ReadManager) (k : ℕ) → Skips rm (suc k) → must_skip rm ≡ true
must_skip-more rm k (j, m, at, upto, sum, fits) = ground arith

pub limit_reached-none : (rm : ReadManager) → Allows rm none → limit_reached rm ≡ false
limit_reached-none rm h = ground arith

pub limit_reached-more :
    (rm : ReadManager) (c : ℕ) → Allows rm (some (suc c)) → limit_reached rm ≡ false
limit_reached-more rm c (j, m, once, at, upto, sum, positive, fits) = ground arith

pub limit_reached-spent : (rm : ReadManager) → Allows rm (some 0) → limit_reached rm ≡ true
limit_reached-spent rm (j, m, once, at, upto, sum, positive, fits) = ground arith

-- The reader when a line is skipped.
abbrev pub passed : ReadManager → List Line → ℕ → ReadManager
passed rm q off = record rm { lines = reverse q; offset = pos off; skipped = rm.skipped +ℤ pos 1 }

pub turn-skip :
    (again : ReadManager → ReadManager × Result Error Bytes) (rm : ReadManager) (b : Line)
    (q : List Line) (off : ℕ)
    → limit_reached rm ≡ false
    → must_skip rm ≡ true
    → fill rm ≡ ok (filled_by rm (b ∷ q) off)
    → read_turn again rm ≡ again (passed rm q off)
unfolding read_turn
turn-skip again rm b q off below more filled = ground (arith, pop-filled_by rm b q off)

pub turn-limit :
    (again : ReadManager → ReadManager × Result Error Bytes) (rm : ReadManager)
    → limit_reached rm ≡ true
    → read_turn again rm ≡ (rm, err eof)
unfolding read_turn
turn-limit again rm reached = ground arith

pub passed-Skips :
    (rm : ReadManager) (q : List Line) (off k : ℕ) → Skips rm (suc k) → Skips (passed rm q off) k
passed-Skips rm q off zero (j, m, at, upto, sum, fits) =
    let one_more : rm.skipped +ℤ pos 1 ≡ pos (j + 1) =
      ap (λ t. t +ℤ pos 1) at ∙ +ℤ_pos j 1 (omega arith) in
    ground arith
passed-Skips rm q off (suc k) (j, m, at, upto, sum, fits) =
    (j + 1, m, ap (λ t. t +ℤ pos 1) at ∙ +ℤ_pos j 1 (omega arith), upto, omega arith, fits)

pub delivered-Allows :
    (rm : ReadManager) (q : List Line) (off : ℕ) (budget : Option ℕ)
    → Allows rm budget
    → limit_reached rm ≡ false
    → Allows (delivered rm q off) (spent budget)
delivered-Allows rm q off none h below = h
delivered-Allows rm q off (some zero) h below = absurd (ground (arith, limit_reached-spent rm h))
delivered-Allows rm q off (some (suc c)) (j, m, once, at, upto, sum, positive, fits) below = (
  j + 1,
  m,
  once,
  ap (λ t. t +ℤ pos 1) at ∙ +ℤ_pos j 1 (omega arith),
  upto,
  omega arith,
  positive,
  fits,
)
