-- ===== src/Mesos/WindowRead.antt =====
-- A call of Read with lines to skip and a limit, in front of any lines.
use dcos_log.Base.{
  ℕ, zero, suc, ◌≤◌, ◌≡◌, refl, ap, ◌∙◌, ◌⊎◌, inl, inr, false, List, [], ◌∷◌, arith, Bytes, drop,
  take, Option, none, some, ok, err,
}
use dcos_log.Mesos.Types.{eof, Line, ReadManager}
use dcos_log.Mesos.Format.{formatted}
use dcos_log.Mesos.Reading.{read_loop, limit_reached}
use dcos_log.Mesos.Delivery.{delivered, turn}
use dcos_log.Mesos.CopyOut.{turn-last}
use dcos_log.Mesos.Supply.{Supplies}
use dcos_log.Mesos.Window.{
  Skips, Allows, spent, within, must_skip-more, limit_reached-none, limit_reached-more,
  limit_reached-spent, passed, turn-skip, turn-limit, passed-Skips, delivered-Allows,
}

-- A reader with the lines `ls` to give, of which it passes over the first `k`.
pub record IsSupplied (rm : ReadManager) (budget : Option ℕ) (k : ℕ) (ls : List Bytes)
    : Type 0 where
  pub supplies : Supplies rm ls
  pub skips : Skips rm k
  pub allows : Allows rm budget

-- A turn of Read that delivers the line `l`.
pub record Gives (rm : ReadManager) (budget : Option ℕ) (fuel : ℕ) (l : Bytes) (rest : List Bytes)
    : Type 0 where
  pub line : Line
  pub after : ReadManager
  pub result : read_loop (suc fuel) rm ≡ (after, ok (formatted rm.format_fn line after))
  pub message : line.message ≡ l
  pub supplied : IsSupplied after (spent budget) 0 rest
  pub same_format : after.format_fn ≡ rm.format_fn

-- What a call of Read does in front of the lines `ls`, of which `k` are to be skipped.
abbrev pub Reads : ReadManager → Option ℕ → ℕ → List Bytes → ℕ → Type 0
Reads rm budget k ls fuel =
    ((rm' : ReadManager) × (read_loop (suc fuel) rm ≡ (rm', err eof))
      × (within budget (drop k ls) ≡ []))
    ⊎ ((l : Bytes) × (rest : List Bytes) × (drop k ls ≡ l ∷ rest)
        × (within budget (drop k ls) ≡ l ∷ within (spent budget) rest)
        × Gives rm budget fuel l rest)

pub drop_nil : (k : ℕ) → drop {A = Bytes} k [] ≡ []
drop_nil zero = refl
drop_nil (suc k) = refl

within-nil : (budget : Option ℕ) → within budget [] ≡ []
within-nil none = refl
within-nil (some zero) = refl
within-nil (some (suc c)) = refl

within-cons :
    (rm : ReadManager) (budget : Option ℕ) (l : Bytes) (rest : List Bytes)
    → Allows rm budget
    → limit_reached rm ≡ false
    → within budget (l ∷ rest) ≡ l ∷ within (spent budget) rest
within-cons rm none l rest h below = refl
within-cons rm (some zero) l rest h below = absurd (ground (arith, limit_reached-spent rm h))
within-cons rm (some (suc c)) l rest h below = ap (λ t. l ∷ take t rest) (omega arith)

Reads-below :
    (rm : ReadManager) (budget : Option ℕ) (k fuel : ℕ) (ls : List Bytes)
    → IsSupplied rm budget k ls
    → limit_reached rm ≡ false
    → k ≤ fuel
    → Reads rm budget k ls fuel
unfolding read_loop
Reads-below rm budget k fuel [] before below enough = inl (
  rm,
  turn-last (read_loop fuel) rm below before.supplies,
  ap (within budget) (drop_nil k) ∙ within-nil budget,
)
Reads-below rm budget zero fuel (l ∷ ls) before below enough =
    let (b, q, off, filled, message, later) = before.supplies in
    inr (
      l,
      ls,
      refl,
      within-cons rm budget l ls before.allows below,
      record {
        line = b;
        after = delivered rm q off;
        result = turn (read_loop fuel) rm b q off below before.skips filled;
        message = message;
        supplied = record {
          supplies = later rm.skipped (delivered rm q off).read_lines;
          skips = before.skips;
          allows = delivered-Allows rm q off budget before.allows below;
        };
        same_format = refl;
      },
    )
Reads-below rm budget (suc k) zero (l ∷ ls) before below enough = absurd (omega arith)
Reads-below rm budget (suc k) (suc fuel) (l ∷ ls) before below enough =
    let (b, q, off, filled, message, supplies) = before.supplies in
    let skipped =
      turn-skip (read_loop (suc fuel)) rm b q off below (must_skip-more rm k before.skips) filled in
    let later =
      Reads-below (passed rm q off) budget k fuel ls
        (record {
          supplies = supplies (passed rm q off).skipped rm.read_lines;
          skips = passed-Skips rm q off k before.skips;
          allows = before.allows;
        })
        below (omega arith) in
    elim later [
      | inl (rm', stops, none_left) ↦ inl (rm', skipped ∙ stops, none_left)
      | inr (l', rest, parts, some_left, g) ↦ inr (
        l',
        rest,
        parts,
        some_left,
        record {
          line = g.line;
          after = g.after;
          result = skipped ∙ g.result;
          message = g.message;
          supplied = g.supplied;
          same_format = g.same_format;
        },
      )
    ]

pub reads :
    (rm : ReadManager) (budget : Option ℕ) (k fuel : ℕ) (ls : List Bytes)
    → IsSupplied rm budget k ls
    → k ≤ fuel
    → Reads rm budget k ls fuel
reads rm none k fuel ls before enough =
    Reads-below rm none k fuel ls before (limit_reached-none rm before.allows) enough
reads rm (some zero) k fuel ls before enough = inl (
  rm,
  unfold read_loop in turn-limit (read_loop fuel) rm (limit_reached-spent rm before.allows),
  refl,
)
reads rm (some (suc c)) k fuel ls before enough =
    Reads-below rm (some (suc c)) k fuel ls before (limit_reached-more rm c before.allows) enough
