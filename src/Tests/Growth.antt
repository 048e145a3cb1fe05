-- ===== src/Tests/Growth.antt =====
-- A journal in memory that grows by an entry at each wait.
use dcos_log.Base.{
  ℕ, ◌≡◌, refl, ap, sym, ◌∙◌, List, [], ◌∷◌, ◌++◌, append_assoc, Bytes, bytes, Option, none, some,
  ok, err, Result, ◌≢◌,
}
use dcos_log.Journal.Types.{Sdjournal, JournalEntry, WaitResult, nop, append, invalidate}
use dcos_log.Journal.Delivery.{IsLog}
use dcos_log.Journal.Stream.{IsGrowing}
use dcos_log.Api.JournalPage.{Tick}
use dcos_log.Tests.Logs.{entry, entry_of}

-- The entry on which the journal stands, those that can be seen in front of it, and those that are
-- written afterwards.
pub record Growth : Type 0 where
  pub current : Option JournalEntry
  pub ahead : List JournalEntry
  pub later : List JournalEntry

abbrev grow : Growth → List JournalEntry → WaitResult × Growth
grow j [] = (nop, j)
grow j (e ∷ es) = (append, record { current = j.current; ahead = j.ahead ++ (e ∷ []); later = es })

abbrev advance : Growth → List JournalEntry → Result Bytes ℕ × Growth
advance j [] = (ok 0, j)
advance j (e ∷ es) = (ok 1, record { current = some e; ahead = es; later = j.later })

-- An entry can be seen, and one is to come.
abbrev pub start : Growth
start = record { current = none; ahead = entry (bytes "a") ∷ []; later = entry (bytes "b") ∷ [] }

abbrev cursor_of : Option JournalEntry → Result Bytes Bytes
cursor_of none = err []
cursor_of (some e) = ok e.cursor

abbrev pub growing_from : Growth → Sdjournal
growing_from begin = record {
  System = Unit {0};
  Journal = Growth;
  new_journal = λ s. ok begin;
  next = λ j. advance j j.ahead;
  previous = λ j. (ok 0, j);
  next_skip = λ n j. (ok 0, j);
  previous_skip = λ n j. (ok 0, j);
  seek_tail = λ j. (none, j);
  seek_cursor = λ c j. (none, j);
  seek_realtime_usec = λ t j. (none, j);
  test_cursor = λ c j. none;
  get_cursor = λ j. cursor_of j.current;
  get_entry = λ j. entry_of j.current;
  add_match = λ m j. j;
  add_disjunction = λ j. j;
  wait = λ d j. grow j j.later;
  close = λ j. none;
  get_unique_values = λ f j. ok [];
}

abbrev pub growing : Sdjournal
growing = growing_from start

abbrev pub view : Growth → List JournalEntry
view j = j.ahead

abbrev pub rest : Growth → List JournalEntry
rest j = j.ahead ++ j.later

grows :
    (j : Growth) (es : List JournalEntry)
    → j.later ≡ es
    → j.ahead ≡ []
    → (event : WaitResult) × (j' : Growth) × (grow j es ≡ (event, j'))
      × (event ≢ invalidate)
      × (rest j' ≡ rest j)
      × (cursor_of j'.current ≡ cursor_of j.current)
grows j [] h v = (nop, j, refl, (λ p. cc), refl, refl)
grows j (e ∷ es) h v = (
  append,
  record { current = j.current; ahead = j.ahead ++ (e ∷ []); later = es },
  refl,
  (λ p. cc),
  append_assoc j.ahead (e ∷ []) es ∙ ap (λ l. j.ahead ++ l) (sym h),
  refl,
)

is_log : (begin : Growth) → IsLog (growing_from begin) view
is_log begin = record {
  at_end = λ j h i. advance j (h i);
  forward = λ j e es h. (
    record { current = some e; ahead = es; later = j.later },
    (λ i. advance j (h i)),
    refl,
    refl,
  );
}

pub is_growing : (begin : Growth) → IsGrowing (growing_from begin) view rest
is_growing begin = record {
  log = is_log begin;
  visible = λ j. (j.later, refl);
  advances = λ j j' e es h step.
      let place : record { current = some e; ahead = es; later = j.later } ≡ j' =
        ap (λ p. p.1) (sym (λ i. advance j (h i)) ∙ step) in
      ap (λ l. l ++ j.later) h ∙ ap (λ k. e ∷ rest k) place;
  waits = λ duration j h. grows j j.later refl h;
}

abbrev pub ticks : List (Tick (Unit {0}))
ticks = record { now = 7; system = tt } ∷ record { now = 8; system = tt } ∷ []
