-- ===== src/Tests/Rotations.antt =====
-- The limit of a journal reader, and a rotated journal.
use dcos_log.Base.{◌≡◌, ◌≤◌, refl, arith, List, [], ◌∷◌, bytes, none, some, ok}
use dcos_log.Journal.Types.{Sdjournal, Reader, format_json}
use dcos_log.Journal.Options.{fresh_reader, option_limit, seek_reader}
use dcos_log.Journal.Reading.{read, reopen}
use dcos_log.Journal.Limit.{IsCounted, here, next, call, option_limit-IsCounted}
use dcos_log.Journal.Rotation.{MatchOption, all_of, matched, reopen-matched}
use dcos_log.Tests.Logs.{Place, memory, plain, bottom, entries}

-- A journal of two entries in front, and a reader of at most one.
abbrev top : Place
top = record { current = none; ahead = entries }

abbrev limited : Reader Place
limited = (option_limit memory 1 (fresh_reader memory top (some format_json))).0

abbrev after_two_calls : Reader Place
after_two_calls = (read memory plain 2 (read memory plain 1 limited 100).0 100).0

option_limit-IsCounted_example : IsCounted memory plain 1 after_two_calls × (after_two_calls.n ≤ 1)
option_limit-IsCounted_example =
    option_limit-IsCounted memory plain top (some format_json) 1 after_two_calls (omega arith)
      (omega arith) (next (next here (call 1 100)) (call 2 100))

-- A system on which the journal can be opened again.
abbrev rotating : Sdjournal
rotating = record memory { get_cursor = λ j. ok (bytes "c"); new_journal = λ s. ok top }

abbrev matches : List MatchOption
matches = all_of (record { field = bytes "UNIT"; value = bytes "a" } ∷ []) ∷ []

abbrev at_bottom : Reader Place
at_bottom = record (matched rotating plain matches (fresh_reader rotating top none)) {
  journal = bottom;
  n = 2;
}

reopen-matched_example : reopen rotating plain tt at_bottom ≡ (
  (seek_reader rotating (bytes "c") (record at_bottom {
    journal = (matched rotating plain matches (fresh_reader rotating top none)).journal;
  })).0,
  none,
)
reopen-matched_example =
    reopen-matched rotating plain matches top top none at_bottom tt (bytes "c") refl refl refl refl
