-- ===== src/Tests/Logs.antt =====
-- The journal reader at a journal of two entries, and cursors.
use dcos_log.Base.{
  ℕ, ◌≡◌, refl, sym, ◌∙◌, true, false, List, [], ◌∷◌, arith, Bytes, bytes, Option, none, some,
  Result, ok, err, inl,
}
use dcos_log.Journal.Types.{
  Sdjournal, Encoders, JournalEntry, Reader, nop, format_json, format_sse, eof,
}
use dcos_log.Journal.Options.{fresh_reader}
use dcos_log.Journal.Reading.{skip_read, read, ping}
use dcos_log.Journal.Format.{format_entry}
use dcos_log.Journal.Delivery.{IsLog, Copies, Formats}
use dcos_log.Journal.Entries.{copy_entries-concat}
use dcos_log.Journal.Idle.{IsIdle, pinged, read-ping}

-- A journal in memory: the entry on which it stands, and those in front of it.
pub record Place : Type 0 where
  pub current : Option JournalEntry
  pub ahead : List JournalEntry

abbrev pub step : Option JournalEntry → List JournalEntry → Result Bytes ℕ × Place
step current [] = (ok 0, record { current = current; ahead = [] })
step current (e ∷ es) = (ok 1, record { current = some e; ahead = es })

abbrev pub entry_of : Option JournalEntry → Result Bytes JournalEntry
entry_of none = err []
entry_of (some e) = ok e

abbrev pub memory : Sdjournal
memory = record {
  System = Unit {0};
  Journal = Place;
  new_journal = λ s. err [];
  next = λ j. step j.current j.ahead;
  previous = λ j. (ok 0, j);
  next_skip = λ n j. (ok 0, j);
  previous_skip = λ n j. (ok 0, j);
  seek_tail = λ j. (none, j);
  seek_cursor = λ c j. (none, j);
  seek_realtime_usec = λ t j. (none, j);
  test_cursor = λ c j. none;
  get_cursor = λ j. err [];
  get_entry = λ j. entry_of j.current;
  add_match = λ m j. j;
  add_disjunction = λ j. j;
  wait = λ d j. (nop, j);
  close = λ j. none;
  get_unique_values = λ f j. ok [];
}

abbrev pub plain : Encoders
plain = record { format_time = λ t. bytes "T"; marshal = λ e. ok e.cursor }

pub log_forward :
    (j : Place) (e : JournalEntry) (es : List JournalEntry)
    → j.ahead ≡ e ∷ es
    → (j' : Place) × (step j.current j.ahead ≡ (ok 1, j'))
      × (j'.ahead ≡ es)
      × (entry_of j'.current ≡ ok e)
log_forward j e es h =
    (record { current = some e; ahead = es }, (λ i. step j.current (h i)), refl, refl)

pub log_end : (j : Place) → j.ahead ≡ [] → step j.current j.ahead ≡ (ok 0, j)
log_end j h =
    (λ i. step j.current (h i)) ∙ (λ i. (ok 0, record { current = j.current; ahead = sym h i }))

is_log : IsLog memory (λ j. j.ahead)
is_log = record { at_end = log_end; forward = log_forward }

abbrev pub entry : Bytes → JournalEntry
entry c = record {
  fields = (bytes "MESSAGE", c) ∷ [];
  cursor = c;
  realtime_timestamp = 0;
  monotonic_timestamp = 0;
}

abbrev pub entries : List JournalEntry
entries = entry (bytes "a") ∷ entry (bytes "b") ∷ []

abbrev pub texts : List Bytes
texts = bytes "a\n" ∷ bytes "b\n" ∷ []

-- A reader of at most one entry, as JSON.
abbrev one_entry : Reader Place
one_entry =
    record (fresh_reader memory (record { current = none; ahead = entries }) (some format_json)) {
      limit = 1;
      use_limit = true;
    }

pub moves : skip_read memory plain one_entry ≡ false
unfolding skip_read
moves = refl

pub formats : Formats plain format_json entries texts
unfolding format_entry
formats = (refl, (refl, tt))

copy_entries-concat_example : Copies memory plain 0 one_entry (bytes "a\n")
copy_entries-concat_example =
    copy_entries-concat memory plain 0 (λ j. j.ahead) is_log entries texts one_entry
      (record { between = refl; forward = refl; no_pings = refl }) (inl (moves, refl)) (omega arith)
      formats

-- An event stream at the end of the journal.
abbrev pub bottom : Place
bottom = record { current = none; ahead = [] }

abbrev idle_reader : Reader Place
idle_reader = fresh_reader memory bottom (some (format_sse true))

still : (r : Reader Place) → r.journal ≡ bottom → skip_read memory plain r ≡ false
unfolding skip_read
still r h = ground arith

is_idle : IsIdle memory plain idle_reader bottom
is_idle = record {
  stream = refl;
  between = refl;
  forward = refl;
  unlimited = refl;
  started = still idle_reader refl;
  at_end = refl;
}

read-ping_example :
    (read memory plain 100 idle_reader 8 ≡ (pinged memory plain 100 idle_reader bottom, ok ping))
    × (read memory plain 200 (pinged memory plain 100 idle_reader bottom) 8
        ≡ (record (pinged memory plain 100 idle_reader bottom) { journal = bottom }, err eof))
read-ping_example =
    read-ping memory plain idle_reader bottom bottom 100 200 8 is_idle refl (omega arith)
      (record {
        stream = refl;
        between = refl;
        forward = refl;
        unlimited = refl;
        started = still (pinged memory plain 100 idle_reader bottom) refl;
        at_end = refl;
      })
      (omega arith)
