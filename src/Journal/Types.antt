-- ===== src/Journal/Types.antt =====
-- The journal that dcos-log/journal/reader reads, through the package sdjournal of go-systemd, and the
-- reader's state.
use dcos_log.Base.{ℕ, Bool, List, Bytes, Option, ℤ, Result}

-- sdjournal.JournalEntry
pub record JournalEntry : Type 0 where
  pub fields : List (Bytes × Bytes)
  pub cursor : Bytes
  pub realtime_timestamp : ℕ
  pub monotonic_timestamp : ℕ

pub data WaitResult : Type 0 where
  nop append invalidate : WaitResult

-- The calls of sdjournal: a journal is a state, and a call returns its result and the new state. `open`
-- is NewJournal, in the state in which the system is.
pub record Sdjournal : Type 1 where
  pub System : Type 0
  pub Journal : Type 0
  pub new_journal : System → Result Bytes Journal
  pub next : Journal → Result Bytes ℕ × Journal
  pub previous : Journal → Result Bytes ℕ × Journal
  pub next_skip : ℕ → Journal → Result Bytes ℕ × Journal
  pub previous_skip : ℕ → Journal → Result Bytes ℕ × Journal
  pub seek_tail : Journal → Option Bytes × Journal
  pub seek_cursor : Bytes → Journal → Option Bytes × Journal
  pub seek_realtime_usec : ℕ → Journal → Option Bytes × Journal
  pub test_cursor : Bytes → Journal → Option Bytes
  pub get_cursor : Journal → Result Bytes Bytes
  pub get_entry : Journal → Result Bytes JournalEntry
  pub add_match : Bytes → Journal → Journal
  pub add_disjunction : Journal → Journal
  pub wait : ℕ → Journal → WaitResult × Journal
  pub close : Journal → Option Bytes
  pub get_unique_values : Bytes → Journal → Result Bytes (List Bytes)

-- time.Time.Format in the local time zone, of a Unix time in seconds, and json.Marshal of the object
-- that marshalJournalEntry builds.
pub record Encoders : Type 0 where
  pub format_time : ℤ → Bytes
  pub marshal : JournalEntry → Result Bytes Bytes

pub data EntryFormatter : Type 0 where
  format_text : EntryFormatter
  format_json : EntryFormatter
  format_sse : Bool → EntryFormatter

pub data Error : Type 0 where
  -- io.EOF
  eof : Error
  cursor_format : Error
  invalid_duration : Error
  -- "Could not move to the end if the journal"
  tail_not_reached : Bytes → Error
  cursor_not_found : Bytes → Bytes → Error
  -- the errors of Follow while it opens the journal again
  no_current_cursor : Bytes → Error
  not_closed : Bytes → Error
  not_reopened : Bytes → Error
  -- an error of sdjournal or of an encoder
  foreign : Bytes → Error
  -- the model's own: a loop ran out of fuel
  out_of_fuel : Error

-- A reader that NewReader returned, so that its journal and its formatter are not nil. A time is in
-- nanoseconds, and `none` is the zero time; `msg_reader` is what is left of the current message.
pub record Reader (Journal : Type 0) : Type 0 where
  pub journal : Journal
  pub cursor : Bytes
  pub limit : ℕ
  pub use_limit : Bool
  pub skipped_next : ℕ
  pub skipped_prev : ℕ
  pub read_reverse : Bool
  pub eof_time : Option ℕ
  pub msg_reader : Option Bytes
  pub content_formatter : EntryFormatter
  pub n : ℕ
  pub match_fns : List (Journal → Journal)

pub record JournalEntryMatch : Type 0 where
  pub field : Bytes
  pub value : Bytes
