-- ===== src/Journal/Turns.antt =====
-- What is to be sent at one time of a stream of dcos-log/journal/reader/read.go: the entries that can be
-- seen, a ping, or nothing.
use dcos_log.Base.{ℕ, ◌≡◌, true, false, not, ◌&&◌, List, [], ◌∷◌, Bytes, Option, some, ok}
use dcos_log.Journal.Types.{Sdjournal, Encoders, JournalEntry, EntryFormatter, WaitResult}
use dcos_log.Journal.Reading.{is_event_stream, is_recent, ping}
use dcos_log.Journal.Delivery.{Formats, concat}

-- The journal is moved on by one entry after the other.
pub data Reaches (sd : Sdjournal) : sd.Journal → List JournalEntry → sd.Journal → Type 0 where
  here : {j : sd.Journal} → Reaches sd j [] j
  past :
      {j j' k : sd.Journal} {e : JournalEntry} {es : List JournalEntry}
      → sd.next j ≡ (ok 1, j')
      → sd.get_entry j' ≡ ok e
      → Reaches sd j' es k
      → Reaches sd j (e ∷ es) k

-- From the journal and the time of the last text to those afterwards, with the entries and the text that
-- are sent: all entries that can be seen; where there are none, a ping if the stream is one of events
-- and was idle for long, and else nothing.
pub data Turn (sd : Sdjournal) (enc : Encoders) (view : sd.Journal → List JournalEntry)
    (f : EntryFormatter) (now : ℕ)
    : Option ℕ → sd.Journal → List JournalEntry → Bytes → sd.Journal → Option ℕ → Type 0 where
  news :
      {last : Option ℕ} {j k : sd.Journal} (e : JournalEntry) (es : List JournalEntry)
      (ts : List Bytes)
      → view j ≡ e ∷ es
      → Reaches sd j (e ∷ es) k
      → view k ≡ []
      → Formats enc f (e ∷ es) ts
      → Turn sd enc view f now last j (e ∷ es) (concat ts) k (some now)
  pings :
      {last : Option ℕ} {j : sd.Journal}
      → view j ≡ []
      → is_event_stream f ≡ true
      → is_recent now last ≡ false
      → Turn sd enc view f now last j [] ping j (some now)
  rests :
      {last : Option ℕ} {j : sd.Journal}
      → view j ≡ []
      → (is_event_stream f && not (is_recent now last)) ≡ false
      → Turn sd enc view f now last j [] [] j last

-- After no text the journal is waited for, and after some text it is not.
abbrev pub Waits : (sd : Sdjournal) → ℕ → Bytes → sd.Journal → sd.Journal → Type 0
Waits sd duration [] j k = (event : WaitResult) × (sd.wait duration j ≡ (event, k))
Waits sd duration (c ∷ text) j k = k ≡ j
