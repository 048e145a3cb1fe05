-- ===== src/Journal/Stream.antt =====
-- A journal that grows, and what a stream of dcos-log/journal/reader/read.go sends of it.
use dcos_log.Base.{
  ℕ, ◌+◌, ◌<◌, ◌^◌, ◌≡◌, ◌≢◌, sym, subst, true, false, not, ◌&&◌, List, [], ◌∷◌, ◌++◌, append_assoc,
  All, Bytes, length, none, ok,
}
use dcos_log.Journal.Types.{
  Sdjournal, Encoders, Reader, JournalEntry, EntryFormatter, WaitResult, invalidate,
}
use dcos_log.Journal.Format.{format_entry}
use dcos_log.Journal.Reading.{is_event_stream, is_recent, ping, skip_read}
use dcos_log.Journal.Delivery.{IsLog, Formats, concat}

-- The journal holds the entries of `rest` behind its place, of which `view` can be seen. Waiting at the
-- end of what can be seen shows more of them, or none, and does not move it.
pub record IsGrowing (sd : Sdjournal) (view rest : sd.Journal → List JournalEntry) : Type 0 where
  pub log : IsLog sd view
  pub visible : (j : sd.Journal) → (later : List JournalEntry) × (rest j ≡ view j ++ later)
  pub advances :
      (j j' : sd.Journal) (e : JournalEntry) (es : List JournalEntry)
      → view j ≡ e ∷ es
      → sd.next j ≡ (ok 1, j')
      → rest j ≡ e ∷ rest j'
  pub waits :
      (duration : ℕ) (j : sd.Journal)
      → view j ≡ []
      → (event : WaitResult) × (j' : sd.Journal) × (sd.wait duration j ≡ (event, j'))
        × (event ≢ invalidate)
        × (rest j' ≡ rest j)
        × (sd.get_cursor j' ≡ sd.get_cursor j)

-- The text sent for entries: those of the entries, in order and each once, with pings between them where
-- the format is an event stream.
pub data Sends (enc : Encoders) (f : EntryFormatter) : List JournalEntry → Bytes → Type 0 where
  done : Sends enc f [] []
  entry :
      {e : JournalEntry} {es : List JournalEntry} {t out : Bytes}
      → format_entry enc f e ≡ ok t
      → Sends enc f es out
      → Sends enc f (e ∷ es) (t ++ out)
  idle :
      {es : List JournalEntry} {out : Bytes}
      → is_event_stream f ≡ true
      → Sends enc f es out
      → Sends enc f es (ping ++ out)

pub Sends-concat :
    (enc : Encoders) (f : EntryFormatter) (es later : List JournalEntry) (ts : List Bytes)
    (out : Bytes)
    → Formats enc f es ts
    → Sends enc f later out
    → Sends enc f (es ++ later) (concat ts ++ out)
Sends-concat enc f [] later [] out h s = s
Sends-concat enc f [] later (t ∷ ts) out h s = absurd h
Sends-concat enc f (e ∷ es) later [] out h s = absurd h
Sends-concat enc f (e ∷ es) later (t ∷ ts) out (h, hs) s =
    subst (Sends enc f (e ∷ (es ++ later))) (sym (append_assoc t (concat ts) out))
      (entry h (Sends-concat enc f es later ts out hs s))

abbrev pub Prints : Encoders → EntryFormatter → JournalEntry → Type 0
Prints enc f e = (t : Bytes) × (format_entry enc f e ≡ ok t)

pub Formats-Prints :
    (enc : Encoders) (f : EntryFormatter) (es : List JournalEntry)
    → All (Prints enc f) es
    → (ts : List Bytes) × Formats enc f es ts
Formats-Prints enc f [] h = ([], tt)
Formats-Prints enc f (e ∷ es) ((t, h), hs) =
    let (ts, k) = Formats-Prints enc f es hs in (t ∷ ts, (h, k))

-- Nothing is due to be sent at the end of the journal.
abbrev pub IsQuiet : {Journal : Type 0} → ℕ → Reader Journal → Type 0
IsQuiet now r = (is_event_stream r.content_formatter && not (is_recent now r.eof_time)) ≡ false

module _ (sd : Sdjournal) (enc : Encoders) (view rest : sd.Journal → List JournalEntry)
    (growing : IsGrowing sd view rest) where
  -- A reader of a stream between two entries: it goes forward, without a limit, and the journal is moved
  -- for its next entry.
  pub record IsStreaming (f : EntryFormatter) (r : Reader sd.Journal) : Type 0 where
    pub format : r.content_formatter ≡ f
    pub between : r.msg_reader ≡ none
    pub forward : r.read_reverse ≡ false
    pub unlimited : r.use_limit ≡ false
    pub started : skip_read sd enc r ≡ false
    pub counts : r.n + length (rest r.journal) < 2 ^ 64
