-- ===== src/Api/V1/Resuming.antt =====
-- A client that comes back to an event stream of dcos-log/api/v1/handlers.go with Last-Event-ID.
use dcos_log.Base.{
  ltb, ℕ, ◌≤◌, ◌<◌, ◌^◌, ◌≡◌, refl, ap, ◌∙◌, true, false, List, [], ◌∷◌, ◌++◌, arith, Bytes, bytes,
  length, none, some, ok, All, bytes_eq_refl, is_empty,
}
use dcos_log.Journal.Types.{
  Sdjournal, Encoders, Reader, EntryFormatter, JournalEntry, JournalEntryMatch,
}
use dcos_log.Journal.Cursor.{validate_cursor}
use dcos_log.Journal.Format.{new_entry_formatter, get_content_type, content_type_string}
use dcos_log.Journal.Options.{
  new_reader, fresh_reader, apply_options, add_matches, seek_reader, option_match,
  option_seek_cursor, option_limit, option_skip_next, option_skip_prev, option_read_reverse,
}
use dcos_log.Journal.Reading.{skip_read}
use dcos_log.Journal.Stream.{IsGrowing, Prints}
use dcos_log.Api.Types.{HttpRequest, page, get}
use dcos_log.Api.JournalPage.{Tick}
use dcos_log.Api.JournalStream.{Streamed}
use dcos_log.Api.V1.Journal.{
  Params, read_params, resume_params, reader_options, page_header, read_journal_handler,
}
use dcos_log.Api.V1.StreamPages.{read_params-stream, read_journal_handler-Streamed}

module _ (sd : Sdjournal) (enc : Encoders) where
  -- The journal that is opened and has the matches is moved to the entry of the cursor, at `at`.
  pub record IsFound (system : sd.System) (ms : List JournalEntryMatch) (c : Bytes)
      (at : sd.Journal) : Type 0 where
    pub opened : sd.Journal
    pub in_front : sd.Journal
    pub count : ℕ
    pub opens : sd.new_journal system ≡ ok opened
    pub seeks : sd.seek_cursor c (add_matches sd ms opened) ≡ (none, in_front)
    pub moves : sd.next in_front ≡ (ok count, at)
    pub tests : sd.test_cursor c at ≡ none
    pub stands : sd.get_cursor at ≡ ok c

  -- The reader of a client that saw the entry of the cursor.
  abbrev pub resumed_reader :
      EntryFormatter → List JournalEntryMatch → Bytes → ℕ → sd.Journal → Reader sd.Journal
  resumed_reader f ms c limit at = record (fresh_reader sd at (some f)) {
    cursor = c;
    limit = limit;
    use_limit = ltb 0 limit;
    match_fns = add_matches sd ms ∷ [];
  }

  pub new_reader-resumed :
      (system : sd.System) (f : EntryFormatter) (p : Params) (at : sd.Journal)
      → IsFound system p.matches p.cursor at
      → is_empty p.cursor ≡ false
      → validate_cursor p.cursor ≡ true
      → p.skip_next ≡ 0
      → p.skip_prev ≡ 0
      → p.read_reverse ≡ false
      → new_reader sd system (some f) (reader_options sd enc p)
        ≡ ok (resumed_reader f p.matches p.cursor p.limit at)
  unfolding new_reader reader_options apply_options option_match option_seek_cursor option_limit
      option_skip_next option_skip_prev option_read_reverse seek_reader
  new_reader-resumed system f p at found filled valid no_next no_prev onward =
      let o = found.opens in
      let s = found.seeks in let m = found.moves in let t = found.tests in ground arith

  resume_params-last :
      (req : HttpRequest) (p : Params) (c : Bytes)
      → req.context.stream ≡ true
      → get (bytes "Last-Event-Id") req.header ≡ c
      → is_empty c ≡ false
      → resume_params req p ≡ record p { cursor = c; skip_prev = 0; skip_next = 0 }
  unfolding resume_params
  resume_params-last req p c stream last filled = ground arith

  pub resumed_reader-waits :
      (system : sd.System) (f : EntryFormatter) (ms : List JournalEntryMatch) (c : Bytes)
      (limit : ℕ) (at : sd.Journal)
      → IsFound system ms c at
      → skip_read sd enc (resumed_reader f ms c limit at) ≡ false
  unfolding skip_read
  resumed_reader-waits system f ms c limit at found =
      let stands = found.stands in let same = bytes_eq_refl c in ground arith

  -- A client that comes back to a stream with the cursor of the last entry that it saw in Last-Event-ID
  -- is sent the entries behind that one, each once, in the order of the journal, with none left out
  -- between them, and not that entry again, whatever its parameters `cursor`, `skip_next` and `skip_prev`
  -- say. At each tick all entries that can be seen then are sent, a ping only if there are none, the
  -- format is an event stream and the last text is 15 seconds old, and after a tick without text the
  -- journal is waited for, so that the entries that it then shows come at the next tick. The parameters
  -- are good ones, the cursor is well-formed, and the journal finds its entry; the journal grows and is
  -- not rotated, the entries' formats succeed, and 64 bits count the entries. Some fuel is enough for all
  -- ticks, and more changes nothing.
  pub read_journal_handler-resumed :
      (unicode_upper : Bytes → Bytes) (now : ℕ) (view rest : sd.Journal → List JournalEntry)
      (growing : IsGrowing sd view rest) (system : sd.System) (ticks : List (Tick sd.System))
      (req : HttpRequest) (f : EntryFormatter) (p : Params) (c : Bytes) (at : sd.Journal)
      → new_entry_formatter (get (bytes "Accept") req.header) true ≡ f
      → req.context.stream ≡ true
      → read_params unicode_upper req ≡ some p
      → get (bytes "Last-Event-Id") req.header ≡ c
      → is_empty c ≡ false
      → validate_cursor c ≡ true
      → IsFound system p.matches c at
      → length (rest at) < 2 ^ 64
      → All (Prints enc f) (rest at)
      → let r = resumed_reader f p.matches c 0 at in
        (s : Streamed sd enc view rest growing f r ticks) × ((fuel : ℕ)
          → s.enough ≤ fuel
          → read_journal_handler sd enc unicode_upper fuel now system ticks req
            ≡ page
                (page_header sd enc (content_type_string (get_content_type f)) r
                  ++ (bytes "X-Accel-Buffering", bytes "no") ∷ [])
                s.out
                none)
  read_journal_handler-resumed unicode_upper now view rest growing system ticks req f p c at accept
        stream params last filled valid found bound prints =
      let q = record p { cursor = c; skip_prev = 0; skip_next = 0 } in
      let (no_limit, onward) = read_params-stream unicode_upper req p stream params in
      let made =
        ap (λ t. new_reader sd system (some f) (reader_options sd enc t))
          (resume_params-last req p c stream last filled)
        ∙ new_reader-resumed system f q at found filled valid refl refl onward
        ∙ ap (λ n. ok (resumed_reader f p.matches c n at)) no_limit in
      read_journal_handler-Streamed sd enc unicode_upper now view rest growing system ticks req f p
        (resumed_reader f p.matches c 0 at) accept stream params made
        (resumed_reader-waits system f p.matches c 0 at found) bound prints
