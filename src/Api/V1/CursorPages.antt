-- ===== src/Api/V1/CursorPages.antt =====
-- The page that readJournalHandler of dcos-log/api/v1/handlers.go sends for the parameter cursor.
use dcos_log.Base.{
  ℕ, ltb, ◌≤◌, ◌<◌, ◌^◌, if◌then◌else◌, ◌≡◌, refl, false, true, List, Bytes, bytes, length,
  is_empty, none, some, inl,
}
use dcos_log.Journal.Types.{Sdjournal, Encoders, EntryFormatter, JournalEntry}
use dcos_log.Journal.Cursor.{validate_cursor}
use dcos_log.Journal.Format.{new_entry_formatter, get_content_type, content_type_string}
use dcos_log.Journal.Reading.{is_event_stream}
use dcos_log.Journal.Delivery.{IsLog, Formats, concat, within_limit}
use dcos_log.Api.Types.{HttpRequest, page, get}
use dcos_log.Api.JournalPage.{Tick}
use dcos_log.Api.V1.Journal.{Params, read_params, page_header, read_journal_handler}
use dcos_log.Api.V1.Pages.{read_journal_handler-concat}
use dcos_log.Api.V1.Resuming.{IsFound, resumed_reader, new_reader-resumed, resumed_reader-waits}

module _ (sd : Sdjournal) (enc : Encoders) where
  -- A request for a part of the journal with a cursor is answered with the texts of the entries behind
  -- the cursor's, without that entry itself, in their order, each whole and once, and no more than its
  -- limit if that is not 0; the code of an empty page is 204. The parameters are good ones, ask for no
  -- skips and not for the reverse order, the cursor is well-formed, and the journal finds its entry; the
  -- journal behaves as a log that does not grow meanwhile, the entries' formats succeed, the format is
  -- not an event stream, and 64 bits count the entries. Some fuel is enough, and more changes nothing.
  pub read_journal_handler-behind :
      (unicode_upper : Bytes → Bytes) (now : ℕ) (view : sd.Journal → List JournalEntry)
      (log : IsLog sd view) (system : sd.System) (ticks : List (Tick sd.System)) (req : HttpRequest)
      (f : EntryFormatter) (p : Params) (at : sd.Journal) (ts : List Bytes)
      → new_entry_formatter (get (bytes "Accept") req.header) false ≡ f
      → is_event_stream f ≡ false
      → req.context.stream ≡ false
      → read_params unicode_upper req ≡ some p
      → is_empty p.cursor ≡ false
      → validate_cursor p.cursor ≡ true
      → p.skip_next ≡ 0
      → p.skip_prev ≡ 0
      → p.read_reverse ≡ false
      → IsFound sd enc system p.matches p.cursor at
      → length (view at) < 2 ^ 64
      → Formats enc f (view at) ts
      → let out = concat (within_limit (ltb 0 p.limit) p.limit ts) in
        (k : ℕ) × ((fuel : ℕ)
          → k ≤ fuel
          → read_journal_handler sd enc unicode_upper fuel now system ticks req
            ≡ page
                (page_header sd enc
                  (content_type_string (get_content_type f))
                  (resumed_reader sd enc f p.matches p.cursor p.limit at))
                out
                (if is_empty out then some 204 else none))
  read_journal_handler-behind unicode_upper now view log system ticks req f p at ts accept no_pings
        once params filled valid no_next no_prev onward found bound texts =
      read_journal_handler-concat sd enc unicode_upper now view log system ticks req f p
        (resumed_reader sd enc f p.matches p.cursor p.limit at) (view at) ts accept no_pings once
        params onward
        (new_reader-resumed sd enc system f p at found filled valid no_next no_prev onward)
        (inl (resumed_reader-waits sd enc system f p.matches p.cursor p.limit at found, refl)) bound
        texts
