-- ===== src/Api/V1/Pages.antt =====
-- The page that readJournalHandler of dcos-log/api/v1/handlers.go sends for a part of the journal.
use dcos_log.Base.{
  ℕ, ◌≤◌, ◌<◌, ◌^◌, ltb, if◌then◌else◌, ◌≡◌, refl, subst, ap, sym, ◌∙◌, false, List, [], ◌∷◌, arith,
  Bytes, bytes, length, is_empty, none, some, ok,
}
use dcos_log.Journal.Types.{Sdjournal, Encoders, Reader, EntryFormatter, JournalEntry}
use dcos_log.Journal.Format.{new_entry_formatter, get_content_type, content_type_string}
use dcos_log.Journal.Options.{new_reader, option_limit, option_read_reverse}
use dcos_log.Journal.Reading.{is_event_stream, copy_entries}
use dcos_log.Journal.Delivery.{IsLog, Formats, concat, within_limit}
use dcos_log.Journal.Entries.{IsDue, copy_entries-concat}
use dcos_log.Journal.Settings.{
  Settings, settings, new_reader-Sets, id_settings, settings-match, settings-seek_cursor,
  settings-skip_next, settings-skip_prev,
}
use dcos_log.Api.Types.{HttpRequest, page, get}
use dcos_log.Api.JournalPage.{Tick, copy_page}
use dcos_log.Api.V1.Journal.{
  Params, read_params, resume_params, reader_options, page_header, read_journal_handler,
}

module _ (sd : Sdjournal) (enc : Encoders) where
  -- The settings that the parameters ask for.
  abbrev pub asked_settings : EntryFormatter → Params → Settings sd
  asked_settings f p = record {
    limit = p.limit;
    use_limit = ltb 0 p.limit;
    read_reverse = p.read_reverse;
    eof_time = none;
    msg_reader = none;
    content_formatter = f;
    n = 0;
  }

  pub new_reader-asked :
      (system : sd.System) (f : EntryFormatter) (p : Params) (r : Reader sd.Journal)
      → new_reader sd system (some f) (reader_options sd enc p) ≡ ok r
      → settings sd r ≡ asked_settings f p
  unfolding reader_options option_limit option_read_reverse
  new_reader-asked system f p r h =
      new_reader-Sets sd system f (reader_options sd enc p)
        (id_settings sd
          ∷ id_settings sd
          ∷ (λ c. record c { limit = p.limit; use_limit = ltb 0 p.limit })
          ∷ id_settings sd
          ∷ id_settings sd
          ∷ (λ c. record c { read_reverse = p.read_reverse })
          ∷ [])
        r
        (
          settings-match sd p.matches,
          (
            settings-seek_cursor sd p.cursor,
            (
              λ t. refl,
              (
                settings-skip_next sd p.skip_next,
                (settings-skip_prev sd p.skip_prev, (λ t. refl, tt)),
              ),
            ),
          ),
        )
        h

  read_journal_handler-copied :
      (unicode_upper : Bytes → Bytes) (fuel now : ℕ) (system : sd.System)
      (ticks : List (Tick sd.System)) (req : HttpRequest) (f : EntryFormatter) (p : Params)
      (r s : Reader sd.Journal) (out : Bytes)
      → new_entry_formatter (get (bytes "Accept") req.header) false ≡ f
      → req.context.stream ≡ false
      → read_params unicode_upper req ≡ some p
      → new_reader sd system (some f) (reader_options sd enc p) ≡ ok r
      → copy_entries sd enc fuel now r ≡ (s, out, none)
      → read_journal_handler sd enc unicode_upper fuel now system ticks req
        ≡ page
            (page_header sd enc (content_type_string (get_content_type f)) r)
            out
            (if is_empty out then some 204 else none)
  unfolding read_journal_handler resume_params copy_page
  read_journal_handler-copied unicode_upper fuel now system ticks req f p r s out accept once params
        made copied =
      ground arith

  -- A request for a part of the journal, not for a stream, is answered with the texts of the entries in
  -- front of the reader that its parameters make, in their order, no more than its limit if that is not
  -- 0, each whole and once; the code of an empty page is 204. The parameters are good ones and do not ask
  -- for the reverse order, and the reader can be made; the journal behaves as a log that does not grow
  -- meanwhile, the entries' formats succeed, the format is not an event stream, and 64 bits count the
  -- entries. Some fuel is enough, and more changes nothing.
  pub read_journal_handler-concat :
      (unicode_upper : Bytes → Bytes) (now : ℕ) (view : sd.Journal → List JournalEntry)
      (log : IsLog sd view) (system : sd.System) (ticks : List (Tick sd.System)) (req : HttpRequest)
      (f : EntryFormatter) (p : Params) (r : Reader sd.Journal) (es : List JournalEntry)
      (ts : List Bytes)
      → new_entry_formatter (get (bytes "Accept") req.header) false ≡ f
      → is_event_stream f ≡ false
      → req.context.stream ≡ false
      → read_params unicode_upper req ≡ some p
      → p.read_reverse ≡ false
      → new_reader sd system (some f) (reader_options sd enc p) ≡ ok r
      → IsDue sd enc now view log r es
      → length es < 2 ^ 64
      → Formats enc f es ts
      → let out = concat (within_limit (ltb 0 p.limit) p.limit ts) in
        (k : ℕ) × ((fuel : ℕ)
          → k ≤ fuel
          → read_journal_handler sd enc unicode_upper fuel now system ticks req
            ≡ page
                (page_header sd enc (content_type_string (get_content_type f)) r)
                out
                (if is_empty out then some 204 else none))
  read_journal_handler-concat unicode_upper now view log system ticks req f p r es ts accept
        no_pings once params onward made due bound texts =
      let same = new_reader-asked system f p r made in
      let format : r.content_formatter ≡ f = ap (λ (c : Settings sd). c.content_formatter) same in
      let (s, k, ends) =
        copy_entries-concat sd enc now view log es ts r
          (record {
            between = ap (λ (c : Settings sd). c.msg_reader) same;
            forward = ap (λ (c : Settings sd). c.read_reverse) same ∙ onward;
            no_pings = ap is_event_stream format ∙ no_pings;
          })
          due (omega (arith, ap (λ (c : Settings sd). c.n) same))
          (subst (λ g. Formats enc g es ts) (sym format) texts) in
      let out_same : concat (within_limit r.use_limit r.limit ts)
          ≡ concat (within_limit (ltb 0 p.limit) p.limit ts) =
        ap (λ (c : Settings sd). concat (within_limit c.use_limit c.limit ts)) same in
      (
        k,
        λ fuel enough.
            read_journal_handler-copied unicode_upper fuel now system ticks req f p r s _ accept
              once params made (ends fuel enough ∙ ap (λ t. (s, t, none)) out_same),
      )
