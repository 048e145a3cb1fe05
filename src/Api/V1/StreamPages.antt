-- ===== src/Api/V1/StreamPages.antt =====
-- The event stream that readJournalHandler of dcos-log/api/v1/handlers.go sends for a stream request.
use dcos_log.Base.{
  ℕ, ◌≤◌, ◌<◌, ◌^◌, ltb, ◌≡◌, refl, ap, ◌∙◌, true, false, List, [], ◌∷◌, ◌++◌, arith, Bytes, bytes,
  length, none, some, ok, All,
}
use dcos_log.Journal.Types.{Sdjournal, Encoders, Reader, EntryFormatter, JournalEntry}
use dcos_log.Journal.Format.{new_entry_formatter, get_content_type, content_type_string}
use dcos_log.Journal.Options.{new_reader}
use dcos_log.Journal.Reading.{skip_read}
use dcos_log.Journal.Stream.{IsGrowing, Prints}
use dcos_log.Api.Types.{HttpRequest, page, get}
use dcos_log.Api.JournalPage.{Tick, follow_ticks}
use dcos_log.Api.JournalStream.{Streamed, settings-IsStreaming, follow_ticks-Streamed}
use dcos_log.Api.V1.Params.{get_limit, get_skip, get_read_reverse}
use dcos_log.Api.V1.Journal.{
  Params, read_params, resume_params, reader_options, page_header, read_journal_handler,
}
use dcos_log.Api.V1.Pages.{new_reader-asked}

pub read_params-stream :
    (unicode_upper : Bytes → Bytes) (req : HttpRequest) (p : Params)
    → req.context.stream ≡ true
    → read_params unicode_upper req ≡ some p
    → (p.limit ≡ 0) × (p.read_reverse ≡ false)
unfolding read_params get_limit get_read_reverse get_skip
read_params-stream unicode_upper req p stream good = (ground arith, ground arith)

resume_params_lem :
    (req : HttpRequest) (p : Params)
    → ((resume_params req p).limit ≡ p.limit)
      × ((resume_params req p).read_reverse ≡ p.read_reverse)
unfolding resume_params
resume_params_lem req p = (ground arith, ground arith)

module _ (sd : Sdjournal) (enc : Encoders) where
  read_journal_handler-follow_ticks :
      (unicode_upper : Bytes → Bytes) (fuel now : ℕ) (system : sd.System)
      (ticks : List (Tick sd.System)) (req : HttpRequest) (f : EntryFormatter) (p : Params)
      (r : Reader sd.Journal) (out : Bytes)
      → new_entry_formatter (get (bytes "Accept") req.header) true ≡ f
      → req.context.stream ≡ true
      → read_params unicode_upper req ≡ some p
      → new_reader sd system (some f) (reader_options sd enc (resume_params req p)) ≡ ok r
      → follow_ticks sd enc fuel ticks r ≡ out
      → read_journal_handler sd enc unicode_upper fuel now system ticks req
        ≡ page
            (page_header sd enc (content_type_string (get_content_type f)) r
              ++ (bytes "X-Accel-Buffering", bytes "no") ∷ [])
            out
            none
  unfolding read_journal_handler
  read_journal_handler-follow_ticks unicode_upper fuel now system ticks req f p r out accept stream
        params made sent =
      ground arith

  -- A request for a stream of the journal is answered with an event stream of the entries behind the
  -- place where the reader of its parameters stands, which ends only with its ticks: the text of each
  -- entry once, in the order of the journal and with none left out between them, with pings between them
  -- where the format is an event stream. At each tick all entries that can be seen then are sent, a ping
  -- only if there are none and the last text is 15 seconds old, and after a tick without text the journal
  -- is waited for, so that the entries that it then shows come at the next tick.
  -- The parameters are good ones; the reader can be made, the entry of its place is not due itself; the
  -- journal grows and is not rotated, the entries' formats succeed, and 64 bits count the entries. Some
  -- fuel is enough for all ticks, and more changes nothing.
  pub read_journal_handler-Streamed :
      (unicode_upper : Bytes → Bytes) (now : ℕ) (view rest : sd.Journal → List JournalEntry)
      (growing : IsGrowing sd view rest) (system : sd.System) (ticks : List (Tick sd.System))
      (req : HttpRequest) (f : EntryFormatter) (p : Params) (r : Reader sd.Journal)
      → new_entry_formatter (get (bytes "Accept") req.header) true ≡ f
      → req.context.stream ≡ true
      → read_params unicode_upper req ≡ some p
      → new_reader sd system (some f) (reader_options sd enc (resume_params req p)) ≡ ok r
      → skip_read sd enc r ≡ false
      → length (rest r.journal) < 2 ^ 64
      → All (Prints enc f) (rest r.journal)
      → (s : Streamed sd enc view rest growing f r ticks) × ((fuel : ℕ)
          → s.enough ≤ fuel
          → read_journal_handler sd enc unicode_upper fuel now system ticks req
            ≡ page
                (page_header sd enc (content_type_string (get_content_type f)) r
                  ++ (bytes "X-Accel-Buffering", bytes "no") ∷ [])
                s.out
                none)
  read_journal_handler-Streamed unicode_upper now view rest growing system ticks req f p r accept
        stream params made started bound prints =
      let q = resume_params req p in
      let (no_limit, onward) = read_params-stream unicode_upper req p stream params in
      let (same_limit, same_order) = resume_params_lem req p in
      let s =
        follow_ticks-Streamed sd enc view rest growing f r ticks
          (settings-IsStreaming sd enc view rest growing f r _
            (new_reader-asked sd enc system f q r made) refl refl (same_order ∙ onward)
            (ap (ltb 0) (same_limit ∙ no_limit)) refl started bound)
          prints in
      (
        s,
        λ fuel enough.
            read_journal_handler-follow_ticks unicode_upper fuel now system ticks req f p r s.out
              accept stream params made (s.runs fuel enough),
      )
