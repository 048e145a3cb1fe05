-- ===== src/Api/V2/JournalPages.antt =====
-- The page that journalHandler of dcos-log/api/v2/handlers.go sends for a part of the journal.
use dcos_log.Base.{
  ℕ, ◌≤◌, ◌<◌, ◌^◌, ltb, if◌then◌else◌, ◌≡◌, ap, sym, ◌∙◌, subst, false, List, ◌∷◌, map, arith,
  Bytes, bytes, bytes_eq, length, is_empty, none, some, ok,
}
use dcos_log.Journal.Types.{Sdjournal, Encoders, Reader, EntryFormatter, JournalEntry}
use dcos_log.Journal.Format.{new_entry_formatter, get_content_type, content_type_string}
use dcos_log.Journal.Options.{Effect, new_reader}
use dcos_log.Journal.Reading.{is_event_stream, copy_entries}
use dcos_log.Journal.Delivery.{IsLog, Formats, concat, within_limit}
use dcos_log.Journal.Entries.{IsDue, copy_entries-concat}
use dcos_log.Journal.Settings.{Settings}
use dcos_log.Api.Types.{HttpRequest, page, get}
use dcos_log.Api.JournalPage.{Tick, common_header, copy_page}
use dcos_log.Api.V1.Params.{get_limit}
use dcos_log.Api.V2.Files.{event_stream}
use dcos_log.Api.V2.Component.{journal_options, journal_handler}
use dcos_log.Api.V2.JournalSettings.{journal_options-settings}

module _ (sd : Sdjournal) (enc : Encoders) where
  -- The formatter that the request accepts.
  abbrev pub accepted : HttpRequest → EntryFormatter
  accepted req =
      let accept = get (bytes "Accept") req.header in
      new_entry_formatter accept (bytes_eq accept event_stream)

  is_event_stream-accepted :
      (accept : Bytes)
      → bytes_eq accept event_stream ≡ false
      → is_event_stream (new_entry_formatter accept (bytes_eq accept event_stream)) ≡ false
  unfolding new_entry_formatter content_type_string
  is_event_stream-accepted accept h = ground arith

  journal_handler-copied :
      (unicode_upper : Bytes → Bytes) (fuel now : ℕ) (system : sd.System)
      (ticks : List (Tick sd.System)) (req : HttpRequest) (opts : List (Effect sd))
      (r s : Reader sd.Journal) (out : Bytes)
      → bytes_eq (get (bytes "Accept") req.header) event_stream ≡ false
      → journal_options sd enc unicode_upper req ≡ some opts
      → new_reader sd system (some (accepted req)) (map (λ o. some o) opts) ≡ ok r
      → copy_entries sd enc fuel now r ≡ (s, out, none)
      → journal_handler sd enc unicode_upper fuel now system ticks req
        ≡ page
            ((bytes "Content-Type", content_type_string (get_content_type (accepted req)))
              ∷ common_header)
            out
            (if is_empty out then some 204 else none)
  unfolding journal_handler copy_page
  journal_handler-copied unicode_upper fuel now system ticks req opts r s out plain good made
        copied =
      ground arith

  -- A request for a part of the journal of a component, not for events, is answered with the texts of the
  -- entries in front of the reader that its parameters make, in their order, each whole and once, and no
  -- more than its parameter `limit` says, where 0 and a missing one set no limit; the code of an empty
  -- page is 204. The parameters are good ones and the reader can be made; the journal behaves as a log
  -- that does not grow meanwhile, the entries' formats succeed, and 64 bits count the entries. Some fuel
  -- is enough, and more changes nothing.
  pub journal_handler-concat :
      (unicode_upper : Bytes → Bytes) (now : ℕ) (view : sd.Journal → List JournalEntry)
      (log : IsLog sd view) (system : sd.System) (ticks : List (Tick sd.System)) (req : HttpRequest)
      (opts : List (Effect sd)) (r : Reader sd.Journal) (es : List JournalEntry) (ts : List Bytes)
      → bytes_eq (get (bytes "Accept") req.header) event_stream ≡ false
      → journal_options sd enc unicode_upper req ≡ some opts
      → new_reader sd system (some (accepted req)) (map (λ o. some o) opts) ≡ ok r
      → IsDue sd enc now view log r es
      → length es < 2 ^ 64
      → Formats enc (accepted req) es ts
      → (limit k : ℕ) × (out : Bytes) × (get_limit req false ≡ some limit)
        × (out ≡ concat (within_limit (ltb 0 limit) limit ts))
        × ((fuel : ℕ)
            → k ≤ fuel
            → journal_handler sd enc unicode_upper fuel now system ticks req
              ≡ page
                  ((bytes "Content-Type", content_type_string (get_content_type (accepted req)))
                    ∷ common_header)
                  out
                  (if is_empty out then some 204 else none))
  journal_handler-concat unicode_upper now view log system ticks req opts r es ts plain good made
        due bound texts =
      let (limit, asked, same) =
        journal_options-settings sd enc unicode_upper system (accepted req) req opts r good made in
      let format : r.content_formatter ≡ accepted req =
        ap (λ (c : Settings sd). c.content_formatter) same in
      let (s, k, ends) =
        copy_entries-concat sd enc now view log es ts r
          (record {
            between = ap (λ (c : Settings sd). c.msg_reader) same;
            forward = ap (λ (c : Settings sd). c.read_reverse) same;
            no_pings = ap is_event_stream format ∙ is_event_stream-accepted _ plain;
          })
          due (omega (arith, ap (λ (c : Settings sd). c.n) same))
          (subst (λ g. Formats enc g es ts) (sym format) texts) in
      (
        limit,
        k,
        concat (within_limit r.use_limit r.limit ts),
        asked,
        ap (λ (c : Settings sd). concat (within_limit c.use_limit c.limit ts)) same,
        λ fuel enough.
            journal_handler-copied unicode_upper fuel now system ticks req opts r s _ plain good
              made (ends fuel enough),
      )
