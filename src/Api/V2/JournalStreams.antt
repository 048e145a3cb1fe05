-- ===== src/Api/V2/JournalStreams.antt =====
-- The event stream that journalHandler of dcos-log/api/v2/handlers.go sends to a client that accepts
-- events.
use dcos_log.Base.{
  ℕ, ◌≤◌, ◌<◌, ◌^◌, ltb, ◌≡◌, refl, ap, true, false, List, [], ◌∷◌, ◌++◌, map, arith, Bytes, bytes,
  bytes_eq, length, none, some, ok, All,
}
use dcos_log.Journal.Types.{Sdjournal, Encoders, Reader, JournalEntry}
use dcos_log.Journal.Format.{get_content_type, content_type_string}
use dcos_log.Journal.Options.{Effect, new_reader}
use dcos_log.Journal.Reading.{skip_read}
use dcos_log.Journal.Stream.{IsGrowing, Prints}
use dcos_log.Api.Types.{HttpRequest, page, get}
use dcos_log.Api.JournalPage.{Tick, common_header, follow_ticks}
use dcos_log.Api.JournalStream.{Streamed, settings-IsStreaming, follow_ticks-Streamed}
use dcos_log.Api.V1.Params.{get_limit}
use dcos_log.Api.V2.Files.{event_stream}
use dcos_log.Api.V2.Component.{journal_options, journal_handler}
use dcos_log.Api.V2.JournalSettings.{journal_options-settings}
use dcos_log.Api.V2.JournalPages.{accepted}

module _ (sd : Sdjournal) (enc : Encoders) where
  journal_handler-follow_ticks :
      (unicode_upper : Bytes → Bytes) (fuel now : ℕ) (system : sd.System)
      (ticks : List (Tick sd.System)) (req : HttpRequest) (opts : List (Effect sd))
      (r : Reader sd.Journal) (out : Bytes)
      → bytes_eq (get (bytes "Accept") req.header) event_stream ≡ true
      → journal_options sd enc unicode_upper req ≡ some opts
      → new_reader sd system (some (accepted sd enc req)) (map (λ o. some o) opts) ≡ ok r
      → follow_ticks sd enc fuel ticks r ≡ out
      → journal_handler sd enc unicode_upper fuel now system ticks req
        ≡ page
            (((bytes "Content-Type", content_type_string (get_content_type (accepted sd enc req)))
                ∷ common_header)
              ++ (bytes "X-Accel-Buffering", bytes "no") ∷ [])
            out
            none
  unfolding journal_handler
  journal_handler-follow_ticks unicode_upper fuel now system ticks req opts r out events good made
        sent =
      ground arith

  -- A request for the journal of a component that accepts events and sets no limit is answered with an
  -- event stream of the entries behind the place where the reader of its parameters stands, which ends
  -- only with its ticks: the event of each entry once, in the order of the journal and with none left out
  -- between them, with pings between them. At each tick all entries that can be seen then are sent, a
  -- ping only if there are none and the last text is 15 seconds old, and after a tick without text the
  -- journal is waited for, so that the entries that it then shows come at the next tick.
  -- The parameters are good ones; the reader can be made, the entry of its place is not due itself; the
  -- journal grows and is not rotated, the entries' formats succeed, and 64 bits count the entries. Some
  -- fuel is enough for all ticks, and more changes nothing.
  pub journal_handler-Streamed :
      (unicode_upper : Bytes → Bytes) (now : ℕ) (view rest : sd.Journal → List JournalEntry)
      (growing : IsGrowing sd view rest) (system : sd.System) (ticks : List (Tick sd.System))
      (req : HttpRequest) (opts : List (Effect sd)) (r : Reader sd.Journal)
      → bytes_eq (get (bytes "Accept") req.header) event_stream ≡ true
      → get_limit req false ≡ some 0
      → journal_options sd enc unicode_upper req ≡ some opts
      → new_reader sd system (some (accepted sd enc req)) (map (λ o. some o) opts) ≡ ok r
      → skip_read sd enc r ≡ false
      → length (rest r.journal) < 2 ^ 64
      → All (Prints enc (accepted sd enc req)) (rest r.journal)
      → (s : Streamed sd enc view rest growing (accepted sd enc req) r ticks) × ((fuel : ℕ)
          → s.enough ≤ fuel
          → journal_handler sd enc unicode_upper fuel now system ticks req
            ≡ page
                (((
                  bytes "Content-Type",
                  content_type_string (get_content_type (accepted sd enc req)),
                )
                    ∷ common_header)
                  ++ (bytes "X-Accel-Buffering", bytes "no") ∷ [])
                s.out
                none)
  journal_handler-Streamed unicode_upper now view rest growing system ticks req opts r events
        unlimited good made started bound prints =
      let (limit, asked, same) =
        journal_options-settings sd enc unicode_upper system (accepted sd enc req) req opts r good
          made in
      let no_limit : limit ≡ 0 = cc in
      let s =
        follow_ticks-Streamed sd enc view rest growing (accepted sd enc req) r ticks
          (settings-IsStreaming sd enc view rest growing (accepted sd enc req) r _ same refl refl
            refl (ap (ltb 0) no_limit) refl started bound)
          prints in
      (
        s,
        λ fuel enough.
            journal_handler-follow_ticks unicode_upper fuel now system ticks req opts r s.out events
              good made (s.runs fuel enough),
      )
