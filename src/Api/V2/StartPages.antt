-- ===== src/Api/V2/StartPages.antt =====
-- The page that filesAPIHandler of dcos-log/api/v2/handlers.go sends for a file from its start.
use dcos_log.Base.{
  ℕ, suc, ◌<◌, ◌≡◌, refl, inl, inr, false, List, [], arith, Bytes, bytes, All, length, drop, pos,
  Option, none, some, ok,
}
use dcos_log.Mesos.Types.{Externals, ReadManager, chunk_size}
use dcos_log.Mesos.Setup.{guard_offset}
use dcos_log.Mesos.Chunks.{body}
use dcos_log.Mesos.Follow.{Serves, IsLine, IsLine-filled}
use dcos_log.Mesos.CopyOut.{FitsBuffer}
use dcos_log.Mesos.Window.{within, Skips, Allows, fresh-Skips}
use dcos_log.Mesos.WindowCopy.{copy_lines-supplied}
use dcos_log.Mesos.Start.{start-Supplies}
use dcos_log.Api.Types.{Dcos, HttpRequest, page, get}
use dcos_log.Api.V2.Asking.{
  IsStart, Skipping, Limiting, limit_of, opt_cursor-start, build_opts-Makes,
}
use dcos_log.Api.V2.Sessions.{
  Session, reader_on, placed, setup_files_api_reader-Makes, files_api_handler-page,
}
use dcos_log.Api.V2.Files.{accepts_events, files_api_handler}

-- The parameters of a request for a file from its start: no cursor or `BEG`, and `skip` and `limit`, if
-- they are there.
pub record AsksFromStart (req : HttpRequest) (k : ℕ) (budget : Option ℕ) : Type 0 where
  pub no_event_id : get (bytes "Last-Event-Id") req.header ≡ []
  pub cursor : IsStart (get (bytes "cursor") req.query)
  pub skip : Skipping (get (bytes "skip") req.query) k
  pub limit : Limiting (get (bytes "limit") req.query) budget

module _ (dcos : Dcos) (req : HttpRequest) (s : Session req) where
  abbrev start_reader : ℕ → Option ℕ → ReadManager
  start_reader k budget = record (reader_on dcos req s 0) {
    skip = pos k;
    read_limit = limit_of budget;
  }

  placed-start :
      (fuel k : ℕ) (budget : Option ℕ)
      → placed fuel (start_reader k budget) ≡ ok (start_reader k budget)
  unfolding guard_offset
  placed-start fuel k budget = refl

  start-Skips :
      (k : ℕ) (budget : Option ℕ) (text : Bytes) → Skipping text k → Skips (start_reader k budget) k
  start-Skips k budget text (inl (none_there, zero_lines)) =
      fresh-Skips (start_reader k budget) k refl refl (omega arith)
  start-Skips k budget text (inr (there, fits)) =
      fresh-Skips (start_reader k budget) k refl refl fits

  start-Allows :
      (k : ℕ) (budget : Option ℕ) (text : Bytes)
      → Limiting text budget
      → Allows (start_reader k budget) budget
  start-Allows k none text h = refl
  start-Allows k (some n) text (there, positive, fits) =
      (0, n, refl, refl, refl, omega arith, positive, fits)

  -- A request for a file from its start, by no cursor or by `BEG`, is answered with exactly the lines of
  -- the file without those that `skip` passes over, and no more than `limit` says; where a parameter is
  -- missing, no line is passed over, and all are sent. The file consists of complete lines and is
  -- shorter than a chunk, lines are not blank and fit the buffer, the request has a session and does not
  -- ask for events, and the files API serves the file. Any fuel beyond the number of lines is enough.
  pub files_api_handler-start :
      (ls : List Bytes) (fuel copy_fuel k : ℕ) (budget : Option ℕ) (ticks : List Externals)
      → AsksFromStart req k budget
      → accepts_events req ≡ false
      → Serves (body ls) (reader_on dcos req s 0)
      → length (body ls) < chunk_size
      → All IsLine ls
      → All FitsBuffer ls
      → length ls < copy_fuel
      → files_api_handler dcos (suc fuel) copy_fuel ticks req
        ≡ some (page [] (body (within budget (drop k ls))) none)
  files_api_handler-start ls fuel copy_fuel k budget ticks asks plain serves small lines buffers
        enough =
      let reader = start_reader k budget in
      let (rm', copied) =
        copy_lines-supplied ls reader budget k copy_fuel (IsLine-filled ls lines) buffers refl
          (record {
            supplies = start-Supplies ls reader serves refl refl lines small;
            skips = start-Skips k budget _ asks.skip;
            allows = start-Allows k budget _ asks.limit;
          })
          enough in
      let (c, cursor, stays) = opt_cursor-start _ asks.cursor in
      let (opts, built, made) =
        build_opts-Makes req c k budget (reader_on dcos req s 0) (reader_on dcos req s 0)
          asks.no_event_id cursor (stays (reader_on dcos req s 0) refl) refl refl asks.skip
          asks.limit in
      files_api_handler-page dcos req s fuel copy_fuel ticks opts reader rm'
        (body (within budget (drop k ls))) built plain
        (setup_files_api_reader-Makes dcos req s (suc fuel) opts reader reader plain made
          (placed-start (suc fuel) k budget))
        copied
