-- ===== src/Api/V2/Pages.antt =====
-- The page that filesAPIHandler of dcos-log/api/v2/handlers.go sends for a part of a file.
use dcos_log.Base.{
  ℕ, suc, ◌+◌, ◌<◌, ◌^◌, ◌≡◌, refl, ap, ◌∙◌, inr, false, List, [], arith, Bytes, bytes, All, length,
  take, drop, pos, itoa, atoi-itoa, atoi, none, some, ok,
}
use dcos_log.Mesos.Types.{Externals, ReadManager, chunk_size}
use dcos_log.Mesos.Setup.{guard_offset}
use dcos_log.Mesos.Chunks.{body, text_of}
use dcos_log.Mesos.Follow.{Serves, IsLine}
use dcos_log.Mesos.CopyOut.{FitsBuffer}
use dcos_log.Mesos.Window.{fresh-Skips, IsBefore}
use dcos_log.Mesos.WindowCopy.{copy_lines-within}
use dcos_log.Api.Types.{Dcos, HttpRequest, page, get}
use dcos_log.Api.V2.Asking.{opt_cursor_lem, opt_offset-Makes, build_opts-Makes}
use dcos_log.Api.V2.Sessions.{
  Session, reader_on, placed, setup_files_api_reader-Makes, files_api_handler-page,
}
use dcos_log.Api.V2.Files.{accepts_events, files_api_handler}

-- The parameters of a request for the lines from a position on, without the first `k` of them and `n`
-- at most.
pub record AsksFor (req : HttpRequest) (e k n : ℕ) : Type 0 where
  pub no_event_id : get (bytes "Last-Event-Id") req.header ≡ []
  pub cursor : get (bytes "cursor") req.query ≡ itoa (pos e)
  pub skip : get (bytes "skip") req.query ≡ itoa (pos k)
  pub limit : get (bytes "limit") req.query ≡ itoa (pos n)
  pub cursor_fits : e < 2 ^ 63
  pub skip_fits : k < 2 ^ 63
  pub limit_fits : n < 2 ^ 63

module _ (dcos : Dcos) (req : HttpRequest) (s : Session req) where
  -- The reader of the request, with lines to pass over and a limit.
  abbrev window_reader : ℕ → ℕ → ℕ → ReadManager
  window_reader e k n = record (reader_on dcos req s e) { skip = pos k; read_limit = pos n }

  placed-window : (fuel e k n : ℕ) → placed fuel (window_reader e k n) ≡ ok (window_reader e k n)
  unfolding guard_offset
  placed-window fuel e k n = refl

  -- A request for the lines of a file from a position on, without the first `k` and at most `n` of them,
  -- is answered with exactly those lines, and without an error. The position is on the newline in front
  -- of the lines, `n` is not 0, the request has a session and does not ask for events, the files API
  -- serves the file to its reader, lines are not blank and fit the buffer, and the file's size fits an
  -- int. Any fuel beyond the number of lines is enough.
  pub files_api_handler-within :
      (file : Bytes) (ls : List Bytes) (fuel copy_fuel e k n : ℕ) (ticks : List Externals)
      → AsksFor req e k n
      → accepts_events req ≡ false
      → 0 < e
      → 0 < n
      → Serves file (reader_on dcos req s e)
      → drop e file ≡ text_of ls
      → length file + chunk_size < 2 ^ 63
      → All IsLine ls
      → All FitsBuffer ls
      → length ls < copy_fuel
      → files_api_handler dcos (suc fuel) copy_fuel ticks req
        ≡ some (page [] (body (take n (drop k ls))) none)
  files_api_handler-within file ls fuel copy_fuel e k n ticks asks plain positive some_lines serves
        at fits lines buffers enough =
      let before : IsBefore file (window_reader e k n) (some n) k ls = record {
        serves = serves;
        follows = record {
          off = e;
          at = refl;
          positive = positive;
          queue = [];
          buffered = refl;
          waiting = at;
        };
        skips = fresh-Skips (window_reader e k n) k refl refl asks.skip_fits;
        allows = (0, n, refl, refl, refl, omega arith, some_lines, asks.limit_fits);
      } in
      let (rm', copied) =
        copy_lines-within file ls (window_reader e k n) (some n) k copy_fuel fits lines buffers refl
          before enough in
      let (opts, built, made) =
        build_opts-Makes req _ k (some n) (reader_on dcos req s 0) (reader_on dcos req s e)
          asks.no_event_id (opt_cursor_lem _ e (ap atoi asks.cursor ∙ atoi-itoa e asks.cursor_fits))
          (opt_offset-Makes e (reader_on dcos req s 0)) refl refl (inr (asks.skip, asks.skip_fits))
          (asks.limit, some_lines, asks.limit_fits) in
      files_api_handler-page dcos req s fuel copy_fuel ticks opts (window_reader e k n) rm'
        (body (take n (drop k ls))) built plain
        (setup_files_api_reader-Makes dcos req s (suc fuel) opts (window_reader e k n)
          (window_reader e k n) plain made (placed-window (suc fuel) e k n))
        copied
