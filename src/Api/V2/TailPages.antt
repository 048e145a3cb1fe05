-- ===== src/Api/V2/TailPages.antt =====
-- The page that filesAPIHandler of dcos-log/api/v2/handlers.go sends for the last lines of a file.
use dcos_log.Base.{
  ℕ, suc, ◌+◌, ◌<◌, ◌^◌, ◌≡◌, drop, ◌-◌, refl, ap, ◌∙◌, false, List, [], ◌∷◌, ◌++◌, arith, Bytes,
  bytes, bytes_eq, All, length, pos, negsuc, itoa, atoi, atoi-itoa_negsuc, none, some, ok,
}
use dcos_log.Mesos.Types.{
  Externals, ReadManager, chunk_size, text, Request, HttpResponse, Response, bottom_to_top,
}
use dcos_log.Mesos.Text.{IsAscii}
use dcos_log.Mesos.Client.{file_path, file_len}
use dcos_log.Mesos.Options.{ReadOption, opt_read_from_end, opt_skip, opt_read_direction}
use dcos_log.Mesos.Setup.{apply_options}
use dcos_log.Mesos.Chunks.{body}
use dcos_log.Mesos.Follow.{Serves, IsLine}
use dcos_log.Mesos.CopyOut.{FitsBuffer}
use dcos_log.Mesos.WholeFile.{copy_lines-last}
use dcos_log.Api.Types.{Dcos, HttpRequest, page, get}
use dcos_log.Api.V2.Params.{opt_cursor, opt_skip_param, build_opts}
use dcos_log.Api.V2.Asking.{Makes, Makes-append, filled, opt_limit-Limiting, build_opts_lem}
use dcos_log.Api.V2.Sessions.{
  Session, reader_on, setup_files_api_reader-Makes, files_api_handler-page,
}
use dcos_log.Api.V2.Files.{accepts_events, files_api_handler}

-- The request by which a reader asks for the length of its file.
abbrev length_request : ReadManager → Request
length_request rm = record {
  url = rm.read_endpoint;
  query = (bytes "path", text (file_path rm)) ∷ (bytes "offset", text (bytes "-1")) ∷ [];
  header = rm.header;
}

-- The files API answers it with the length as the offset.
abbrev pub Measures : Bytes → ReadManager → Type 0
Measures file rm =
    (resp : HttpResponse) × (content : Response) × (rm.client.new_request rm.read_endpoint
        (length_request rm).query
      ≡ none)
    × (rm.client.send (length_request rm) ≡ ok resp)
    × (resp.status ≡ 200)
    × (rm.client.decode resp.body ≡ ok content)
    × (content.offset ≡ pos (length file))

file_len-Measures :
    (file : Bytes) (rm : ReadManager) → Measures file rm → file_len rm ≡ ok (pos (length file))
unfolding file_len
file_len-Measures file rm (resp, content, accepted, sent, status, decoded, size) = ground arith

opt_read_from_end-Makes :
    (file : Bytes) (rm : ReadManager)
    → Measures file rm
    → Makes (opt_read_from_end ∷ []) rm (record rm { offset = pos (length file) })
unfolding apply_options opt_read_from_end
opt_read_from_end-Makes file rm measures = rw (file_len-Measures file rm measures) refl

opt_cursor-end : opt_cursor (bytes "END") ≡ ok (opt_read_from_end ∷ [])
unfolding opt_cursor bytes_eq
opt_cursor-end = refl

-- A negative skip also turns the direction.
abbrev back_opts : ℕ → List ReadOption
back_opts k = opt_skip (negsuc k) ∷ opt_read_direction bottom_to_top ∷ []

opt_skip_param-back :
    (s : Bytes) (k : ℕ) → atoi s ≡ some (negsuc k) → opt_skip_param s ≡ ok (back_opts k)
unfolding opt_skip_param
opt_skip_param-back s k h = let some_text = filled s (negsuc k) h in ground arith

back_opts-Makes :
    (k : ℕ) (rm : ReadManager)
    → Makes (back_opts k) rm (record rm { skip = negsuc k; read_direction = bottom_to_top })
unfolding apply_options opt_skip opt_read_direction
back_opts-Makes k rm = refl

-- The parameters of a request for the last `k + 1` lines.
pub record AsksForLast (req : HttpRequest) (k : ℕ) : Type 0 where
  pub no_event_id : get (bytes "Last-Event-Id") req.header ≡ []
  pub cursor : get (bytes "cursor") req.query ≡ bytes "END"
  pub skip : get (bytes "skip") req.query ≡ itoa (negsuc k)
  pub limit : get (bytes "limit") req.query ≡ []
  pub skip_fits : k + 1 < 2 ^ 63

module _ (dcos : Dcos) (req : HttpRequest) (s : Session req) where
  -- The reader that the options make, before the search for the last lines.
  abbrev end_reader : Bytes → ℕ → ReadManager
  end_reader file k = record (reader_on dcos req s 0) {
    offset = pos (length file);
    skip = negsuc k;
    read_direction = bottom_to_top;
  }

  build_opts-last :
      (file : Bytes) (k : ℕ)
      → AsksForLast req k
      → Measures file (reader_on dcos req s 0)
      → (opts : List ReadOption) × (build_opts req ≡ ok opts)
        × Makes opts (reader_on dcos req s 0) (end_reader file k)
  unfolding apply_options
  build_opts-last file k asks measures =
      let begin = reader_on dcos req s 0 in
      let at_end = record begin { offset = pos (length file) } in
      let last = end_reader file k in
      let (l, limit, limits) = opt_limit-Limiting _ none asks.limit in
      let cursor = ap opt_cursor asks.cursor ∙ opt_cursor-end in
      let skip =
        opt_skip_param-back _ k
          (ap atoi asks.skip ∙ atoi-itoa_negsuc k (omega (arith, asks.skip_fits))) in
      (
        (opt_read_from_end ∷ []) ++ (back_opts k ++ (l ++ [])),
        build_opts_lem req (opt_read_from_end ∷ []) (back_opts k) l asks.no_event_id cursor skip
            limit,
        Makes-append (opt_read_from_end ∷ []) (back_opts k ++ (l ++ [])) begin at_end last
            (opt_read_from_end-Makes file begin measures)
            (Makes-append (back_opts k) (l ++ []) at_end last last (back_opts-Makes k at_end)
              (Makes-append l [] last last last (limits last refl) refl)),
      )

  -- A request for the last `k + 1` lines of a file, by the cursor `END` and a negative `skip`, is
  -- answered with exactly those lines, or with all lines where the file has no more. The file is ASCII,
  -- consists of complete lines, none or more, and is shorter than a chunk; lines are not blank and fit
  -- the buffer, the request has a session, no limit, and does not ask for events, and the files API
  -- serves the file and tells its length. The skip is not the least int. Any fuel beyond the number of
  -- lines is enough.
  pub files_api_handler-last :
      (ls : List Bytes) (fuel copy_fuel k : ℕ) (ticks : List Externals)
      → AsksForLast req k
      → accepts_events req ≡ false
      → Serves (body ls) (reader_on dcos req s 0)
      → Measures (body ls) (reader_on dcos req s 0)
      → All IsLine ls
      → IsAscii (body ls)
      → length (body ls) < chunk_size
      → All FitsBuffer ls
      → length ls < copy_fuel
      → files_api_handler dcos (suc fuel) copy_fuel ticks req
        ≡ some (page [] (body (drop (length ls - (k + 1)) ls)) none)
  files_api_handler-last ls fuel copy_fuel k ticks asks plain serves measures lines ascii small
        buffers enough =
      let (opts, built, made) = build_opts-last (body ls) k asks measures in
      let (found, last, sought, copied) =
        copy_lines-last ls k fuel copy_fuel (end_reader (body ls) k) serves (refl, ground arith)
          refl refl asks.skip_fits refl lines ascii small buffers refl enough in
      files_api_handler-page dcos req s fuel copy_fuel ticks opts found last _ built plain
        (setup_files_api_reader-Makes dcos req s (suc fuel) opts (end_reader (body ls) k) found
          plain made sought)
        copied
