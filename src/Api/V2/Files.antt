-- ===== src/Api/V2/Files.antt =====
-- The handlers of the files API: setupFilesAPIReader, filesAPIHandler, browseFiles and downloadFile of
-- dcos-log/api/v2/handlers.go.
use dcos_log.Base.{
  ℕ, zero, suc, if◌then◌else◌, not, Bool, true, List, [], ◌∷◌, ◌++◌, map, Bytes, bytes, bytes_eq,
  format_uint, Option, none, some, Result, ok, err, ◌>>=◌,
}
use dcos_log.Mesos.Types.{
  Externals, Header, SandboxFile, ReadManager, Error, no_data, file_not_found, out_of_fuel,
  line_format, sse_format,
}
use dcos_log.Mesos.Client.{browse_sandbox, download}
use dcos_log.Mesos.Options.{ReadOption, opt_headers, opt_stream}
use dcos_log.Mesos.Setup.{new_line_reader}
use dcos_log.Mesos.CopyOut.{copy_lines}
use dcos_log.Api.Types.{Dcos, HttpRequest, Reply, error_reply, page, get, join_host_port}
use dcos_log.Api.Middleware.{Handler, authorization_header}
use dcos_log.Api.V2.Params.{build_opts}

-- errSetupFilesAPIReader by its code, or an error of NewLineReader.
pub data SetupError : Type 0 where
  setup_code : ℕ → SetupError
  reader_error : Error → SetupError

abbrev pub event_stream : Bytes
event_stream = bytes "text/event-stream"

abbrev pub accepts_events : HttpRequest → Bool
accepts_events req = bytes_eq (get (bytes "Accept") req.header) event_stream

abbrev or_code {ℓ} : {A : Type ℓ} → ℕ → Option A → Result SetupError A
or_code code none = err (setup_code code)
or_code code (some a) = ok a

abbrev or_internal {ℓ} : {A : Type ℓ} → Result Bytes A → Result SetupError A
or_internal (ok a) = ok a
or_internal (err e) = err (setup_code 500)

abbrev or_reader_error : Result Error ReadManager → Result SetupError ReadManager
or_reader_error (ok a) = ok a
or_reader_error (err e) = err (reader_error e)

module _ (dcos : Dcos) where
  -- The header with the token is the first option, so that the other options' requests carry it.
  unfoldable pub setup_files_api_reader :
      ℕ → HttpRequest → Bytes → List ReadOption → Result SetupError ReadManager
  unfolding get bytes_eq join_host_port authorization_header
  setup_files_api_reader fuel req url_path opts = do
    cfg ← or_code 500 req.context.cfg
    client ← or_code 500 req.context.client
    node_info ← or_code 500 req.context.node_info
    token ← or_code 401 req.context.token
    let header = authorization_header token
    mesos_id ← or_internal (node_info.mesos_id header)
    ip ← or_internal node_info.detect_ip
    or_reader_error (
        new_line_reader client
          (record {
            scheme = if cfg.auth then bytes "https" else bytes "http";
            host = join_host_port ip (format_uint dcos.port_mesos_agent);
            path = url_path;
          })
          (if accepts_events req then sse_format else line_format) mesos_id
          (get (bytes "frameworkID") req.vars) (get (bytes "executorID") req.vars)
          (get (bytes "containerID") req.vars) (get (bytes "taskPath") req.vars)
          (get (bytes "file") req.vars) fuel (map (λ o. some o) (opt_headers header ∷ opts)))

  -- The code of an error of the set-up in browseFiles and downloadFile.
  abbrev pub setup_status : SetupError → ℕ
  setup_status (setup_code code) = code
  setup_status (reader_error e) = 500

  -- In filesAPIHandler a missing file has a code of its own.
  abbrev pub files_setup_status : SetupError → ℕ
  files_setup_status (setup_code code) = code
  files_setup_status (reader_error file_not_found) = 204
  files_setup_status (reader_error _) = 500

  -- The loop of io.Copy: what was written, and the code of an error that ends it. `none` says that the
  -- fuel ran out.
  unfoldable pub copy_until_done : ℕ → ℕ → ReadManager → Option (Bytes × Option ℕ)
  copy_until_done zero copy_fuel rm = none
  copy_until_done (suc fuel) copy_fuel rm =
      let (rm', out, failed) = copy_lines copy_fuel rm in
      elim failed [
        | none ↦ some (out, none)
        | some no_data ↦ elim (copy_until_done fuel copy_fuel rm') [
          | none ↦ none
          | some (rest, code) ↦ some (out ++ rest, code)
        ]
        | some file_not_found ↦ some (out, some 404)
        | some out_of_fuel ↦ none
        | some _ ↦ some (out, some 500)
      ]

  -- The loop of an event stream over the ticks until the client goes away: the client's view of the
  -- files API at each tick. Errors are only logged.
  unfoldable pub stream_ticks : ℕ → List Externals → ReadManager → Bytes
  stream_ticks copy_fuel [] rm = []
  stream_ticks copy_fuel (tick ∷ ticks) rm =
      let (rm', out, failed) = copy_lines copy_fuel (record rm { client = tick }) in
      out ++ stream_ticks copy_fuel ticks rm'

  abbrev pub stream_header : Header
  stream_header =
      (bytes "Content-Type", event_stream)
      ∷ (bytes "Cache-Control", bytes "no-cache")
      ∷ (bytes "Connection", bytes "keep-alive")
      ∷ (bytes "Access-Control-Allow-Origin", bytes "*")
      ∷ (bytes "Transfer-Encoding", bytes "chunked")
      ∷ (bytes "X-Accel-Buffering", bytes "no")
      ∷ []

  -- The reply, or `none` if the fuel ran out.
  unfoldable pub files_api_handler : ℕ → ℕ → List Externals → HttpRequest → Option Reply
  unfolding setup_files_api_reader copy_until_done stream_ticks build_opts
  files_api_handler fuel copy_fuel ticks req = elim (build_opts req) [
    | err e ↦ some (error_reply 400)
    | ok opts ↦
        let opts' = if accepts_events req then opts ++ opt_stream true ∷ [] else opts in
        elim (setup_files_api_reader fuel req (bytes "/files/read") opts') [
          | err e ↦ some (error_reply (files_setup_status e))
          | ok r ↦
              if not (accepts_events req)
              then (elim (copy_until_done fuel copy_fuel r) [
                | none ↦ none
                | some (out, code) ↦ some (page [] out code)
              ])
              else if req.can_flush
              then some (page stream_header (stream_ticks copy_fuel ticks r) none)
              else some (error_reply 500)
        ]
  ]

  -- `encode` is json.NewEncoder(w).Encode of the list of files.
  unfoldable pub browse_files : (List SandboxFile → Result Bytes Bytes) → Handler
  browse_files encode req = elim req.context.token [
    | none ↦ error_reply 401
    | some token ↦
        elim (setup_files_api_reader 1 req (bytes "/files/browse")
          (opt_headers (authorization_header token) ∷ [])) [
            | err e ↦ error_reply (setup_status e)
            | ok r ↦ elim (browse_sandbox r) [
              | err e ↦ error_reply 500
              | ok files ↦ elim (encode files) [
                | err e ↦ error_reply 500
                | ok out ↦ page [] out none
              ]
            ]
          ]
  ]

  -- The header and the body of the answer are passed on.
  unfoldable pub download_file : Handler
  download_file req = elim req.context.token [
    | none ↦ error_reply 401
    | some token ↦
        elim (setup_files_api_reader 1 req (bytes "/files/download")
          (opt_headers (authorization_header token) ∷ [])) [
            | err e ↦ error_reply (setup_status e)
            | ok r ↦ elim (download r) [
              | err e ↦ error_reply 500
              | ok resp ↦ page resp.header resp.body none
            ]
          ]
  ]
