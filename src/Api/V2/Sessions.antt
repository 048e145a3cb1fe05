-- ===== src/Api/V2/Sessions.antt =====
-- From a request with all that it needs to the page that filesAPIHandler of
-- dcos-log/api/v2/handlers.go sends, by way of NewLineReader.
use dcos_log.Base.{
  ℕ, suc, ◌≡◌, ◌≢◌, refl, if◌then◌else◌, not, ◌&&◌, false, List, [], ◌∷◌, map, arith, Bytes, bytes,
  format_uint, is_zero, none, some, Result, ok,
}
use dcos_log.Mesos.Types.{Externals, Url, ReadManager, Error, line_format}
use dcos_log.Mesos.Options.{ReadOption, opt_headers}
use dcos_log.Mesos.Setup.{new_line_reader, apply_options, is_bottom_to_top, seek_back, guard_offset}
use dcos_log.Mesos.CopyOut.{copy_lines}
use dcos_log.Mesos.Resume.{at_offset}
use dcos_log.Api.Types.{Dcos, NodeInfo, Flags, HttpRequest, page, get, join_host_port}
use dcos_log.Api.Middleware.{authorization_header}
use dcos_log.Api.V2.Params.{build_opts}
use dcos_log.Api.V2.Asking.{Makes}
use dcos_log.Api.V2.Files.{
  accepts_events, setup_files_api_reader, copy_until_done, files_api_handler,
}

-- What a request for a file brings along: the middleware's values, a token, and the names of a task; and
-- what the node says of itself.
pub record Session (req : HttpRequest) : Type 0 where
  pub cfg : Flags
  pub client : Externals
  pub node_info : NodeInfo
  pub token : Bytes
  pub agent_id : Bytes
  pub ip : Bytes
  pub has_cfg : req.context.cfg ≡ some cfg
  pub has_client : req.context.client ≡ some client
  pub has_node_info : req.context.node_info ≡ some node_info
  pub has_token : req.context.token ≡ some token
  pub has_agent_id : node_info.mesos_id (authorization_header token) ≡ ok agent_id
  pub has_ip : node_info.detect_ip ≡ ok ip
  pub named :
      (agent_id ≢ [])
      × (get (bytes "frameworkID") req.vars ≢ [])
      × (get (bytes "executorID") req.vars ≢ [])
      × (get (bytes "containerID") req.vars ≢ [])

-- What NewLineReader does when the options are applied.
abbrev pub placed : ℕ → ReadManager → Result Error ReadManager
placed fuel rm =
    if is_bottom_to_top rm.read_direction && not (is_zero rm.skip)
    then seek_back fuel rm
    else ok (guard_offset rm)

module _ (dcos : Dcos) (req : HttpRequest) (s : Session req) where
  abbrev pub endpoint : Url
  endpoint = record {
    scheme = if s.cfg.auth then bytes "https" else bytes "http";
    host = join_host_port s.ip (format_uint dcos.port_mesos_agent);
    path = bytes "/files/read";
  }

  -- The reader of plain lines on the position `e` of the file that the request names.
  abbrev pub reader_on : ℕ → ReadManager
  reader_on e =
      at_offset s.client endpoint line_format s.agent_id (get (bytes "frameworkID") req.vars)
        (get (bytes "executorID") req.vars) (get (bytes "containerID") req.vars)
        (get (bytes "taskPath") req.vars) (get (bytes "file") req.vars) e
        (authorization_header s.token)

  new_line_reader-Makes :
      (fuel : ℕ) (opts : List ReadOption) (rm r : ReadManager)
      → Makes opts (reader_on 0) rm
      → placed fuel rm ≡ ok r
      → new_line_reader s.client endpoint line_format s.agent_id
          (get (bytes "frameworkID") req.vars)
          (get (bytes "executorID") req.vars)
          (get (bytes "containerID") req.vars)
          (get (bytes "taskPath") req.vars)
          (get (bytes "file") req.vars)
          fuel
          (map (λ o. some o) (opt_headers (authorization_header s.token) ∷ opts))
        ≡ ok r
  unfolding new_line_reader apply_options opt_headers
  new_line_reader-Makes fuel opts rm r made there = let h = s.named in ground arith

  -- The reader of a request for plain lines is the one that its options make, put in its place.
  pub setup_files_api_reader-Makes :
      (fuel : ℕ) (opts : List ReadOption) (rm r : ReadManager)
      → accepts_events req ≡ false
      → Makes opts (reader_on 0) rm
      → placed fuel rm ≡ ok r
      → setup_files_api_reader dcos fuel req (bytes "/files/read") opts ≡ ok r
  unfolding setup_files_api_reader
  setup_files_api_reader-Makes fuel opts rm r plain made there = rw s.has_cfg (
      rw s.has_client (
        rw s.has_node_info (
          rw s.has_token (
            rw s.has_agent_id (
              rw s.has_ip
                (rw plain (rw (new_line_reader-Makes fuel opts rm r made there) refl)))))))

  -- What the copy of that reader writes is the page.
  pub files_api_handler-page :
      (fuel copy_fuel : ℕ) (ticks : List Externals) (opts : List ReadOption) (r rm' : ReadManager)
      (out : Bytes)
      → build_opts req ≡ ok opts
      → accepts_events req ≡ false
      → setup_files_api_reader dcos (suc fuel) req (bytes "/files/read") opts ≡ ok r
      → copy_lines copy_fuel r ≡ (rm', out, none)
      → files_api_handler dcos (suc fuel) copy_fuel ticks req ≡ some (page [] out none)
  unfolding files_api_handler copy_until_done
  files_api_handler-page fuel copy_fuel ticks opts r rm' out built plain made copied = ground arith
