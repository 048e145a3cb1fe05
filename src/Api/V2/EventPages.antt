-- ===== src/Api/V2/EventPages.antt =====
-- The event stream that filesAPIHandler of dcos-log/api/v2/handlers.go sends to a client that comes
-- back with a Last-Event-ID.
use dcos_log.Base.{
  ℕ, ◌<◌, ◌^◌, ◌≡◌, refl, true, List, [], ◌∷◌, map, arith, Bytes, bytes, drop, pos, itoa, none,
  some, ok,
}
use dcos_log.Mesos.Types.{Externals, ReadManager, sse_format}
use dcos_log.Mesos.Options.{ReadOption, opt_headers, opt_offset, opt_stream}
use dcos_log.Mesos.Setup.{new_line_reader}
use dcos_log.Mesos.Chunks.{text_of}
use dcos_log.Mesos.Follow.{Serves}
use dcos_log.Mesos.Delivery.{IsReady}
use dcos_log.Api.Types.{Dcos, HttpRequest, page, get}
use dcos_log.Api.Middleware.{authorization_header}
use dcos_log.Api.V2.Params.{build_opts}
use dcos_log.Api.V2.Files.{
  accepts_events, setup_files_api_reader, stream_ticks, stream_header, files_api_handler,
}
use dcos_log.Api.V2.Resume.{build_opts-last_event_id}
use dcos_log.Api.V2.Streaming.{Growth, Grows, Streams, stream_ticks-Streams}
use dcos_log.Api.V2.Sessions.{Session, endpoint, reader_on}

module _ (dcos : Dcos) (req : HttpRequest) (s : Session req) where
  -- The reader of events on the position `e` of the file that the request names.
  abbrev pub event_reader_on : ℕ → ReadManager
  event_reader_on e = record (reader_on dcos req s e) { format_fn = sse_format; stream = true }

  abbrev event_opts : ℕ → List ReadOption
  event_opts e = opt_offset (pos e) ∷ opt_stream true ∷ []

  new_line_reader-events :
      (fuel e : ℕ)
      → new_line_reader s.client
          (endpoint dcos req s)
          sse_format
          s.agent_id
          (get (bytes "frameworkID") req.vars)
          (get (bytes "executorID") req.vars)
          (get (bytes "containerID") req.vars)
          (get (bytes "taskPath") req.vars)
          (get (bytes "file") req.vars)
          fuel
          (map (λ o. some o) (opt_headers (authorization_header s.token) ∷ event_opts e))
        ≡ ok (event_reader_on e)
  unfolding new_line_reader opt_headers opt_offset opt_stream
  new_line_reader-events fuel e = let h = s.named in ground arith

  setup_files_api_reader-events :
      (fuel e : ℕ)
      → accepts_events req ≡ true
      → setup_files_api_reader dcos fuel req (bytes "/files/read") (event_opts e)
        ≡ ok (event_reader_on e)
  unfolding setup_files_api_reader
  setup_files_api_reader-events fuel e events = rw s.has_cfg (
      rw s.has_client (
        rw s.has_node_info (
          rw s.has_token (
            rw s.has_agent_id
              (rw s.has_ip (rw events (rw (new_line_reader-events fuel e) refl)))))))

  files_api_handler-events :
      (fuel copy_fuel e : ℕ) (ticks : List Externals)
      → build_opts req ≡ ok (opt_offset (pos e) ∷ [])
      → accepts_events req ≡ true
      → req.can_flush ≡ true
      → setup_files_api_reader dcos fuel req (bytes "/files/read") (event_opts e)
        ≡ ok (event_reader_on e)
      → files_api_handler dcos fuel copy_fuel ticks req
        ≡ some
            (page (stream_header dcos) (stream_ticks dcos copy_fuel ticks (event_reader_on e)) none)
  unfolding files_api_handler
  files_api_handler-events fuel copy_fuel e ticks built events flushes made = ground arith

  -- A client that comes back for the events behind the end of a file, by the id of its last line as
  -- Last-Event-ID, is answered with one event for each line by which the file grows from then on, tick
  -- by tick and in the order of the file. The request has a session and its connection can be flushed;
  -- the files API serves the file, and at every tick the grown file, whose lines are not blank, whose
  -- events fit the buffer, and whose size fits an int.
  pub files_api_handler-Streams :
      (file : Bytes) (fuel copy_fuel e : ℕ) (ticks : List Growth)
      → get (bytes "Last-Event-Id") req.header ≡ itoa (pos e)
      → e < 2 ^ 63
      → accepts_events req ≡ true
      → req.can_flush ≡ true
      → 0 < e
      → Serves file (event_reader_on e)
      → drop e file ≡ text_of []
      → Grows copy_fuel file (event_reader_on e) ticks
      → (out : Bytes) × (files_api_handler dcos fuel copy_fuel (map (λ t. t.0) ticks) req
          ≡ some (page (stream_header dcos) out none))
        × Streams file (event_reader_on e) ticks out
  files_api_handler-Streams file fuel copy_fuel e ticks id fits events flushes positive serves at
        grows =
      let ready : IsReady file (event_reader_on e) [] = record {
        serves = serves;
        unlimited = (refl, refl);
        follows = record {
          off = e;
          at = refl;
          positive = positive;
          queue = [];
          buffered = refl;
          waiting = at;
        };
      } in
      (
        stream_ticks dcos copy_fuel (map (λ t. t.0) ticks) (event_reader_on e),
        files_api_handler-events fuel copy_fuel e (map (λ t. t.0) ticks)
            (build_opts-last_event_id req e fits id) events flushes
            (setup_files_api_reader-events fuel e events),
        stream_ticks-Streams dcos copy_fuel file (event_reader_on e) ticks refl ready grows,
      )
