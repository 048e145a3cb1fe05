-- ===== src/Api/V2/Resume.antt =====
-- A client of an event stream that comes back: Last-Event-ID in dcos-log/api/v2/handlers.go.
use dcos_log.Base.{
  ℕ, ◌+◌, ◌<◌, ◌^◌, ◌≡◌, ap, sym, ◌∙◌, ◌≢◌, List, [], ◌∷◌, arith, Bytes, bytes, length, pos, ℤ,
  ◌+ℤ◌, +ℤ_pos, itoa, atoi, atoi-itoa, some, ok, map,
}
use dcos_log.Mesos.Types.{Externals, Url, Formatter, Line, ReadManager, chunk_size}
use dcos_log.Mesos.Options.{ReadOption, opt_offset, opt_headers}
use dcos_log.Mesos.Setup.{new_line_reader}
use dcos_log.Mesos.Follow.{Serves}
use dcos_log.Mesos.Queue.{Ends, offset_bound}
use dcos_log.Mesos.Delivery.{IsReady}
use dcos_log.Mesos.Resume.{at_offset, new_line_reader-IsReady}
use dcos_log.Api.Types.{HttpRequest, get}
use dcos_log.Api.V2.Params.{last_event_id_header, build_opts}

last_event_id_offset :
    (s : Bytes) (z : ℤ) → atoi s ≡ some z → last_event_id_header s ≡ ok (some (opt_offset z))
unfolding last_event_id_header
last_event_id_offset [] z h = absurd (no_number h)
  where
    no_number : ¬ (atoi [] ≡ some z)
    no_number e = unfold atoi in (cc)
last_event_id_offset (c ∷ s) z h = ground arith

pub build_opts-last_event_id :
    (req : HttpRequest) (e : ℕ)
    → e < 2 ^ 63
    → get (bytes "Last-Event-Id") req.header ≡ itoa (pos e)
    → build_opts req ≡ ok (opt_offset (pos e) ∷ [])
unfolding build_opts
build_opts-last_event_id req e fits header = rw (
    ap last_event_id_header header ∙ last_event_id_offset (itoa (pos e)) (pos e) (atoi-itoa e fits))

-- A client that comes back with the id of the last line that it saw, which is the line's end as a
-- decimal number, is given a reader that delivers exactly the lines behind that one, whatever the other
-- parameters of its request say. The conditions are those on the new reader: named identifiers, a files
-- API that serves the file to it, and a size that fits an int.
pub resume_after_line :
    (client : Externals) (url : Url) (format : Formatter)
    (agent_id framework_id executor_id container_id task_path file_name : Bytes) (file : Bytes)
    (b : Line) (ls : List Bytes) (header : List (Bytes × Bytes)) (fuel : ℕ) (req : HttpRequest)
    → get (bytes "Last-Event-Id") req.header ≡ itoa (b.offset +ℤ pos b.size)
    → (agent_id ≢ []) × (framework_id ≢ []) × (executor_id ≢ []) × (container_id ≢ [])
    → length file + chunk_size < 2 ^ 63
    → Ends file b ls
    → ((e : ℕ)
        → Serves file (
            at_offset client url format agent_id framework_id executor_id container_id task_path
              file_name e header))
    → (opts : List ReadOption) × (rm : ReadManager) × (build_opts req ≡ ok opts)
      × (new_line_reader client url format agent_id framework_id executor_id container_id task_path
            file_name fuel
            (map (λ o. some o) (opt_headers header ∷ opts))
          ≡ ok rm)
      × IsReady file rm ls
resume_after_line client url format agent_id framework_id executor_id container_id task_path
      file_name file b ls header fuel req id named fits (s, at, positive, e) serves =
    let bound = offset_bound file (s + b.size) ls e in
    let moved : b.offset +ℤ pos b.size ≡ pos (s + b.size) =
      (λ i. at i +ℤ pos b.size) ∙ +ℤ_pos s b.size (omega arith) in
    let (rm, made, ready) =
      new_line_reader-IsReady client url format agent_id framework_id executor_id container_id
        task_path file_name file b ls header fuel named fits (s, at, positive, e) serves in
    (
      opt_offset (b.offset +ℤ pos b.size) ∷ [],
      rm,
      build_opts-last_event_id req (s + b.size) (omega arith) (id ∙ ap itoa moved)
          ∙ ap (λ z. ok (opt_offset z ∷ [])) (sym moved),
      made,
      ready,
    )
