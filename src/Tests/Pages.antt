-- ===== src/Tests/Pages.antt =====
-- The pages of the files API at a small file.
use dcos_log.Base.{
  ◌≡◌, ◌≢◌, bytes_eq, refl, ap, true, false, List, [], ◌∷◌, map, take, drop, arith, Bytes, bytes,
  length, none, some, inl, inr, All, itoa, pos,
}
use dcos_log.Mesos.Types.{Externals}
use dcos_log.Mesos.Chunks.{body}
use dcos_log.Mesos.Events.{EventFits}
use dcos_log.Api.Types.{HttpRequest, page, get}
use dcos_log.Api.V2.Files.{files_api_handler, stream_header, accepts_events}
use dcos_log.Api.V2.Streaming.{Streams}
use dcos_log.Api.V2.Sessions.{Session}
use dcos_log.Api.V2.Pages.{AsksFor, files_api_handler-within}
use dcos_log.Api.V2.StartPages.{AsksFromStart, files_api_handler-start}
use dcos_log.Api.V2.TailPages.{AsksForLast, files_api_handler-last}
use dcos_log.Mesos.Window.{within}
use dcos_log.Mesos.Follow.{IsLine}
use dcos_log.Api.V2.EventPages.{event_reader_on, files_api_handler-Streams}
use dcos_log.Tests.Requests.{agent, node}
use dcos_log.Tests.Files.{server, later_lines, sample, are_lines, ready}
use dcos_log.Tests.Windows.{json_server, growth, start}

-- A request for the file of a task, at an agent that serves `sample`.
abbrev file_request : Externals → List (Bytes × Bytes) → List (Bytes × Bytes) → HttpRequest
file_request files header query = record {
  header = header;
  query = query;
  raw_query = [];
  vars =
      (bytes "frameworkID", bytes "F1")
      ∷ (bytes "executorID", bytes "E1")
      ∷ (bytes "containerID", bytes "C1")
      ∷ (bytes "file", bytes "stdout")
      ∷ [];
  form = none;
  context = record {
    cfg = some (record { auth = true; role = bytes "agent" });
    client = some files;
    node_info = some node;
    token = some (bytes "token=abc");
    stream = false;
  };
  can_flush = true;
}

names :
    (files : Externals) (header query : List (Bytes × Bytes))
    → let req = file_request files header query in
      (bytes "S1" ≢ [])
      × (get (bytes "frameworkID") req.vars ≢ [])
      × (get (bytes "executorID") req.vars ≢ [])
      × (get (bytes "containerID") req.vars ≢ [])
unfolding get
names files header query = (cc, cc, cc, cc)

abbrev session :
    (files : Externals) (header query : List (Bytes × Bytes))
    → Session (file_request files header query)
session files header query = record {
  cfg = record { auth = true; role = bytes "agent" };
  client = files;
  node_info = node;
  token = bytes "token=abc";
  agent_id = bytes "S1";
  ip = bytes "10.0.0.1";
  has_cfg = refl;
  has_client = refl;
  has_node_info = refl;
  has_token = refl;
  has_agent_id = refl;
  has_ip = refl;
  named = names files header query;
}

-- From the newline at position 1 on, one line is passed over and one is asked for.
abbrev second : HttpRequest
second =
    file_request (server sample) []
      ((bytes "cursor", bytes "1") ∷ (bytes "skip", bytes "1") ∷ (bytes "limit", bytes "1") ∷ [])

second-AsksFor : AsksFor second 1 1 1
unfolding get itoa
second-AsksFor = record {
  no_event_id = refl;
  cursor = refl;
  skip = refl;
  limit = refl;
  cursor_fits = omega arith;
  skip_fits = omega arith;
  limit_fits = omega arith;
}

files_api_handler-within_example :
    files_api_handler agent 1 3 [] second ≡ some (page [] (body (take 1 (drop 1 later_lines))) none)
unfolding get bytes_eq
files_api_handler-within_example =
    files_api_handler-within agent second (session _ _ _) sample later_lines 0 3 1 1 1 []
      second-AsksFor refl (omega arith) (omega arith) ready.serves refl (omega arith) are_lines
      (omega arith) (omega arith)

abbrev all_lines : List Bytes
all_lines = bytes "x" ∷ later_lines

pub are_all_lines : All IsLine all_lines
are_all_lines = ((cc, omega arith, omega arith), are_lines)

-- One line is asked for from the start.
abbrev first : HttpRequest
first =
    file_request (server sample) []
      ((bytes "cursor", bytes "BEG") ∷ (bytes "limit", bytes "1") ∷ [])

first-AsksFromStart : AsksFromStart first 0 (some 1)
unfolding get itoa
first-AsksFromStart = record {
  no_event_id = refl;
  cursor = inr refl;
  skip = inl (refl, refl);
  limit = (refl, omega arith, omega arith);
}

files_api_handler-start_example :
    files_api_handler agent 1 4 [] first
    ≡ some (page [] (body (within (some 1) (drop 0 all_lines))) none)
unfolding get bytes_eq
files_api_handler-start_example =
    files_api_handler-start agent first (session _ _ _) all_lines 0 4 0 (some 1) []
      first-AsksFromStart refl ready.serves (omega arith) are_all_lines (omega arith) (omega arith)

-- The last two lines are asked for.
abbrev last_two : HttpRequest
last_two =
    file_request (server sample) []
      ((bytes "cursor", bytes "END") ∷ (bytes "skip", bytes "-2") ∷ [])

last_two-AsksForLast : AsksForLast last_two 1
unfolding get itoa
last_two-AsksForLast = record {
  no_event_id = refl;
  cursor = refl;
  skip = refl;
  limit = refl;
  skip_fits = omega arith;
}

files_api_handler-last_example :
    files_api_handler agent 1 4 [] last_two ≡ some (page [] (body later_lines) none)
unfolding get bytes_eq
files_api_handler-last_example =
    files_api_handler-last agent last_two (session _ _ _) all_lines 0 4 1 [] last_two-AsksForLast
      refl ready.serves
      (
        record { status = 200; header = []; body = [] },
        record { content = []; offset = pos 9 },
        refl,
        refl,
        refl,
        refl,
        refl,
      )
      are_all_lines (omega arith) (omega arith) (omega arith) (omega arith)

-- A client comes back that saw the line `x`; its file then grows by two lines.
abbrev returning : HttpRequest
returning =
    file_request (json_server (bytes "x\n"))
      ((bytes "Last-Event-Id", bytes "1") ∷ (bytes "Accept", bytes "text/event-stream") ∷ []) []

abbrev returning_session : Session returning
returning_session = session _ _ _

fits :
    (file l : Bytes)
    → EventFits
        (record (event_reader_on agent returning returning_session 1) { client = json_server file })
        l
fits file l payload (inl e) = let same : payload ≡ bytes "{}" = cc in omega (arith, ap length same)
fits file l payload (inr (x, e, same)) = absurd (cc)

returning_id : get (bytes "Last-Event-Id") returning.header ≡ itoa (pos 1)
unfolding get itoa
returning_id = refl

returning_accepts : accepts_events returning ≡ true
unfolding get bytes_eq
returning_accepts = refl

files_api_handler-Streams_example :
    (out : Bytes) × (files_api_handler agent 1 3 (map (λ t. t.0) growth) returning
      ≡ some (page (stream_header agent) out none))
    × Streams (bytes "x\n") (event_reader_on agent returning returning_session 1) growth out
files_api_handler-Streams_example =
    files_api_handler-Streams agent returning returning_session (bytes "x\n") 1 3 1 growth
      returning_id (omega arith) returning_accepts refl (omega arith) start.serves refl
      (
        ready.serves,
        omega arith,
        are_lines,
        (fits sample (bytes "ab"), (fits sample (bytes "cde"), tt)),
        omega arith,
        tt,
      )
