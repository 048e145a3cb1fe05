-- ===== src/Tests/Windows.antt =====
-- Skips, limits and event streams at a small file.
use dcos_log.Base.{
  ◌≡◌, refl, ap, true, List, [], ◌∷◌, map, drop, arith, Bytes, bytes, length, pos, none, some, inl,
  inr, ok,
}
use dcos_log.Mesos.Types.{Externals, ReadManager, sse_format}
use dcos_log.Mesos.Chunks.{body}
use dcos_log.Mesos.Delivery.{IsReady, Kept}
use dcos_log.Mesos.CopyOut.{copy_lines}
use dcos_log.Mesos.Window.{within, IsBefore}
use dcos_log.Mesos.WindowCopy.{copy_lines-within}
use dcos_log.Mesos.Events.{Events, EventFits, copy_lines-Events}
use dcos_log.Api.V2.Files.{stream_ticks}
use dcos_log.Api.V2.Streaming.{Growth, Streams, stream_ticks-Streams}
use dcos_log.Tests.Requests.{agent}
use dcos_log.Tests.Files.{server, later_lines, sample, reader_at, are_lines, ready}

-- A reader that passes over one line and delivers one.
abbrev second_line : ReadManager
second_line = record (reader_at sample 1) { skip = pos 1; read_limit = pos 1 }

before : IsBefore sample second_line (some 1) 1 later_lines
before = record {
  serves = ready.serves;
  follows = record {
    off = 1;
    at = refl;
    positive = omega arith;
    queue = [];
    buffered = refl;
    waiting = refl;
  };
  skips = (0, 1, refl, refl, refl, omega arith);
  allows = (0, 1, refl, refl, refl, refl, omega arith, omega arith);
}

copy_lines-within_example :
    (rm' : ReadManager) × (copy_lines 3 second_line
      ≡ (rm', body (within (some 1) (drop 1 later_lines)), none))
copy_lines-within_example =
    copy_lines-within sample later_lines second_line (some 1) 1 3 (omega arith) are_lines
      (omega arith) refl before (omega arith)

-- A reader of events; the JSON of every line is `{}`.
abbrev pub json_server : Bytes → Externals
json_server file = record (server file) { marshal_fields = λ fields. ok (bytes "{}") }

abbrev event_reader : Bytes → ReadManager
event_reader file = record (reader_at file 1) {
  client = json_server file;
  format_fn = sse_format;
  stream = true;
}

pub small_json : (file l : Bytes) → EventFits (event_reader file) l
small_json file l payload (inl e) =
    let same : payload ≡ bytes "{}" = cc in omega (arith, ap length same)
small_json file l payload (inr (x, e, same)) = absurd (cc)

event-IsReady : IsReady sample (event_reader sample) later_lines
event-IsReady = record {
  serves = ready.serves;
  unlimited = (refl, refl);
  follows = record {
    off = 1;
    at = refl;
    positive = omega arith;
    queue = [];
    buffered = refl;
    waiting = refl;
  };
}

copy_lines-Events_example :
    (rm' : ReadManager) × (out : Bytes) × (copy_lines 3 (event_reader sample) ≡ (rm', out, none))
    × Events sample (event_reader sample) later_lines out
    × IsReady sample rm' []
    × Kept (event_reader sample) rm'
copy_lines-Events_example =
    copy_lines-Events sample later_lines (event_reader sample) 3 (omega arith) are_lines
      (small_json sample (bytes "ab"), (small_json sample (bytes "cde"), tt)) refl event-IsReady
      (omega arith)

-- The file grows by its two last lines in one tick.
abbrev pub growth : List Growth
growth = (json_server sample, later_lines) ∷ []

pub start : IsReady (bytes "x\n") (event_reader (bytes "x\n")) []
start = record {
  serves = λ o n. (record { status = 200; header = []; body = o ∷ n ∷ [] }, refl, refl, refl, refl);
  unlimited = (refl, refl);
  follows = record {
    off = 1;
    at = refl;
    positive = omega arith;
    queue = [];
    buffered = refl;
    waiting = refl;
  };
}

stream_ticks-Streams_example :
    Streams
      (bytes "x\n")
      (event_reader (bytes "x\n"))
      growth
      (stream_ticks agent 3 (map (λ t. t.0) growth) (event_reader (bytes "x\n")))
stream_ticks-Streams_example =
    stream_ticks-Streams agent 3 (bytes "x\n") (event_reader (bytes "x\n")) growth refl start (
      ready.serves,
      omega arith,
      are_lines,
      (small_json sample (bytes "ab"), (small_json sample (bytes "cde"), tt)),
      omega arith,
      tt,
    )
