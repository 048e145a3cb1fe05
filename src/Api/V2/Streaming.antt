-- ===== src/Api/V2/Streaming.antt =====
-- The event stream of filesAPIHandler in dcos-log/api/v2/handlers.go, while the file grows.
use dcos_log.Base.{
  ℕ, ◌+◌, ◌<◌, ◌^◌, ◌≡◌, refl, ap, sym, ◌∙◌, subst, List, [], ◌∷◌, ◌++◌, map, Bytes, All, length,
  Option,
}
use dcos_log.Mesos.Types.{Externals, ReadManager, chunk_size, sse_format, Error}
use dcos_log.Mesos.Chunks.{body}
use dcos_log.Mesos.Follow.{Serves, IsLine}
use dcos_log.Mesos.Delivery.{IsReady, Kept}
use dcos_log.Mesos.Resume.{grown-IsReady}
use dcos_log.Mesos.Events.{Events, EventFits, copy_lines-Events}
use dcos_log.Api.Types.{Dcos}
use dcos_log.Api.V2.Files.{stream_ticks}

-- The files API at a tick, and the lines by which the file has grown since the last one.
abbrev pub Growth : Type 0
Growth = Externals × List Bytes

abbrev pub at_tick : ReadManager → Externals → ReadManager
at_tick rm client = record rm { client = client }

-- The files API serves the grown file at every tick, and the new lines are good ones.
abbrev pub Grows : ℕ → Bytes → ReadManager → List Growth → Type 0
Grows fuel file rm [] = Unit
Grows fuel file rm ((client, more) ∷ ticks) =
    Serves (file ++ body more) (at_tick rm client)
    × (length (file ++ body more) + chunk_size < 2 ^ 63)
    × All IsLine more
    × All (EventFits (at_tick rm client)) more
    × (length more < fuel)
    × Grows fuel (file ++ body more) rm ticks

-- One event for every line by which the file has grown, tick by tick.
abbrev pub Streams : Bytes → ReadManager → List Growth → Bytes → Type 0
Streams file rm [] out = out ≡ []
Streams file rm ((client, more) ∷ ticks) out =
    (here later : Bytes) × (out ≡ here ++ later)
    × Events (file ++ body more) (at_tick rm client) more here
    × Streams (file ++ body more) rm ticks later

-- The reader `r` differs from `rm` in its client and in what Kept leaves open.
abbrev Alike : ReadManager → ReadManager → Type 0
Alike rm r =
    r
    ≡ record rm { client = r.client; lines = r.lines; offset = r.offset; read_lines = r.read_lines }

Alike-Kept :
    (rm r after : ReadManager) (client : Externals)
    → Alike rm r
    → Kept (at_tick r client) after
    → Alike rm after
Alike-Kept rm r after client h k =
    k
    ∙ ap {A = ReadManager} {B = ReadManager}
        (λ t. record t {
          client = client;
          lines = after.lines;
          offset = after.offset;
          read_lines = after.read_lines;
        })
        h
    ∙ ap {A = Externals} {B = ReadManager}
        (λ c. record rm {
          client = c;
          lines = after.lines;
          offset = after.offset;
          read_lines = after.read_lines;
        })
        (sym (ap (λ (t : ReadManager). t.client) k))

stream_ticks-Alike :
    (dcos : Dcos) (fuel : ℕ) (file : Bytes) (rm r : ReadManager) (ticks : List Growth)
    → rm.format_fn ≡ sse_format
    → Alike rm r
    → IsReady file r []
    → Grows fuel file rm ticks
    → Streams file rm ticks (stream_ticks dcos fuel (map (λ t. t.0) ticks) r)
unfolding stream_ticks
stream_ticks-Alike dcos fuel file rm r [] sse alike ready grows = refl
stream_ticks-Alike dcos fuel file rm r ((client, more) ∷ ticks) sse alike ready grows =
    let (serves, fits, lines, small, enough, later) = grows in
    let here =
      subst (λ (t : ReadManager). Serves (file ++ body more) (at_tick t client)) (sym alike)
        serves in
    let (r', out, copied, events, done, kept) =
      copy_lines-Events (file ++ body more) more (at_tick r client) fuel fits lines
        (subst (λ (t : ReadManager). All (EventFits (at_tick t client)) more) (sym alike) small)
        (ap (λ (t : ReadManager). t.format_fn) alike ∙ sse)
        (grown-IsReady file r more client ready here) enough in
    (
      out,
      stream_ticks dcos fuel (map (λ t. t.0) ticks) r',
      ap
          (λ (t : ReadManager × Bytes × Option Error).
            t.1 ++ stream_ticks dcos fuel (map (λ (g : Growth). g.0) ticks) t.0)
          copied,
      subst (λ (t : ReadManager). Events (file ++ body more) (at_tick t client) more out) alike
          events,
      stream_ticks-Alike dcos fuel (file ++ body more) rm r' ticks sse
          (Alike-Kept rm r r' client alike kept) done later,
    )

-- An event stream of a file that grows by complete lines consists of one event for each new line, tick by
-- tick and in the order of the file; the id of an event is the position at which the lines behind it
-- begin. The reader is at the end of the file when the stream begins, the files API serves the grown
-- file at every tick, lines are not blank, events fit the buffer, and the file's size fits an int.
pub stream_ticks-Streams :
    (dcos : Dcos) (fuel : ℕ) (file : Bytes) (rm : ReadManager) (ticks : List Growth)
    → rm.format_fn ≡ sse_format
    → IsReady file rm []
    → Grows fuel file rm ticks
    → Streams file rm ticks (stream_ticks dcos fuel (map (λ t. t.0) ticks) rm)
stream_ticks-Streams dcos fuel file rm ticks sse ready grows =
    stream_ticks-Alike dcos fuel file rm rm ticks sse refl ready grows
