-- ===== src/Tests/Streams.antt =====
-- The streams of a journal that grows.
use dcos_log.Base.{
  ℕ, ◌≤◌, ◌≡◌, refl, sym, subst, List, [], ◌∷◌, ◌++◌, arith, Bytes, bytes, none, some, ok, All,
  bytes_eq, false, true, map, parse_uint,
}
use dcos_log.Journal.Types.{JournalEntry, Reader, format_sse, format_json}
use dcos_log.Journal.Options.{
  new_reader, fresh_reader, apply_options, Effect, option_match, option_match_or, add_matches,
  add_matches_or, option_seek_cursor, option_limit, option_skip_next, option_skip_prev,
  option_read_reverse,
}
use dcos_log.Journal.Format.{
  format_entry, new_entry_formatter, content_type_string, get_content_type,
}
use dcos_log.Journal.Reading.{skip_read}
use dcos_log.Journal.Stream.{Prints}
use dcos_log.Api.Types.{HttpRequest, page, get, get_all}
use dcos_log.Api.JournalPage.{filter_matches, common_header}
use dcos_log.Api.JournalStream.{Streamed}
use dcos_log.Api.V1.Params.{
  get_matches, get_cursor, get_limit, get_skip, skip_param, get_read_reverse, path_matches,
}
use dcos_log.Api.V1.Journal.{
  Params, read_params, resume_params, reader_options, page_header, read_journal_handler,
}
use dcos_log.Api.V1.StreamPages.{read_journal_handler-Streamed}
use dcos_log.Api.V2.Files.{event_stream}
use dcos_log.Api.V2.Component.{
  journal_options, name_options, filter_options, cursor_options, cursor_param, limit_options,
  skip_options, component_matches, journal_handler,
}
use dcos_log.Api.V2.JournalPages.{accepted}
use dcos_log.Api.V2.JournalStreams.{journal_handler-Streamed}
use dcos_log.Tests.Logs.{plain, entries, entry}
use dcos_log.Tests.Growth.{Growth, start, growing, view, rest, is_growing, ticks}

pub same : Bytes → Bytes
same s = s

-- A request for a stream, as JSON.
abbrev pub stream_asked : HttpRequest
stream_asked = record {
  header = (bytes "Accept", bytes "application/json") ∷ [];
  query = [];
  raw_query = [];
  vars = [];
  form = none;
  context = record { cfg = none; client = none; node_info = none; token = none; stream = true };
  can_flush = true;
}

accept : new_entry_formatter (get (bytes "Accept") stream_asked.header) true ≡ format_json
unfolding new_entry_formatter get bytes_eq
accept = refl

abbrev pub all_wanted : Params
all_wanted = record {
  matches = [];
  cursor = [];
  limit = 0;
  skip_next = 0;
  skip_prev = 0;
  read_reverse = false;
}

params : read_params same stream_asked ≡ some all_wanted
unfolding read_params get_matches get_cursor get_limit get_skip skip_param get_read_reverse
    path_matches get get_all filter_matches bytes_eq
params = refl

abbrev reader : Reader Growth
reader = record (fresh_reader growing start (some format_json)) {
  match_fns = add_matches growing [] ∷ [];
}

made :
    new_reader growing tt
      (some format_json)
      (reader_options growing plain (resume_params stream_asked all_wanted))
    ≡ ok reader
unfolding new_reader reader_options resume_params apply_options option_match option_seek_cursor
    option_limit option_skip_next option_skip_prev option_read_reverse add_matches get
made = refl

waiting : skip_read growing plain reader ≡ false
unfolding skip_read
waiting = refl

pub printed : (c : Bytes) → format_entry plain format_json (entry c) ≡ ok (c ++ bytes "\n")
unfolding format_entry
printed c = refl

read_journal_handler-Streamed_example :
    (s : Streamed growing plain view rest (is_growing start) format_json reader ticks) × ((fuel : ℕ)
      → s.enough ≤ fuel
      → read_journal_handler growing plain same fuel 7 tt ticks stream_asked
        ≡ page
            (page_header growing plain (content_type_string (get_content_type format_json)) reader
              ++ (bytes "X-Accel-Buffering", bytes "no") ∷ [])
            s.out
            none)
read_journal_handler-Streamed_example =
    read_journal_handler-Streamed growing plain same 7 view rest (is_growing start) tt ticks
      stream_asked format_json all_wanted reader accept refl params made waiting (omega arith)
      ((_, printed (bytes "a")), ((_, printed (bytes "b")), tt))

-- A request for the events of a component.
abbrev events_asked : HttpRequest
events_asked = record stream_asked {
  header = (bytes "Accept", bytes "text/event-stream") ∷ [];
  vars = (bytes "name", bytes "u") ∷ [];
}

abbrev unit_options : List (Effect growing)
unit_options = option_match_or growing (component_matches (bytes "u")) ∷ []

events_accept : bytes_eq (get (bytes "Accept") events_asked.header) event_stream ≡ true
unfolding get bytes_eq
events_accept = refl

no_limit : get_limit events_asked false ≡ some 0
unfolding get_limit get bytes_eq
no_limit = refl

options : journal_options growing plain same events_asked ≡ some unit_options
unfolding journal_options name_options filter_options cursor_options cursor_param limit_options
    skip_options get get_all parse_uint bytes_eq
options = refl

unit_accept : accepted growing plain events_asked ≡ format_sse true
unfolding new_entry_formatter get bytes_eq
unit_accept = refl

abbrev unit_reader : Reader Growth
unit_reader = record (fresh_reader growing start (some (format_sse true))) {
  match_fns = add_matches_or growing (component_matches (bytes "u")) ∷ [];
}

unit_made :
    new_reader growing tt
      (some (accepted growing plain events_asked))
      (map (λ o. some o) unit_options)
    ≡ ok unit_reader
unfolding new_reader apply_options option_match_or add_matches_or component_matches
    new_entry_formatter get bytes_eq
unit_made = refl

unit_waiting : skip_read growing plain unit_reader ≡ false
unfolding skip_read
unit_waiting = refl

Prints-event : (e : JournalEntry) → Prints plain (format_sse true) e
unfolding format_entry
Prints-event e = (_, refl)

unit-Prints : All (Prints plain (accepted growing plain events_asked)) entries
unit-Prints =
    subst (λ f. All (Prints plain f) entries) (sym unit_accept)
      (Prints-event (entry (bytes "a")), (Prints-event (entry (bytes "b")), tt))

journal_handler-Streamed_example :
    (s : Streamed growing plain view rest
      (is_growing start)
      (accepted growing plain events_asked)
      unit_reader
      ticks)
    × ((fuel : ℕ)
        → s.enough ≤ fuel
        → journal_handler growing plain same fuel 7 tt ticks events_asked
          ≡ page
              (((
                bytes "Content-Type",
                content_type_string (get_content_type (accepted growing plain events_asked)),
              )
                  ∷ common_header)
                ++ (bytes "X-Accel-Buffering", bytes "no") ∷ [])
              s.out
              none)
journal_handler-Streamed_example =
    journal_handler-Streamed growing plain same 7 view rest (is_growing start) tt ticks events_asked
      unit_options unit_reader events_accept no_limit options unit_made unit_waiting (omega arith)
      unit-Prints
