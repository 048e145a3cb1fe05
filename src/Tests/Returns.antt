-- ===== src/Tests/Returns.antt =====
-- A client that comes back to a journal that grows.
use dcos_log.Base.{
  false, ℕ, ◌≤◌, ◌≡◌, refl, true, [], ◌∷◌, ◌++◌, arith, Bytes, bytes, bytes_eq, none, some, split,
  parse_uint,
}
use dcos_log.Journal.Types.{Sdjournal, format_json}
use dcos_log.Journal.Cursor.{
  validate_cursor, validate_fields, validate_field, validate_string, validate_hex_uint64,
  parse_hex_uint64, parse_key_value,
}
use dcos_log.Journal.Format.{content_type_string, get_content_type, new_entry_formatter}
use dcos_log.Journal.Options.{add_matches}
use dcos_log.Api.Types.{HttpRequest, page, get, get_all}
use dcos_log.Api.JournalStream.{Streamed}
use dcos_log.Api.V1.Journal.{page_header, read_journal_handler, read_params, Params}
use dcos_log.Api.V1.CursorPages.{read_journal_handler-behind}
use dcos_log.Api.V1.Resuming.{IsFound, resumed_reader, read_journal_handler-resumed}
use dcos_log.Tests.Logs.{plain, entry}
use dcos_log.Tests.Growth.{Growth, start, growing_from, view, rest, is_growing, ticks}
use dcos_log.Tests.Streams.{same, stream_asked, all_wanted, printed}
use dcos_log.Api.V1.Params.{
  get_matches, get_cursor, get_limit, get_skip, skip_param, get_read_reverse, path_matches,
}
use dcos_log.Api.JournalPage.{filter_matches}

abbrev last_seen : Bytes
last_seen = bytes "s=a;i=1;b=2;m=3;t=4;x=5"

-- The journal that is opened has the entry of the cursor in front.
abbrev begin : Growth
begin = record { current = none; ahead = entry last_seen ∷ start.ahead; later = start.later }

abbrev journal : Sdjournal
journal = growing_from begin

abbrev behind : Growth
behind = record { current = some (entry last_seen); ahead = start.ahead; later = start.later }

abbrev coming_back : HttpRequest
coming_back = record stream_asked {
  header = (bytes "Accept", bytes "application/json") ∷ (bytes "Last-Event-Id", last_seen) ∷ [];
}

accept : new_entry_formatter (get (bytes "Accept") coming_back.header) true ≡ format_json
unfolding new_entry_formatter get bytes_eq
accept = refl

params : read_params same coming_back ≡ some all_wanted
unfolding read_params get_matches get_cursor get_limit get_skip skip_param get_read_reverse
    path_matches get get_all filter_matches bytes_eq
params = refl

last : get (bytes "Last-Event-Id") coming_back.header ≡ last_seen
unfolding get bytes_eq
last = refl

valid : validate_cursor last_seen ≡ true
unfolding validate_cursor validate_fields validate_field validate_string validate_hex_uint64
    parse_hex_uint64 parse_key_value split bytes_eq
valid = refl

found : IsFound journal plain tt [] last_seen behind
unfolding add_matches
found = record {
  opened = begin;
  in_front = begin;
  count = 1;
  opens = refl;
  seeks = refl;
  moves = refl;
  tests = refl;
  stands = refl;
}

read_journal_handler-resumed_example :
    let r = resumed_reader journal plain format_json [] last_seen 0 behind in
    (s : Streamed journal plain view rest (is_growing begin) format_json r ticks) × ((fuel : ℕ)
      → s.enough ≤ fuel
      → read_journal_handler journal plain same fuel 7 tt ticks coming_back
        ≡ page
            (page_header journal plain (content_type_string (get_content_type format_json)) r
              ++ (bytes "X-Accel-Buffering", bytes "no") ∷ [])
            s.out
            none)
read_journal_handler-resumed_example =
    read_journal_handler-resumed journal plain same 7 view rest (is_growing begin) tt ticks
      coming_back format_json all_wanted last_seen behind accept refl params last refl valid found
      (omega arith) ((_, printed (bytes "a")), ((_, printed (bytes "b")), tt))

-- A request for one entry behind the last one seen.
abbrev next_asked : HttpRequest
next_asked = record stream_asked {
  query = (bytes "cursor", last_seen) ∷ (bytes "limit", bytes "1") ∷ [];
  context = record { cfg = none; client = none; node_info = none; token = none; stream = false };
}

abbrev next_wanted : Params
next_wanted = record all_wanted { cursor = last_seen; limit = 1 }

next_accept : new_entry_formatter (get (bytes "Accept") next_asked.header) false ≡ format_json
unfolding new_entry_formatter get bytes_eq
next_accept = refl

next_params : read_params same next_asked ≡ some next_wanted
unfolding read_params get_matches get_cursor get_limit get_skip skip_param get_read_reverse
    path_matches get get_all filter_matches parse_uint bytes_eq
next_params = refl

read_journal_handler-behind_example :
    (k : ℕ) × ((fuel : ℕ)
      → k ≤ fuel
      → read_journal_handler journal plain same fuel 7 tt [] next_asked
        ≡ page
            (page_header journal plain
              (content_type_string (get_content_type format_json))
              (resumed_reader journal plain format_json [] last_seen 1 behind))
            (bytes "a\n")
            none)
read_journal_handler-behind_example =
    read_journal_handler-behind journal plain same 7 view (is_growing begin).log tt [] next_asked
      format_json next_wanted behind (bytes "a\n" ∷ []) next_accept refl refl next_params refl valid
      refl refl refl found (omega arith) (printed (bytes "a"), tt)
