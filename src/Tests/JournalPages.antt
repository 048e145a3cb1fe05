-- ===== src/Tests/JournalPages.antt =====
-- The pages of a journal of two entries.
use dcos_log.Base.{
  ◌≡◌, refl, false, true, List, [], ◌∷◌, ◌≤◌, ℕ, arith, Bytes, bytes, none, some, ok, inl, is_empty,
  if◌then◌else◌, bytes_eq, parse_uint, ltb, map, subst, sym,
}
use dcos_log.Journal.Types.{Sdjournal, Reader, format_json}
use dcos_log.Journal.Format.{new_entry_formatter, content_type_string, get_content_type}
use dcos_log.Journal.Options.{
  new_reader, fresh_reader, apply_options, Effect, option_match, option_match_or, add_matches,
  add_matches_or, option_seek_cursor, option_limit, option_skip_next, option_skip_prev,
  option_read_reverse,
}
use dcos_log.Journal.Reading.{skip_read}
use dcos_log.Journal.Delivery.{IsLog, concat, Formats, within_limit}
use dcos_log.Api.Types.{HttpRequest, page, get, get_all}
use dcos_log.Api.JournalPage.{filter_matches, common_header}
use dcos_log.Api.V1.Params.{
  get_matches, get_cursor, get_limit, get_skip, skip_param, get_read_reverse, path_matches,
}
use dcos_log.Api.V1.Journal.{Params, read_params, reader_options, page_header, read_journal_handler}
use dcos_log.Api.V1.Pages.{read_journal_handler-concat}
use dcos_log.Api.V2.Files.{event_stream}
use dcos_log.Api.V2.Component.{
  journal_options, name_options, filter_options, cursor_options, cursor_param, limit_options,
  skip_options, component_matches, journal_handler,
}
use dcos_log.Api.V2.JournalPages.{accepted, journal_handler-concat}
use dcos_log.Tests.Logs.{Place, memory, plain, entries, texts, log_forward, log_end, formats}

-- A journal that is opened in front of both entries.
abbrev opened : Sdjournal
opened = record memory { new_journal = λ s. ok (record { current = none; ahead = entries }) }

is_log : IsLog opened (λ j. j.ahead)
is_log = record { at_end = log_end; forward = log_forward }

-- A request for one entry, as JSON.
abbrev one_asked : HttpRequest
one_asked = record {
  header = (bytes "Accept", bytes "application/json") ∷ [];
  query = (bytes "limit", bytes "1") ∷ [];
  raw_query = [];
  vars = [];
  form = none;
  context = record { cfg = none; client = none; node_info = none; token = none; stream = false };
  can_flush = true;
}

abbrev one_wanted : Params
one_wanted = record {
  matches = [];
  cursor = [];
  limit = 1;
  skip_next = 0;
  skip_prev = 0;
  read_reverse = false;
}

same : Bytes → Bytes
same s = s

accept : new_entry_formatter (get (bytes "Accept") one_asked.header) false ≡ format_json
unfolding new_entry_formatter get bytes_eq
accept = refl

params : read_params same one_asked ≡ some one_wanted
unfolding read_params get_matches get_cursor get_limit get_skip skip_param get_read_reverse
    path_matches get get_all filter_matches parse_uint bytes_eq
params = refl

abbrev one_reader : Reader Place
one_reader =
    record (fresh_reader opened (record { current = none; ahead = entries }) (some format_json)) {
      limit = 1;
      use_limit = true;
      match_fns = add_matches opened [] ∷ [];
    }

made :
    new_reader opened tt (some format_json) (reader_options opened plain one_wanted) ≡ ok one_reader
unfolding new_reader reader_options apply_options option_match option_seek_cursor option_limit
    option_skip_next option_skip_prev option_read_reverse add_matches
made = refl

waiting : skip_read opened plain one_reader ≡ false
unfolding skip_read
waiting = refl

read_journal_handler-concat_example :
    (k : ℕ) × ((fuel : ℕ)
      → k ≤ fuel
      → read_journal_handler opened plain same fuel 7 tt [] one_asked
        ≡ page
            (page_header opened plain
              (content_type_string (get_content_type format_json))
              one_reader)
            (bytes "a\n")
            none)
read_journal_handler-concat_example =
    read_journal_handler-concat opened plain same 7 (λ j. j.ahead) is_log tt [] one_asked
      format_json one_wanted one_reader entries texts accept refl refl params refl made
      (inl (waiting, refl)) (omega arith) formats

-- The same request for the journal of a component.
abbrev of_unit : HttpRequest
of_unit = record one_asked { vars = (bytes "name", bytes "u") ∷ [] }

abbrev unit_options : List (Effect opened)
unit_options = option_match_or opened (component_matches (bytes "u")) ∷ option_limit opened 1 ∷ []

plain_accept : bytes_eq (get (bytes "Accept") of_unit.header) event_stream ≡ false
unfolding get bytes_eq
plain_accept = refl

options : journal_options opened plain same of_unit ≡ some unit_options
unfolding journal_options name_options filter_options cursor_options cursor_param limit_options
    skip_options get get_all parse_uint bytes_eq
options = refl

abbrev unit_reader : Reader Place
unit_reader =
    record (fresh_reader opened (record { current = none; ahead = entries }) (some format_json)) {
      limit = 1;
      use_limit = true;
      match_fns = add_matches_or opened (component_matches (bytes "u")) ∷ [];
    }

unit_accept : accepted opened plain of_unit ≡ format_json
unfolding new_entry_formatter get bytes_eq
unit_accept = refl

unit_made :
    new_reader opened tt (some (accepted opened plain of_unit)) (map (λ o. some o) unit_options)
    ≡ ok unit_reader
unfolding new_reader apply_options option_match_or option_limit add_matches_or component_matches
    new_entry_formatter get bytes_eq
unit_made = refl

unit_waiting : skip_read opened plain unit_reader ≡ false
unfolding skip_read
unit_waiting = refl

unit-Formats : Formats plain (accepted opened plain of_unit) entries texts
unit-Formats = subst (λ f. Formats plain f entries texts) (sym unit_accept) formats

journal_handler-concat_example :
    (limit k : ℕ) × (out : Bytes) × (get_limit of_unit false ≡ some limit)
    × (out ≡ concat (within_limit (ltb 0 limit) limit texts))
    × ((fuel : ℕ)
        → k ≤ fuel
        → journal_handler opened plain same fuel 7 tt [] of_unit
          ≡ page
              ((
                bytes "Content-Type",
                content_type_string (get_content_type (accepted opened plain of_unit)),
              )
                ∷ common_header)
              out
              (if is_empty out then some 204 else none))
journal_handler-concat_example =
    journal_handler-concat opened plain same 7 (λ j. j.ahead) is_log tt [] of_unit unit_options
      unit_reader entries texts plain_accept options unit_made (inl (unit_waiting, refl))
      (omega arith) unit-Formats
