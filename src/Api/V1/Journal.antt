-- ===== src/Api/V1/Journal.antt =====
-- readJournalHandler and fieldHandler of dcos-log/api/v1/handlers.go.
use dcos_log.Base.{
  ℕ, if◌then◌else◌, not, ◌&&◌, Bool, true, false, List, [], ◌∷◌, ◌++◌, Bytes, bytes, bytes_eq,
  is_empty, format_uint, Option, none, some, Result, ok, err,
}
use dcos_log.Mesos.Types.{Header}
use dcos_log.Journal.Types.{Sdjournal, Encoders, Reader, JournalEntryMatch}
use dcos_log.Journal.Format.{new_entry_formatter, get_content_type, content_type_string}
use dcos_log.Journal.Options.{
  new_reader, option_match, option_seek_cursor, option_limit, option_skip_next, option_skip_prev,
  option_read_reverse, Effect,
}
use dcos_log.Api.Types.{HttpRequest, Reply, error_reply, page, get}
use dcos_log.Api.JournalPage.{common_header, Tick, copy_page, follow_ticks}
use dcos_log.Api.V1.Params.{
  allowed_fields, get_cursor, get_limit, get_skip, get_matches, get_read_reverse, path_matches,
}

-- The parameters of a request, when all are good.
pub record Params : Type 0 where
  pub matches : List JournalEntryMatch
  pub cursor : Bytes
  pub limit : ℕ
  pub skip_next : ℕ
  pub skip_prev : ℕ
  pub read_reverse : Bool

-- The parameters in the order in which the handler reads them.
unfoldable pub read_params : (Bytes → Bytes) → HttpRequest → Option Params
read_params unicode_upper req = elim (get_matches unicode_upper req) [
  | none ↦ none
  | some request_matches ↦ elim (get_cursor req) [
    | none ↦ none
    | some cursor ↦ elim (get_limit req req.context.stream) [
      | none ↦ none
      | some limit ↦ elim (get_skip req) [
        | none ↦ none
        | some (skip_next, skip_prev) ↦ elim (get_read_reverse req req.context.stream) [
          | none ↦ none
          | some read_reverse ↦ some (record {
            matches = path_matches req ++ request_matches;
            cursor = cursor;
            limit = limit;
            skip_next = skip_next;
            skip_prev = skip_prev;
            read_reverse = read_reverse;
          })
        ]
      ]
    ]
  ]
]

-- On a stream Last-Event-ID takes the place of the cursor, and nothing is skipped.
unfoldable pub resume_params : HttpRequest → Params → Params
unfolding get
resume_params req p =
    let last_event_id = get (bytes "Last-Event-Id") req.header in
    if req.context.stream && not (is_empty last_event_id)
    then record p { cursor = last_event_id; skip_prev = 0; skip_next = 0 }
    else p

abbrev is_allowed : Bytes → List Bytes → Bool
is_allowed f [] = false
is_allowed f (g ∷ gs) = let rest = is_allowed f gs in if bytes_eq g f then true else rest

module _ (sd : Sdjournal) (enc : Encoders) where
  unfoldable pub reader_options : Params → List (Option (Effect sd))
  reader_options p =
      some (option_match sd p.matches)
      ∷ some (option_seek_cursor sd p.cursor)
      ∷ some (option_limit sd p.limit)
      ∷ some (option_skip_next sd p.skip_next)
      ∷ some (option_skip_prev sd p.skip_prev)
      ∷ some (option_read_reverse sd p.read_reverse)
      ∷ []

  unfoldable pub page_header : Bytes → Reader sd.Journal → Header
  unfolding format_uint
  page_header content_type r =
      (bytes "Content-Type", content_type)
      ∷ (bytes "X-Journal-Skip-Next", format_uint r.skipped_next)
      ∷ (bytes "X-Journal-Skip-Prev", format_uint r.skipped_prev)
      ∷ common_header

  unfoldable pub read_journal_handler :
      (Bytes → Bytes) → ℕ → ℕ → sd.System → List (Tick sd.System) → HttpRequest → Reply
  unfolding read_params resume_params reader_options page_header new_entry_formatter
      get_content_type
  read_journal_handler unicode_upper fuel now system ticks req =
      let stream = req.context.stream in
      let formatter = new_entry_formatter (get (bytes "Accept") req.header) stream in
      elim (read_params unicode_upper req) [
        | none ↦ error_reply 400
        | some p ↦
            elim (new_reader sd system (some formatter) (reader_options (resume_params req p))) [
              | err e ↦ error_reply 500
              | ok r ↦
                  let header = page_header (content_type_string (get_content_type formatter)) r in
                  if not stream
                  then copy_page sd enc fuel now header r
                  else page (header ++ (bytes "X-Accel-Buffering", bytes "no") ∷ [])
                      (follow_ticks sd enc fuel ticks r) none
            ]
      ]

  -- `marshal` is json.Marshal of the list of values.
  unfoldable pub field_handler : (List Bytes → Result Bytes Bytes) → sd.System → HttpRequest → Reply
  unfolding allowed_fields get bytes_eq
  field_handler marshal system req =
      let field = get (bytes "field") req.vars in
      if is_allowed field allowed_fields
      then (elim (new_reader sd system none []) [
        | err e ↦ error_reply 400
        | ok r ↦ elim (sd.get_unique_values field r.journal) [
          | err e ↦ error_reply 400
          | ok values ↦ elim values [
            | [] ↦ error_reply 204
            | v ∷ vs ↦ elim (marshal (v ∷ vs)) [
              | err e ↦ error_reply 500
              | ok out ↦ page ((bytes "Content-Type", bytes "application/json") ∷ []) out none
            ]
          ]
        ]
      ])
      else error_reply 400
