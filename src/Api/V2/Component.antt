-- ===== src/Api/V2/Component.antt =====
-- journalHandler of dcos-log/api/v2/handlers.go.
use dcos_log.Base.{
  ℕ, if◌then◌else◌, not, Bool, true, false, List, [], ◌∷◌, ◌++◌, Bytes, bytes, bytes_eq, is_empty,
  parse_uint, atoi, query_unescape, map, ltb_ℤ, pos, negate, to_uint64, Option, none, some, ok, err,
}
use dcos_log.Journal.Types.{Sdjournal, Encoders, JournalEntryMatch}
use dcos_log.Journal.Format.{new_entry_formatter, get_content_type, content_type_string}
use dcos_log.Journal.Options.{
  new_reader, option_match, option_match_or, option_seek_cursor, option_limit, option_skip_next,
  option_skip_prev, Effect,
}
use dcos_log.Api.Types.{HttpRequest, Reply, error_reply, page, get, get_all}
use dcos_log.Api.JournalPage.{filter_matches, common_header, Tick, copy_page, follow_ticks}
use dcos_log.Api.V2.Files.{event_stream}

-- The options that a step of the handler adds, or `none` for an answer of 400.
infixl 5 ◌>>=◌
abbrev pub ◌>>=◌ {ℓ κ} : {A : Type ℓ} {B : Type κ} → Option A → (A → Option B) → Option B
none >>= f = none
some a >>= f = f a

unfoldable pub component_matches : Bytes → List JournalEntryMatch
component_matches name =
    record { field = bytes "UNIT"; value = name }
    ∷ record { field = bytes "_SYSTEMD_UNIT"; value = name }
    ∷ []

-- The cursor that is sought, and whether the journal goes to its last entry first.
unfoldable pub cursor_param : HttpRequest → Option (Bytes × Bool)
unfolding get bytes_eq query_unescape
cursor_param req =
    let last_event_id = get (bytes "Last-Event-Id") req.header in
    let cursor = get (bytes "cursor") req.query in
    if not (is_empty last_event_id)
    then some (last_event_id, false)
    else if bytes_eq cursor (bytes "BEG")
    then some ([], false)
    else if bytes_eq cursor (bytes "END")
    then some ([], true)
    else if is_empty cursor
    then some ([], false)
    else (query_unescape cursor >>= λ c. some (c, false))

module _ (sd : Sdjournal) (enc : Encoders) where
  unfoldable pub name_options : HttpRequest → List (Effect sd)
  unfolding component_matches get
  name_options req =
      let name = get (bytes "name") req.vars in
      if is_empty name then [] else option_match_or sd (component_matches name) ∷ []

  unfoldable pub filter_options : (Bytes → Bytes) → HttpRequest → Option (List (Effect sd))
  unfolding filter_matches get_all
  filter_options unicode_upper req = elim (get_all (bytes "filter") req.query) [
    | [] ↦ some []
    | f ∷ fs ↦
        filter_matches unicode_upper (f ∷ fs) >>= λ matches. some (option_match sd matches ∷ [])
  ]

  unfoldable pub cursor_options : HttpRequest → Option (List (Effect sd))
  unfolding cursor_param
  cursor_options req = cursor_param req >>= λ (cursor, from_end). some (
      (if from_end then option_skip_prev sd 1 ∷ [] else [])
      ++ (if is_empty cursor then [] else option_seek_cursor sd cursor ∷ []))

  unfoldable pub limit_options : HttpRequest → Option (List (Effect sd))
  unfolding get
  limit_options req =
      let limit_str = get (bytes "limit") req.query in
      if is_empty limit_str
      then some []
      else (parse_uint 10 limit_str >>= λ limit. some (option_limit sd limit ∷ []))

  -- A number that is not positive goes backwards.
  unfoldable pub skip_options : HttpRequest → Option (List (Effect sd))
  unfolding get
  skip_options req =
      let skip_str = get (bytes "skip") req.query in
      if is_empty skip_str
      then some []
      else (atoi skip_str >>= λ skip. some (
          (if ltb_ℤ (pos 0) skip
            then option_skip_next sd (to_uint64 skip)
            else option_skip_prev sd (to_uint64 (negate skip)))
          ∷ []))

  unfoldable pub journal_options : (Bytes → Bytes) → HttpRequest → Option (List (Effect sd))
  unfolding name_options filter_options cursor_options limit_options skip_options
  journal_options unicode_upper req = do
    filters ← filter_options unicode_upper req
    cursor ← cursor_options req
    limit ← limit_options req
    skip ← skip_options req
    some (name_options req ++ (filters ++ (cursor ++ (limit ++ skip))))

  unfoldable pub journal_handler :
      (Bytes → Bytes) → ℕ → ℕ → sd.System → List (Tick sd.System) → HttpRequest → Reply
  unfolding journal_options new_entry_formatter get_content_type content_type_string get bytes_eq
  journal_handler unicode_upper fuel now system ticks req =
      let accept = get (bytes "Accept") req.header in
      let use_sse = bytes_eq accept event_stream in
      let formatter = new_entry_formatter accept use_sse in
      let header =
        (bytes "Content-Type", content_type_string (get_content_type formatter)) ∷ common_header in
      elim (journal_options unicode_upper req) [
        | none ↦ error_reply 400
        | some opts ↦ elim (new_reader sd system (some formatter) (map (λ o. some o) opts)) [
          | err e ↦ error_reply 500
          | ok r ↦
              if not use_sse
              then copy_page sd enc fuel now header r
              else page (header ++ (bytes "X-Accel-Buffering", bytes "no") ∷ [])
                  (follow_ticks sd enc fuel ticks r) none
        ]
      ]
