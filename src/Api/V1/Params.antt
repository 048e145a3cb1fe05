-- ===== src/Api/V1/Params.antt =====
-- The parameters of dcos-log/api/v1/handlers.go. Every error of theirs is answered with 400, so that
-- `none` stands for it.
use dcos_log.Base.{
  ℕ, if◌then◌else◌, ltb, ◌&&◌, Bool, false, List, [], ◌∷◌, Bytes, bytes, is_empty, parse_uint,
  parse_bool, query_unescape, Option, none, some,
}
use dcos_log.Journal.Types.{JournalEntryMatch}
use dcos_log.Api.Types.{HttpRequest, get, get_all}
use dcos_log.Api.JournalPage.{filter_matches}

unfoldable pub allowed_fields : List Bytes
allowed_fields =
    bytes "FRAMEWORK_ID"
    ∷ bytes "AGENT_ID"
    ∷ bytes "EXECUTOR_ID"
    ∷ bytes "CONTAINER_ID"
    ∷ bytes "STREAM"
    ∷ []

unfoldable pub get_cursor : HttpRequest → Option Bytes
unfolding get query_unescape
get_cursor req =
    let cursor = get (bytes "cursor") req.query in
    if is_empty cursor then some cursor else query_unescape cursor

unfoldable pub get_limit : HttpRequest → Bool → Option ℕ
unfolding get
get_limit req stream =
    let limit_param = get (bytes "limit") req.query in
    if is_empty limit_param then some 0 else (elim (parse_uint 10 limit_param) [
      | none ↦ none
      | some limit ↦ if stream && ltb 0 limit then none else some limit
    ])

-- An optional number of 64 bits, 0 if it is not there.
unfoldable pub skip_param : Bytes → HttpRequest → Option ℕ
unfolding get
skip_param name req =
    let value = get name req.query in if is_empty value then some 0 else parse_uint 10 value

unfoldable pub get_skip : HttpRequest → Option (ℕ × ℕ)
unfolding skip_param
get_skip req = elim (skip_param (bytes "skip_next") req) [
  | none ↦ none
  | some skip_next ↦ elim (skip_param (bytes "skip_prev") req) [
    | none ↦ none
    | some skip_prev ↦ some (skip_next, skip_prev)
  ]
]

unfoldable pub get_matches : (Bytes → Bytes) → HttpRequest → Option (List JournalEntryMatch)
unfolding get_all filter_matches
get_matches unicode_upper req = filter_matches unicode_upper (get_all (bytes "filter") req.query)

unfoldable pub get_read_reverse : HttpRequest → Bool → Option Bool
unfolding get parse_bool
get_read_reverse req stream =
    let read_reverse = get (bytes "read_reverse") req.query in
    if is_empty read_reverse then some false else if stream then none else parse_bool read_reverse

-- The variables of the path, by the field that each is matched against.
abbrev path_vars : List (Bytes × Bytes)
path_vars =
    (bytes "CONTAINER_ID", bytes "container_id")
    ∷ (bytes "FRAMEWORK_ID", bytes "framework_id")
    ∷ (bytes "EXECUTOR_ID", bytes "executor_id")
    ∷ []

matches_of : List (Bytes × Bytes) → List (Bytes × Bytes) → List JournalEntryMatch
matches_of [] vars = []
matches_of ((name, path_var) ∷ rest) vars =
    let later = matches_of rest vars in
    let value = get path_var vars in
    if is_empty value then later else record { field = name; value = value } ∷ later

unfoldable pub path_matches : HttpRequest → List JournalEntryMatch
unfolding get matches_of
path_matches req = matches_of path_vars req.vars
