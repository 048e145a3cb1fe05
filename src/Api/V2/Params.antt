-- ===== src/Api/V2/Params.antt =====
-- The parameters of a request for the files API: optLimit, optCursor, optSkip, lastEventIDHeader and
-- buildOpts of dcos-log/api/v2/handlers.go.
use dcos_log.Base.{
  if◌then◌else◌, List, [], ◌∷◌, ◌++◌, Bytes, bytes, bytes_eq, is_empty, Option, none, some, Result,
  ok, err, ◌>>=◌, pos, atoi, is_zero, is_negative,
}
use dcos_log.Mesos.Types.{bottom_to_top}
use dcos_log.Mesos.Options.{
  ReadOption, opt_lines, opt_skip, opt_offset, opt_read_from_end, opt_read_direction,
}
use dcos_log.Api.Types.{HttpRequest, get}

-- The parameter that is not an integer, with its text.
pub data ParamError : Type 0 where
  bad_limit bad_cursor bad_skip bad_last_event_id : Bytes → ParamError

unfoldable pub opt_limit : Bytes → Result ParamError (List ReadOption)
opt_limit limit_str = if is_empty limit_str then ok [] else (elim (atoi limit_str) [
  | none ↦ err (bad_limit limit_str)
  | some limit ↦ ok (opt_lines limit ∷ [])
])

unfoldable pub opt_cursor : Bytes → Result ParamError (List ReadOption)
unfolding bytes_eq
opt_cursor cursor_str =
    if is_empty cursor_str
    then ok []
    else if bytes_eq cursor_str (bytes "BEG")
    then ok (opt_offset (pos 0) ∷ [])
    else if bytes_eq cursor_str (bytes "END")
    then ok (opt_read_from_end ∷ [])
    else (elim (atoi cursor_str) [
      | none ↦ err (bad_cursor cursor_str)
      | some cursor ↦ ok (opt_offset cursor ∷ [])
    ])

unfoldable pub opt_skip_param : Bytes → Result ParamError (List ReadOption)
opt_skip_param skip_str = if is_empty skip_str then ok [] else (elim (atoi skip_str) [
  | none ↦ err (bad_skip skip_str)
  | some skip ↦ ok (
      (if is_zero skip then [] else opt_skip skip ∷ [])
      ++ (if is_negative skip then opt_read_direction bottom_to_top ∷ [] else []))
])

-- The option of the header, if the header is there.
unfoldable pub last_event_id_header : Bytes → Result ParamError (Option ReadOption)
last_event_id_header last_event_id =
    if is_empty last_event_id then ok none else (elim (atoi last_event_id) [
      | none ↦ err (bad_last_event_id last_event_id)
      | some offset ↦ ok (some (opt_offset offset))
    ])

-- The loop over the parameters.
abbrev collect : List (Result ParamError (List ReadOption)) → Result ParamError (List ReadOption)
collect [] = ok []
collect (r ∷ rs) = do opts ← r; rest ← collect rs; ok (opts ++ rest)

-- Headers are kept under their canonical names.
unfoldable pub build_opts : HttpRequest → Result ParamError (List ReadOption)
unfolding get
build_opts req = do
  opt ← last_event_id_header (get (bytes "Last-Event-Id") req.header)
  elim opt [
    | some o ↦ ok (o ∷ [])
    | none ↦ collect (
        opt_cursor (get (bytes "cursor") req.query)
        ∷ opt_skip_param (get (bytes "skip") req.query)
        ∷ opt_limit (get (bytes "limit") req.query)
        ∷ [])
  ]
