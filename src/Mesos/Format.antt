-- ===== src/Mesos/Format.antt =====
-- The formatters of dcos-log/mesos/files/reader/format.go.
use dcos_log.Base.{
  ◌++◌, [], ◌∷◌, if◌then◌else◌, ◌&&◌, ltb, Bytes, bytes, pos, ltb_ℤ, ◌+ℤ◌, itoa, Result, ok, err,
  ◌>>=◌,
}
use dcos_log.Mesos.Types.{Error, Line, Formatter, line_format, sse_format, ReadManager, lift}

unfoldable pub jsonify_line : Line → ReadManager → Result Error Line
jsonify_line l rm = do
  marshaled ← lift (
      rm.client.marshal_fields (
        (bytes "MESSAGE", l.message)
        ∷ (bytes "AGENT_ID", rm.agent_id)
        ∷ (bytes "EXECUTOR_ID", rm.executor_id)
        ∷ (bytes "FRAMEWORK_ID", rm.framework_id)
        ∷ (bytes "CONTAINER_ID", rm.container_id)
        ∷ (bytes "FILE", rm.file)
        ∷ []))
  ok (record l { message = marshaled })

-- The text of one event: its id, where the line does not start the file, and its data.
abbrev pub sse_event : Line → Bytes
sse_event line =
    (if ltb_ℤ (pos 0) line.offset && ltb 0 line.size
      then bytes "id: " ++ itoa (line.offset +ℤ pos line.size) ++ bytes "\n"
      else [])
    ++ bytes "data: "
    ++ line.message
    ++ bytes "\n\n"

unfoldable pub sse_formatted : Line → ReadManager → Bytes
unfolding jsonify_line
sse_formatted l rm = elim (jsonify_line l rm) [
  | ok json_line ↦ sse_event json_line
  | err e ↦ sse_event l
]

unfoldable pub line_formatted : Line → ReadManager → Bytes
line_formatted l rm = l.message ++ bytes "\n"

unfoldable pub formatted : Formatter → Line → ReadManager → Bytes
unfolding line_formatted sse_formatted
formatted line_format l rm = line_formatted l rm
formatted sse_format l rm = sse_formatted l rm
