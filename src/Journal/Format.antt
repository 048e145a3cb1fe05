-- ===== src/Journal/Format.antt =====
-- The entry formatters of dcos-log/journal/reader/formatters.go.
use dcos_log.Base.{
  ℕ, ◌+◌, ◌-◌, ◌/◌, ◌==◌, if◌then◌else◌, Bool, List, [], ◌∷◌, ◌++◌, Bytes, bytes, bytes_eq, Option,
  none, some, ℤ, pos, negsuc, int64, Result, ok, err,
}
use dcos_log.Journal.Types.{
  JournalEntry, Encoders, EntryFormatter, format_text, format_json, format_sse,
}

pub data ContentType : Type 0 where
  plain_text application_json event_stream : ContentType

unfoldable pub content_type_string : ContentType → Bytes
content_type_string plain_text = bytes "text/plain"
content_type_string application_json = bytes "application/json"
content_type_string event_stream = bytes "text/event-stream"

unfoldable pub new_entry_formatter : Bytes → Bool → EntryFormatter
unfolding content_type_string bytes_eq
new_entry_formatter s use_cursor_id =
    if bytes_eq s (content_type_string application_json)
    then format_json
    else if bytes_eq s (content_type_string event_stream)
    then format_sse use_cursor_id
    else format_text

unfoldable pub get_content_type : EntryFormatter → ContentType
get_content_type format_text = plain_text
get_content_type format_json = application_json
get_content_type (format_sse use_cursor_id) = event_stream

-- A look-up in a map of strings.
unfoldable pub field_of : Bytes → List (Bytes × Bytes) → Option Bytes
unfolding bytes_eq
field_of k [] = none
field_of k ((j, v) ∷ fields) = let rest = field_of k fields in if bytes_eq j k then some v else rest

-- The quotient of an int by a positive constant, rounded towards zero.
abbrev pub quotient : ℤ → ℕ → ℤ
quotient (pos n) d = pos (n / d)
quotient (negsuc n) d = let q = (n + 1) / d in if q == 0 then pos 0 else negsuc (q - 1)

module _ (enc : Encoders) where
  unfoldable pub text_entry : JournalEntry → Bytes
  unfolding field_of int64
  text_entry entry = elim (field_of (bytes "MESSAGE") entry.fields) [
    | none ↦ []
    | some message ↦
        enc.format_time (quotient (int64 (pos entry.realtime_timestamp)) 1000000)
        ++ bytes ": "
        ++ message
        ++ bytes "\n"
  ]

  unfoldable pub json_entry : JournalEntry → Result Bytes Bytes
  json_entry entry = elim (enc.marshal entry) [
    | err e ↦ err e
    | ok entry_bytes ↦ ok (entry_bytes ++ bytes "\n")
  ]

  unfoldable pub sse_entry : Bool → JournalEntry → Result Bytes Bytes
  sse_entry use_cursor_id entry = elim (enc.marshal entry) [
    | err e ↦ err e
    | ok entry_bytes ↦
        let event = bytes "data: " ++ (entry_bytes ++ bytes "\n\n") in
        ok
          (if use_cursor_id then (bytes "id: " ++ (entry.cursor ++ bytes "\n")) ++ event else event)
  ]

  unfoldable pub format_entry : EntryFormatter → JournalEntry → Result Bytes Bytes
  unfolding text_entry json_entry sse_entry
  format_entry format_text entry = ok (text_entry entry)
  format_entry format_json entry = json_entry entry
  format_entry (format_sse use_cursor_id) entry = sse_entry use_cursor_id entry
