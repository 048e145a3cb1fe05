-- ===== src/Journal/Reading.antt =====
-- Read, Close and Follow of dcos-log/journal/reader/read.go.
use dcos_log.Base.{
  ℕ, zero, suc, ◌+◌, ◌-◌, ◌%◌, ◌^◌, ◌==◌, ltb, if◌then◌else◌, ◌&&◌, not, Bool, true, false, List,
  [], ◌∷◌, Bytes, bytes, bytes_eq, Option, none, some, Result, ok, err, take, drop, copy,
}
use dcos_log.Journal.Types.{
  Sdjournal, Encoders, Reader, EntryFormatter, format_sse, Error, eof, foreign, out_of_fuel,
  no_current_cursor, not_closed, not_reopened, invalidate,
}
use dcos_log.Journal.Format.{format_entry}
use dcos_log.Journal.Options.{seek_reader}

abbrev pub is_event_stream : EntryFormatter → Bool
is_event_stream (format_sse use_cursor_id) = true
is_event_stream _ = false

-- 15 seconds
abbrev pub ping_interval : ℕ
ping_interval = 15000000000

abbrev pub ping : Bytes
ping = bytes ": ping\n\n"

-- `time.Since(t) < 15 s`; the zero time is long ago.
abbrev pub is_recent : ℕ → Option ℕ → Bool
is_recent now none = false
is_recent now (some t) = ltb (now - t) ping_interval

abbrev pub is_eof : Error → Bool
is_eof eof = true
is_eof _ = false

-- The rest of a message.
abbrev pub left_over : Bytes → Option Bytes
left_over [] = none
left_over (c ∷ s) = some (c ∷ s)

module _ (sd : Sdjournal) (enc : Encoders) where
  open sd use {Journal, System, next, previous, get_cursor, get_entry, new_journal, wait, close}

  -- What stands behind the label `reader`: the message goes out as far as the buffer holds it.
  unfoldable pub send_message : Bytes → Reader Journal → ℕ → Reader Journal × Result Error Bytes
  send_message [] r size = (record r { msg_reader = none }, ok [])
  send_message (c ∷ s) r size =
      (record r { msg_reader = left_over (drop size (c ∷ s)) }, ok (take size (c ∷ s)))

  -- Before the first entry: whether the journal stands on an entry other than the one of the request's
  -- cursor, so that it is not moved.
  unfoldable pub skip_read : Reader Journal → Bool
  unfolding bytes_eq
  skip_read r = elim (r.n == 0) [
    | false ↦ false
    | true ↦ elim (get_cursor r.journal) [ err e ↦ false | ok c ↦ not (bytes_eq c r.cursor) ]
  ]

  -- The entry on which the journal stands becomes the message.
  unfoldable pub read_current : ℕ → Reader Journal → ℕ → Reader Journal × Result Error Bytes
  read_current now r size =
      let timed = record r { eof_time = some now } in
      elim (get_entry timed.journal) [
        | err e ↦ (timed, err (foreign e))
        | ok entry ↦ elim (format_entry enc timed.content_formatter entry) [
          | err e ↦ (timed, err (foreign e))
          | ok entry_bytes ↦
              send_message entry_bytes
                (record timed {
                  limit =
                      if timed.use_limit && ltb 0 timed.limit then timed.limit - 1 else timed.limit;
                  n = (timed.n + 1) % 2 ^ 64;
                })
                size
        ]
      ]

  -- At the end of the journal: io.EOF, or a ping to an event stream that was idle for long.
  unfoldable pub read_end : ℕ → Reader Journal → ℕ → Reader Journal × Result Error Bytes
  read_end now r size =
      if is_event_stream r.content_formatter && not (is_recent now r.eof_time)
      then send_message ping (record r { eof_time = some now }) size
      else (r, err eof)

  -- The journal is moved by one entry.
  unfoldable pub read_next : ℕ → Reader Journal → ℕ → Reader Journal × Result Error Bytes
  read_next now r size =
      let (moved, j) = if r.read_reverse then previous r.journal else next r.journal in
      elim moved [
        | err e ↦ (record r { journal = j }, err (foreign e))
        | ok zero ↦ read_end now (record r { journal = j }) size
        | ok (suc count) ↦ read_current now (record r { journal = j }) size
      ]

  unfoldable pub read : ℕ → Reader Journal → ℕ → Reader Journal × Result Error Bytes
  read now r size = elim r.msg_reader [
    | some message ↦ send_message message r size
    | none ↦
        if r.use_limit && (r.limit == 0)
        then (r, err eof)
        else if skip_read r
        then read_current now r size
        else read_next now r size
  ]

  unfoldable pub close_reader : Reader Journal → Option Bytes
  close_reader r = close r.journal

  -- `for _, fn := range r.matchFns { fn(newJournal) }`
  unfoldable pub apply_matches : List (Journal → Journal) → Journal → Journal
  apply_matches [] j = j
  apply_matches (fn ∷ fns) j = apply_matches fns (fn j)

  -- The journal was rotated: it is closed and opened again, with the matches of the request, and the
  -- old place is sought; that it is not found is no error.
  unfoldable pub reopen : System → Reader Journal → Reader Journal × Option Error
  unfolding apply_matches seek_reader
  reopen system r = elim (get_cursor r.journal) [
    | err e ↦ (r, some (no_current_cursor e))
    | ok cursor ↦ elim (close r.journal) [
      | some e ↦ (r, some (not_closed e))
      | none ↦ elim (new_journal system) [
        | err e ↦ (r, some (not_reopened e))
        | ok j ↦
            let (r', _) =
              seek_reader sd cursor (record r { journal = apply_matches r.match_fns j }) in
            (r', none)
      ]
    ]
  ]

  -- io.Copy(writer, r), at one time.
  unfoldable pub copy_entries : ℕ → ℕ → Reader Journal → Reader Journal × Bytes × Option Error
  unfolding copy
  copy_entries fuel now = copy (read now) is_eof out_of_fuel fuel

  -- Follow: the reader, what was written and the error. `duration` is how long it waits at the end.
  unfoldable pub follow :
      ℕ → ℕ → System → ℕ → Reader Journal → Reader Journal × Bytes × Option Error
  unfolding copy_entries reopen
  follow fuel now system duration r =
      let (r', out, failed) = copy_entries fuel now r in
      elim failed [
        | some e ↦ (r', out, some e)
        | none ↦ elim out [
          | c ∷ s ↦ (r', c ∷ s, none)
          | [] ↦
              let (event, j) = wait duration r'.journal in
              elim event [
                | invalidate ↦
                    let (r'', e) = reopen system (record r' { journal = j }) in (r'', [], e)
                | _ ↦ (record r' { journal = j }, [], none)
              ]
        ]
      ]
