-- ===== src/Journal/Options.antt =====
-- The seeks of Reader and the options of dcos-log/journal/reader/config.go, and NewReader of
-- dcos-log/journal/reader/read.go.
use dcos_log.Base.{
  ℕ, zero, suc, ltb, if◌then◌else◌, Bool, false, List, [], ◌∷◌, ◌++◌, Bytes, is_empty, Option, none,
  some, Result, ok, err, ℤ, pos, negsuc, ◌-ℤ◌, to_uint64,
}
use dcos_log.Journal.Cursor.{validate_cursor}
use dcos_log.Journal.Format.{quotient}
use dcos_log.Journal.Types.{
  Sdjournal, Reader, JournalEntryMatch, EntryFormatter, format_text, Error, cursor_format,
  invalid_duration, tail_not_reached, cursor_not_found, foreign,
}

-- The string of a match, for AddMatch.
unfoldable pub match_string : JournalEntryMatch → Bytes
match_string m = m.field ++ (b'=' ∷ m.value)

module _ (sd : Sdjournal) where
  open sd use {
    System, Journal, new_journal, next, next_skip, previous_skip, seek_tail, seek_cursor,
    seek_realtime_usec, test_cursor, add_match, add_disjunction,
  }

  -- A call that may fail, and that changes the reader in place: the reader and the error.
  abbrev pub Effect : Type 0
  Effect = Reader Journal → Reader Journal × Option Error

  unfoldable pub skip_next : ℕ → Effect
  skip_next n r =
      let (result, j) = next_skip n r.journal in
      elim result [
        | ok count ↦ (record r { journal = j; skipped_next = count }, none)
        | err e ↦ (record r { journal = j; skipped_next = 0 }, some (foreign e))
      ]

  abbrev skip_back : ℕ → Effect
  skip_back n r =
      let (result, j) = previous_skip n r.journal in
      elim result [
        | ok count ↦ (record r { journal = j; skipped_prev = count }, none)
        | err e ↦ (record r { journal = j; skipped_prev = 0 }, some (foreign e))
      ]

  -- Without a cursor the journal is moved to its tail first.
  unfoldable pub skip_prev : ℕ → Effect
  skip_prev n r =
      if is_empty r.cursor
      then (let (failed, j) = seek_tail r.journal in
          elim failed [
            | some e ↦ (record r { journal = j }, some (tail_not_reached e))
            | none ↦ skip_back n (record r { journal = j })
          ])
      else skip_back n r

  -- The cursor is sought, the journal moved on to it, and the place tested.
  unfoldable pub seek_reader : Bytes → Effect
  seek_reader c r =
      let (failed, j) = seek_cursor c r.journal in
      elim failed [
        | some e ↦ (record r { journal = j }, some (foreign e))
        | none ↦
            let (moved, j') = next j in
            elim moved [
              | err e ↦ (record r { journal = j' }, some (foreign e))
              | ok count ↦ elim (test_cursor c j') [
                | some e ↦ (record r { journal = j' }, some (cursor_not_found c e))
                | none ↦ (record r { journal = j' }, none)
              ]
            ]
      ]

  unfoldable pub option_read_reverse : Bool → Effect
  option_read_reverse reverse r = (record r { read_reverse = reverse }, none)

  unfoldable pub option_limit : ℕ → Effect
  option_limit n r = (record r { limit = n; use_limit = ltb 0 n }, none)

  -- The functions that add matches to a journal; the errors of AddMatch are not looked at.
  unfoldable pub add_matches : List JournalEntryMatch → Journal → Journal
  unfolding match_string
  add_matches [] j = j
  add_matches (m ∷ ms) j = add_matches ms (add_match (match_string m) j)

  unfoldable pub add_matches_or : List JournalEntryMatch → Journal → Journal
  unfolding match_string
  add_matches_or [] j = j
  add_matches_or (m ∷ ms) j = add_matches_or ms (add_disjunction (add_match (match_string m) j))

  -- The matches are applied, and kept for a journal that is opened again.
  abbrev apply_match : (Journal → Journal) → Effect
  apply_match fn r = (record r { journal = fn r.journal; match_fns = r.match_fns ++ fn ∷ [] }, none)

  unfoldable pub option_match : List JournalEntryMatch → Effect
  unfolding add_matches
  option_match m = apply_match (add_matches m)

  unfoldable pub option_match_or : List JournalEntryMatch → Effect
  unfolding add_matches_or
  option_match_or m = apply_match (add_matches_or m)

  unfoldable pub option_seek_cursor : Bytes → Effect
  unfolding seek_reader validate_cursor
  option_seek_cursor c r =
      if is_empty c
      then (r, none)
      else if validate_cursor c
      then seek_reader c (record r { cursor = c })
      else (r, some cursor_format)

  unfoldable pub option_skip_next : ℕ → Effect
  unfolding skip_next
  option_skip_next n r = if ltb 0 n then skip_next n r else (r, none)

  unfoldable pub option_skip_prev : ℕ → Effect
  unfolding skip_prev
  option_skip_prev n r = if ltb 0 n then skip_prev n r else (r, none)

  -- A duration of `d` nanoseconds before the time `now`, in nanoseconds since 1970.
  unfoldable pub option_since : ℕ → ℤ → Effect
  option_since now (negsuc n) r = (r, some invalid_duration)
  option_since now (pos zero) r = (r, some invalid_duration)
  option_since now (pos (suc n)) r =
      let (failed, j) =
        seek_realtime_usec (to_uint64 (quotient (pos now -ℤ pos (suc n)) 1000)) r.journal in
      elim failed [
        | some e ↦ (record r { journal = j }, some (foreign e))
        | none ↦ (record r { journal = j }, none)
      ]

  -- `if opt != nil { … }` over the options in turn; the first error ends the loop.
  unfoldable pub apply_options : List (Option Effect) → Effect
  apply_options [] r = (r, none)
  apply_options (none ∷ opts) r = apply_options opts r
  apply_options (some opt ∷ opts) r =
      let (r', failed) = opt r in
      elim failed [ some e ↦ (r', some e) | none ↦ apply_options opts r' ]

  abbrev pub fresh_reader : Journal → Option EntryFormatter → Reader Journal
  fresh_reader j formatter = record {
    journal = j;
    cursor = [];
    limit = 0;
    use_limit = false;
    skipped_next = 0;
    skipped_prev = 0;
    read_reverse = false;
    eof_time = none;
    msg_reader = none;
    content_formatter = elim formatter [ none ↦ format_text | some f ↦ f ];
    n = 0;
    match_fns = [];
  }

  -- NewReader; a nil formatter stands for FormatText.
  unfoldable pub new_reader :
      System → Option EntryFormatter → List (Option Effect) → Result Error (Reader Journal)
  unfolding apply_options
  new_reader system formatter opts = elim (new_journal system) [
    | err e ↦ err (foreign e)
    | ok j ↦
        let (r, failed) = apply_options opts (fresh_reader j formatter) in
        elim failed [ some e ↦ err e | none ↦ ok r ]
  ]
