-- ===== src/Journal/Idle.antt =====
-- An event stream at the end of the journal: the pings of Read in dcos-log/journal/reader/read.go.
use mathlib.Core.List.{append-nil}
use dcos_log.Base.{
  ℕ, ◌+◌, ◌≤◌, ◌<◌, ◌≡◌, refl, true, false, arith, Bytes, length, some, none, ok, err, [], ◌∷◌,
  ◌++◌, take, drop, take-append-drop, length-drop, sym, ◌∙◌, ap,
}
use dcos_log.Journal.Types.{Sdjournal, Encoders, Reader, eof}
use dcos_log.Journal.Reading.{
  read, read_next, read_end, skip_read, send_message, ping, ping_interval, is_event_stream,
  is_recent,
}

drop_past : (xs : Bytes) (n : ℕ) → length xs ≤ n → drop n xs ≡ []
drop_past xs n h = none_left (drop n xs) (omega (arith, length-drop n xs))
  where
    none_left : (ys : Bytes) → length ys ≤ 0 → ys ≡ []
    none_left [] k = refl
    none_left (y ∷ ys) k = absurd (omega arith)

take_past : (xs : Bytes) (n : ℕ) → length xs ≤ n → take n xs ≡ xs
take_past xs n h =
    sym (append-nil (take n xs))
    ∙ ap (λ t. take n xs ++ t) (sym (drop_past xs n h))
    ∙ take-append-drop n xs

module _ (sd : Sdjournal) (enc : Encoders) where
  -- An event stream between two entries, with the journal at its end.
  pub record IsIdle (r : Reader sd.Journal) (j : sd.Journal) : Type 0 where
    pub stream : is_event_stream r.content_formatter ≡ true
    pub between : r.msg_reader ≡ none
    pub forward : r.read_reverse ≡ false
    pub unlimited : r.use_limit ≡ false
    pub started : skip_read sd enc r ≡ false
    pub at_end : sd.next r.journal ≡ (ok 0, j)

  -- The reader that has sent a ping.
  abbrev pub pinged : ℕ → Reader sd.Journal → sd.Journal → Reader sd.Journal
  pinged now r j = record r { journal = j; eof_time = some now; msg_reader = none }

  -- At the end of the journal a call of Read for an event stream that was idle for long returns a ping,
  -- whole, to a buffer that holds it, and the next call within the interval of 15 seconds returns
  -- nothing but the end. The stream has no limit and goes forward, and the journal stays at its end.
  pub read-ping :
      (r : Reader sd.Journal) (j k : sd.Journal) (now later size : ℕ)
      → IsIdle r j
      → is_recent now r.eof_time ≡ false
      → length ping ≤ size
      → IsIdle (pinged now r j) k
      → later < now + ping_interval
      → (read sd enc now r size ≡ (pinged now r j, ok ping))
        × (read sd enc later (pinged now r j) size
            ≡ (record (pinged now r j) { journal = k }, err eof))
  unfolding read read_next read_end send_message
  read-ping r j k now later size idle old fits again soon =
      let b = idle.between in
      let whole = take_past ping size fits in
      let nothing_left = drop_past ping size fits in
      let recent : is_recent later (some now) ≡ true = ground arith in (ground arith, ground arith)
