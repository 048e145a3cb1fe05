-- ===== src/Journal/Limit.antt =====
-- The limit of a journal reader of dcos-log/journal/reader/read.go, over any sequence of calls.
use dcos_log.Base.{
  ℕ, ◌+◌, ◌≤◌, ◌<◌, ◌^◌, ◌≡◌, zero, suc, ◌≢◌, ◌-◌, ◌%◌, if◌then◌else◌, refl, true, arith, Bytes,
  Result, [], none, some, Option, ok, err, ltb, Bool-cases, inl, inr, ◌&&◌, ◌==◌,
}
use dcos_log.Journal.Types.{Sdjournal, Encoders, JournalEntry, Reader, EntryFormatter}
use dcos_log.Journal.Format.{format_entry}
use dcos_log.Journal.Options.{fresh_reader, option_limit, seek_reader}
use dcos_log.Journal.Reading.{read, read_next, read_end, read_current, send_message, reopen, ping}

module _ (sd : Sdjournal) (enc : Encoders) where
  -- The entries taken and those that the limit still allows are `limit` together, and a message that is
  -- kept is not used up.
  pub record IsCounted (limit : ℕ) (r : Reader sd.Journal) : Type 0 where
    pub limited : r.use_limit ≡ true
    pub counted : r.limit + r.n ≡ limit
    pub pending : r.msg_reader ≢ some []

  -- What a client of the reader can do: a call of Read, at any time and with any buffer, and what Follow
  -- does with a journal that was rotated.
  pub data Step (r : Reader sd.Journal) : Reader sd.Journal → Type 0 where
    call : (now size : ℕ) → Step r (read sd enc now r size).0
    rotate : (system : sd.System) → Step r (reopen sd enc system r).0

  pub data Reach (r : Reader sd.Journal) : Reader sd.Journal → Type 0 where
    here : Reach r r
    next : {s t : Reader sd.Journal} → Reach r s → Step s t → Reach r t

  send_message-IsCounted :
      (m : Bytes) (limit size : ℕ) (r : Reader sd.Journal)
      → r.use_limit ≡ true
      → r.limit + r.n ≡ limit
      → IsCounted limit (send_message sd enc m r size).0
  unfolding send_message
  send_message-IsCounted m limit size r l c = ground arith

  read_current-IsCounted :
      (now limit size : ℕ) (r : Reader sd.Journal)
      → limit < 2 ^ 64
      → IsCounted limit r
      → 0 < r.limit
      → IsCounted limit (read_current sd enc now r size).0
  unfolding read_current
  read_current-IsCounted now limit size r fits h left = go (sd.get_entry r.journal) refl
    where
      taken : Reader sd.Journal
      taken = record r {
        eof_time = some now;
        limit = if r.use_limit && ltb 0 r.limit then r.limit - 1 else r.limit;
        n = (r.n + 1) % 2 ^ 64;
      }

      limited : taken.use_limit ≡ true
      limited = h.limited

      counted : taken.limit + taken.n ≡ limit
      counted = ground arith

      formatted :
          (entry : JournalEntry)
          → sd.get_entry r.journal ≡ ok entry
          → (text : Result Bytes Bytes) → format_entry enc r.content_formatter entry ≡ text
          → IsCounted limit (read_current sd enc now r size).0
      formatted entry g (err e) k = ground (arith, g, k)
      formatted entry g (ok text) k =
          let sent = send_message-IsCounted text limit size taken limited counted in
          ground (arith, g, k, sent)

      go :
          (got : Result Bytes JournalEntry)
          → sd.get_entry r.journal ≡ got
          → IsCounted limit (read_current sd enc now r size).0
      go (err e) g = ground (arith, g)
      go (ok entry) g = formatted entry g (format_entry enc r.content_formatter entry) refl

  read_next-IsCounted :
      (now limit size : ℕ) (r : Reader sd.Journal)
      → limit < 2 ^ 64
      → IsCounted limit r
      → 0 < r.limit
      → IsCounted limit (read_next sd enc now r size).0
  unfolding read_next read_end
  read_next-IsCounted now limit size r fits h left =
      go (if r.read_reverse then sd.previous r.journal else sd.next r.journal) refl
    where
      go :
          (got : Result Bytes ℕ × sd.Journal)
          → (if r.read_reverse then sd.previous r.journal else sd.next r.journal) ≡ got
          → IsCounted limit (read_next sd enc now r size).0
      go (err e, j) g = ground (arith, g)
      go (ok zero, j) g =
          let pinged =
            send_message-IsCounted ping limit size (record r { journal = j; eof_time = some now })
              h.limited h.counted in
          ground (arith, g, pinged)
      go (ok (suc count), j) g =
          let taken =
            read_current-IsCounted now limit size (record r { journal = j }) fits
              (record { limited = h.limited; counted = h.counted; pending = h.pending }) left in
          ground (arith, g, taken)

  read-IsCounted :
      (now limit size : ℕ) (r : Reader sd.Journal)
      → limit < 2 ^ 64
      → IsCounted limit r
      → IsCounted limit (read sd enc now r size).0
  unfolding read
  read-IsCounted now limit size r fits h = go r.msg_reader refl
    where
      go : (got : Option Bytes) → r.msg_reader ≡ got → IsCounted limit (read sd enc now r size).0
      go (some m) g =
          let sent = send_message-IsCounted m limit size r h.limited h.counted in
          ground (arith, g, sent)
      go none g = elim (Bool-cases (r.limit == 0)) [
        | inl used_up ↦ ground (arith, g)
        | inr some_left ↦
            let left : 0 < r.limit = ground arith in
            let taken = read_current-IsCounted now limit size r fits h left in
            let moved = read_next-IsCounted now limit size r fits h left in
            ground (arith, g, taken, moved)
      ]

  reopen-IsCounted :
      (limit : ℕ) (system : sd.System) (r : Reader sd.Journal)
      → IsCounted limit r
      → IsCounted limit (reopen sd enc system r).0
  unfolding reopen seek_reader
  reopen-IsCounted limit system r h = ground arith

  Reach-IsCounted :
      (limit : ℕ) {r s : Reader sd.Journal}
      → limit < 2 ^ 64
      → IsCounted limit r
      → Reach r s
      → IsCounted limit s
  Reach-IsCounted limit fits h here = h
  Reach-IsCounted limit fits h (next {s} reached (call now size)) =
      read-IsCounted now limit size s fits (Reach-IsCounted limit fits h reached)
  Reach-IsCounted limit fits h (next {s} reached (rotate system)) =
      reopen-IsCounted limit system s (Reach-IsCounted limit fits h reached)

  -- A reader that OptionLimit has given a limit takes no more entries than that, whatever the journal
  -- does, over all calls of Read, at any time and with any buffers, and over all rotations of the
  -- journal: the entries taken and those that are left are the limit. The limit is not 0.
  pub option_limit-IsCounted :
      (j : sd.Journal) (formatter : Option EntryFormatter) (limit : ℕ) (s : Reader sd.Journal)
      → 0 < limit
      → limit < 2 ^ 64
      → Reach (option_limit sd limit (fresh_reader sd j formatter)).0 s
      → IsCounted limit s × (s.n ≤ limit)
  unfolding option_limit
  option_limit-IsCounted j formatter limit s positive fits reached =
      let start : IsCounted limit (option_limit sd limit (fresh_reader sd j formatter)).0 = record {
        limited = ground arith;
        counted = omega arith;
        pending = λ e. cc;
      } in
      let h = Reach-IsCounted limit fits start reached in (h, omega arith)
