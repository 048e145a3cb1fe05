-- ===== src/Journal/Entries.antt =====
-- Copying the entries of a journal: a reader of dcos-log/journal/reader that goes forward.
use dcos_log.Base.{
  ℕ, zero, suc, ◌+◌, ◌-◌, ◌<◌, ◌^◌, ◌%◌, ◌≡◌, refl, ap, sym, subst, Bool, true, false, ◌&&◌, ltb,
  ◌==◌, ◌⊎◌, if◌then◌else◌, List, [], ◌∷◌, ◌++◌, arith, Bytes, length, take, none, some, ok, err,
  copy_buffer, inl, inr, Bool-cases,
}
use dcos_log.Journal.Types.{Sdjournal, Encoders, Reader, JournalEntry, eof}
use dcos_log.Journal.Format.{format_entry}
use dcos_log.Journal.Reading.{
  is_event_stream, send_message, skip_read, read_current, read_next, read_end, read,
}
use dcos_log.Journal.Delivery.{
  IsLog, Formats, concat, within_limit, Copies, Copies-end, Copies-sent, holding,
}

module _ (sd : Sdjournal) (enc : Encoders) (now : ℕ) (view : sd.Journal → List JournalEntry)
    (log : IsLog sd view) where
  -- A reader between two entries that goes forward and does not send pings.
  pub record IsForward (r : Reader sd.Journal) : Type 0 where
    pub between : r.msg_reader ≡ none
    pub forward : r.read_reverse ≡ false
    pub no_pings : is_event_stream r.content_formatter ≡ false

  -- The reader when an entry is made the message on the journal `j`.
  abbrev pub took : Reader sd.Journal → sd.Journal → Reader sd.Journal
  took r j = record r {
    journal = j;
    eof_time = some now;
    limit = if r.use_limit && ltb 0 r.limit then r.limit - 1 else r.limit;
    n = (r.n + 1) % 2 ^ 64;
  }

  read_limit_reached :
      (r : Reader sd.Journal)
      → IsForward r
      → r.use_limit ≡ true
      → r.limit ≡ 0
      → read sd enc now r copy_buffer ≡ (r, err eof)
  unfolding read
  read_limit_reached r f used zero_left = let b = f.between in ground arith

  read_at_end :
      (r : Reader sd.Journal)
      → IsForward r
      → skip_read sd enc r ≡ false
      → view r.journal ≡ []
      → read sd enc now r copy_buffer ≡ (r, err eof)
  unfolding read read_next read_end
  read_at_end r f moves none_left =
      let b = f.between in
      let fw = f.forward in
      let np = f.no_pings in let e = log.at_end r.journal none_left in ground arith

  pub read_moves :
      (r : Reader sd.Journal) (j : sd.Journal) (entry : JournalEntry) (t : Bytes)
      → r.msg_reader ≡ none
      → r.read_reverse ≡ false
      → (r.use_limit && (r.limit == 0)) ≡ false
      → skip_read sd enc r ≡ false
      → sd.next r.journal ≡ (ok 1, j)
      → sd.get_entry j ≡ ok entry
      → format_entry enc r.content_formatter entry ≡ ok t
      → read sd enc now r copy_buffer ≡ send_message sd enc t (took r j) copy_buffer
  unfolding read read_next read_current
  read_moves r j entry t b fw left moves step got text = ground arith

  read_stays :
      (r : Reader sd.Journal) (entry : JournalEntry) (t : Bytes)
      → IsForward r
      → (r.use_limit && (r.limit == 0)) ≡ false
      → skip_read sd enc r ≡ true
      → sd.get_entry r.journal ≡ ok entry
      → format_entry enc r.content_formatter entry ≡ ok t
      → read sd enc now r copy_buffer ≡ send_message sd enc t (took r r.journal) copy_buffer
  unfolding read read_current
  read_stays r entry t f left stays got text = let b = f.between in ground arith

  pub moves_again :
      (r : Reader sd.Journal) (j : sd.Journal)
      → r.n + 1 < 2 ^ 64
      → skip_read sd enc (holding sd enc now (took r j) none) ≡ false
  unfolding skip_read
  moves_again r j h = ground arith

  limit_step :
      (used : Bool) (limit : ℕ) (t : Bytes) (ts : List Bytes)
      → (used && (limit == 0)) ≡ false
      → t ++ concat (within_limit used (if used && ltb 0 limit then limit - 1 else limit) ts)
        ≡ concat (within_limit used limit (t ∷ ts))
  limit_step false limit t ts h = refl
  limit_step true zero t ts h = ground arith
  limit_step true (suc k) t ts h =
      ap (λ (m : ℕ). t ++ concat (take m ts)) {x = if ltb 0 (suc k) then suc k - 1 else suc k}
        {y = k} (ground arith)

  nothing_left : (used : Bool) (limit : ℕ) → concat (within_limit used limit []) ≡ []
  nothing_left false limit = refl
  nothing_left true zero = refl
  nothing_left true (suc k) = refl

  -- What a call of Read that takes the entry `t` leaves to the later calls.
  after_entry :
      (r : Reader sd.Journal) (j : sd.Journal) (t : Bytes) (ts : List Bytes)
      → (r.use_limit && (r.limit == 0)) ≡ false
      → read sd enc now r copy_buffer ≡ send_message sd enc t (took r j) copy_buffer
      → Copies sd enc now
          (holding sd enc now (took r j) none)
          (concat (within_limit r.use_limit (took r j).limit ts))
      → Copies sd enc now r (concat (within_limit r.use_limit r.limit (t ∷ ts)))
  after_entry r j t ts left sent later =
      subst (Copies sd enc now r) (limit_step r.use_limit r.limit t ts left)
        (Copies-sent sd enc now r (took r j) t _ sent later)

  limit_used_up :
      (r : Reader sd.Journal) (t : Bytes) (ts : List Bytes)
      → IsForward r
      → (r.use_limit && (r.limit == 0)) ≡ true
      → Copies sd enc now r (concat (within_limit r.use_limit r.limit (t ∷ ts)))
  limit_used_up r t ts f used_up =
      let used : r.use_limit ≡ true = ground arith in
      let zero_left : r.limit ≡ 0 = ground arith in
      subst (Copies sd enc now r)
        (sym ((λ i. concat (within_limit (used i) (zero_left i) (t ∷ ts)))))
        (Copies-end sd enc now r r (read_limit_reached r f used zero_left))

  Copies-running :
      (es : List JournalEntry) (ts : List Bytes) (r : Reader sd.Journal)
      → IsForward r
      → skip_read sd enc r ≡ false
      → view r.journal ≡ es
      → r.n + length es < 2 ^ 64
      → Formats enc r.content_formatter es ts
      → Copies sd enc now r (concat (within_limit r.use_limit r.limit ts))
  Copies-running [] [] r f moves v bound texts =
      subst (Copies sd enc now r) (sym (nothing_left r.use_limit r.limit))
        (Copies-end sd enc now r r (read_at_end r f moves v))
  Copies-running [] (t ∷ ts) r f moves v bound texts = absurd texts
  Copies-running (e ∷ es) [] r f moves v bound texts = absurd texts
  Copies-running (e ∷ es) (t ∷ ts) r f moves v bound (text, texts) =
      elim (Bool-cases (r.use_limit && (r.limit == 0))) [
        | inl used_up ↦ limit_used_up r t ts f used_up
        | inr left ↦
            let (j, step, v', got) = log.forward r.journal e es v in
            after_entry r j t ts left
              (read_moves r j e t f.between f.forward left moves step got text)
              (Copies-running es ts (holding sd enc now (took r j) none)
                (record { between = refl; forward = f.forward; no_pings = f.no_pings })
                (moves_again r j (omega arith)) v' (ground arith) texts)
      ]

  -- The entries in front of a reader: with the one on which the journal stands, if it is not moved for
  -- the first entry.
  abbrev pub IsDue : Reader sd.Journal → List JournalEntry → Type 0
  IsDue r es =
      ((skip_read sd enc r ≡ false) × (view r.journal ≡ es))
      ⊎ ((e : JournalEntry) × (later : List JournalEntry) × (es ≡ e ∷ later)
          × (skip_read sd enc r ≡ true)
          × (sd.get_entry r.journal ≡ ok e)
          × (view r.journal ≡ later))

  -- Copying from a reader that goes forward writes the texts of the entries in front of it, in their
  -- order, no more than its limit, each whole and once, and ends without an error: some fuel is enough,
  -- and more changes nothing. The journal behaves as a log that does not grow meanwhile, the entries'
  -- formats succeed, the format is not an event stream, and 64 bits count the entries.
  pub copy_entries-concat :
      (es : List JournalEntry) (ts : List Bytes) (r : Reader sd.Journal)
      → IsForward r
      → IsDue r es
      → r.n + length es < 2 ^ 64
      → Formats enc r.content_formatter es ts
      → Copies sd enc now r (concat (within_limit r.use_limit r.limit ts))
  copy_entries-concat es ts r f (inl (moves, v)) bound texts =
      Copies-running es ts r f moves v bound texts
  copy_entries-concat es [] r f (inr (e, later, same, stays, got, v)) bound texts =
      absurd (subst (λ l. Formats enc r.content_formatter l []) same texts)
  copy_entries-concat es (t ∷ ts) r f (inr (e, later, same, stays, got, v)) bound texts =
      let (text, texts') = subst (λ l. Formats enc r.content_formatter l (t ∷ ts)) same texts in
      let longer = ap length same in
      elim (Bool-cases (r.use_limit && (r.limit == 0))) [
        | inl used_up ↦ limit_used_up r t ts f used_up
        | inr left ↦ after_entry r r.journal t ts left (read_stays r e t f left stays got text) (
            Copies-running later ts (holding sd enc now (took r r.journal) none)
              (record { between = refl; forward = f.forward; no_pings = f.no_pings })
              (moves_again r r.journal (omega arith)) v (ground arith) texts')
      ]
