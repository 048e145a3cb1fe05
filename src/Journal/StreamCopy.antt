-- ===== src/Journal/StreamCopy.antt =====
-- What io.Copy writes at one time of a stream: Read of dcos-log/journal/reader/read.go on a journal that
-- grows.
use dcos_log.Base.{
  ℕ, suc, ◌≡◌, ◌≢◌, refl, ap, sym, subst, ◌∙◌, true, false, not, ◌&&◌, ◌==◌, List, [], ◌∷◌, ◌++◌,
  append_assoc, arith, All, Bool-cases, inl, inr, ◌⊎◌, Bytes, length, none, some, err, copy_buffer,
  Option,
}
use dcos_log.Journal.Types.{Sdjournal, Encoders, Reader, JournalEntry, EntryFormatter, eof}
use dcos_log.Journal.Format.{format_entry}
use dcos_log.Journal.Reading.{
  is_event_stream, is_recent, ping, send_message, skip_read, read, read_next, read_end,
}
use dcos_log.Journal.Delivery.{Formats, concat, Leads, Leads-end, Leads-sent, holding}
use dcos_log.Journal.Entries.{took, read_moves, moves_again}
use mathlib.Core.List.{append-nil}
use dcos_log.Journal.Turns.{Reaches, here, past, Turn, news, pings, rests}
use dcos_log.Journal.Stream.{
  IsGrowing, IsStreaming, IsQuiet, Sends, idle, Sends-concat, Prints, Formats-Prints,
}

-- The time of the last text, when the entries are sent.
unfoldable stamp : ℕ → List JournalEntry → Option ℕ → Option ℕ
stamp now [] last = last
stamp now (e ∷ es) last = some now

stamp-same : (now : ℕ) (es : List JournalEntry) → stamp now es (some now) ≡ some now
unfolding stamp
stamp-same now [] = refl
stamp-same now (e ∷ es) = refl

module _ (sd : Sdjournal) (enc : Encoders) (view rest : sd.Journal → List JournalEntry)
    (growing : IsGrowing sd view rest) where
  read_at_end :
      (now : ℕ) (f : EntryFormatter) (r : Reader sd.Journal)
      → IsStreaming sd enc view rest growing f r
      → view r.journal ≡ []
      → IsQuiet now r
      → read sd enc now r copy_buffer ≡ (r, err eof)
  unfolding read read_next read_end
  read_at_end now f r s none_left quiet =
      let b = s.between in
      let fw = s.forward in
      let u = s.unlimited in
      let m = s.started in let e = growing.log.at_end r.journal none_left in ground arith

  -- A reader that has copied `es` and has nothing more in front of it.
  pub record Copied (f : EntryFormatter) (r s : Reader sd.Journal) (es : List JournalEntry)
      : Type 0 where
    pub streaming : IsStreaming sd enc view rest growing f s
    pub at_end : view s.journal ≡ []
    pub sent : rest r.journal ≡ es ++ rest s.journal

  copy_running :
      (now : ℕ) (f : EntryFormatter) (es : List JournalEntry) (ts : List Bytes)
      (r : Reader sd.Journal)
      → IsStreaming sd enc view rest growing f r
      → view r.journal ≡ es
      → (IsQuiet now r ⊎ (es ≢ []))
      → Formats enc f es ts
      → (s : Reader sd.Journal) × Leads sd enc now r (concat ts) s
        × Copied f r s es
        × Reaches sd r.journal es s.journal
        × (s.eof_time ≡ stamp now es r.eof_time)
  unfolding stamp
  copy_running now f [] [] r str v quiet texts =
      let q : IsQuiet now r = elim quiet [ inl h ↦ h | inr h ↦ absurd (h refl) ] in
      (
        r,
        Leads-end sd enc now r r (read_at_end now f r str v q),
        record { streaming = str; at_end = v; sent = refl },
        here,
        refl,
      )
  copy_running now f [] (t ∷ ts) r str v quiet texts = absurd texts
  copy_running now f (e ∷ es) [] r str v quiet texts = absurd texts
  copy_running now f (e ∷ es) (t ∷ ts) r str v quiet (text, texts) =
      let (j, step, v', got) = growing.log.forward r.journal e es v in
      let n = str.counts in
      let moved = growing.advances r.journal j e es v step in
      let one_less : length (rest r.journal) ≡ suc (length (rest j)) = ap length moved in
      let u = str.unlimited in
      let unlimited : (r.use_limit && (r.limit == 0)) ≡ false = ground arith in
      let next = holding sd enc now (took sd enc now view growing.log r j) none in
      let (s, leads, copied, reaches, timed) =
        copy_running now f es ts next
          (record {
            format = str.format;
            between = refl;
            forward = str.forward;
            unlimited = str.unlimited;
            started = moves_again sd enc now view growing.log r j (omega arith);
            counts = omega arith;
          })
          v' (inl (ground arith)) texts in
      (
        s,
        Leads-sent sd enc now r (took sd enc now view growing.log r j) s t (concat ts)
            (read_moves sd enc now view growing.log r j e t str.between str.forward unlimited
              str.started step got (ap (λ g. format_entry enc g e) str.format ∙ text))
            leads,
        record {
          streaming = copied.streaming;
          at_end = copied.at_end;
          sent = moved ∙ ap (λ t. e ∷ t) copied.sent;
        },
        past step got reaches,
        timed ∙ stamp-same now es,
      )

  read-ping_due :
      (now : ℕ) (f : EntryFormatter) (r : Reader sd.Journal)
      → IsStreaming sd enc view rest growing f r
      → view r.journal ≡ []
      → (is_event_stream r.content_formatter && not (is_recent now r.eof_time)) ≡ true
      → read sd enc now r copy_buffer
        ≡ send_message sd enc ping (record r { eof_time = some now }) copy_buffer
  unfolding read read_next read_end
  read-ping_due now f r s none_left old =
      let b = s.between in
      let fw = s.forward in
      let u = s.unlimited in
      let m = s.started in let e = growing.log.at_end r.journal none_left in ground arith

  -- What a copy at one time writes: the entries that can be seen, or a ping where there are none and the
  -- stream was idle for long.
  pub record CopiesSome (now : ℕ) (f : EntryFormatter) (r : Reader sd.Journal) : Type 0 where
    pub after : Reader sd.Journal
    pub out : Bytes
    pub leads : Leads sd enc now r out after
    pub copied : Copied f r after (view r.journal)
    pub sends :
        (later : List JournalEntry) (text : Bytes)
        → Sends enc f later text
        → Sends enc f (view r.journal ++ later) (out ++ text)
    pub turn :
        Turn sd enc view f now r.eof_time r.journal
          (view r.journal)
          out
          after.journal
          after.eof_time

  copy_seen :
      (now : ℕ) (f : EntryFormatter) (r : Reader sd.Journal) (e : JournalEntry)
      (es : List JournalEntry)
      → IsStreaming sd enc view rest growing f r
      → All (Prints enc f) (e ∷ es)
      → view r.journal ≡ e ∷ es
      → CopiesSome now f r
  unfolding stamp
  copy_seen now f r e es str prints v =
      let (ts, texts) = Formats-Prints enc f (e ∷ es) prints in
      let (s, leads, copied, reaches, timed) =
        copy_running now f (e ∷ es) ts r str v (inr (cc)) texts in
      record {
        after = s;
        out = concat ts;
        leads = leads;
        copied = subst (Copied f r s) (sym v) copied;
        sends = λ later text sent.
            subst (λ l. Sends enc f (l ++ later) (concat ts ++ text)) (sym v)
              (Sends-concat enc f (e ∷ es) later ts text texts sent);
        turn =
            subst
              (λ l. Turn sd enc view f now r.eof_time r.journal l (concat ts) s.journal s.eof_time)
              (sym v)
              (subst
                (λ t. Turn sd enc view f now r.eof_time r.journal (e ∷ es) (concat ts) s.journal t)
                (sym timed) (news e es ts v reaches copied.at_end texts));
      }

  copy_quiet :
      (now : ℕ) (f : EntryFormatter) (r : Reader sd.Journal)
      → IsStreaming sd enc view rest growing f r
      → view r.journal ≡ []
      → IsQuiet now r
      → CopiesSome now f r
  copy_quiet now f r str v quiet = record {
    after = r;
    out = [];
    leads = Leads-end sd enc now r r (read_at_end now f r str v quiet);
    copied = record { streaming = str; at_end = v; sent = ap (λ l. l ++ rest r.journal) (sym v) };
    sends = λ later text sent. subst (λ l. Sends enc f (l ++ later) text) (sym v) sent;
    turn =
        subst (λ l. Turn sd enc view f now r.eof_time r.journal l [] r.journal r.eof_time) (sym v)
          (rests v (
            subst (λ g. (is_event_stream g && not (is_recent now r.eof_time)) ≡ false) str.format
              quiet));
  }

  copy_ping :
      (now : ℕ) (f : EntryFormatter) (r : Reader sd.Journal)
      → IsStreaming sd enc view rest growing f r
      → view r.journal ≡ []
      → (is_event_stream r.content_formatter && not (is_recent now r.eof_time)) ≡ true
      → CopiesSome now f r
  unfolding skip_read
  copy_ping now f r str none_left old =
      let after = record r { eof_time = some now; msg_reader = none } in
      let streaming : IsStreaming sd enc view rest growing f after = record {
        format = str.format;
        between = refl;
        forward = str.forward;
        unlimited = str.unlimited;
        started = str.started;
        counts = str.counts;
      } in
      record {
        after = after;
        out = ping ++ [];
        leads =
            Leads-sent sd enc now r (record r { eof_time = some now }) after ping []
              (read-ping_due now f r str none_left old)
              (Leads-end sd enc now after after
                (read_at_end now f after streaming none_left (ground arith)));
        copied = record {
          streaming = streaming;
          at_end = none_left;
          sent = ap (λ l. l ++ rest r.journal) (sym none_left);
        };
        turn =
            subst
              (λ (l : List JournalEntry).
                Turn sd enc view f now r.eof_time r.journal l (ping ++ []) r.journal (some now))
              (sym none_left)
              (subst
                (λ (t : Bytes).
                  Turn sd enc view f now r.eof_time r.journal [] t r.journal (some now))
                (sym (append-nil ping))
                (pings none_left (subst (λ g. is_event_stream g ≡ true) str.format (ground arith))
                  (ground arith)));
        sends = λ later text sent.
            subst (λ l. Sends enc f (l ++ later) ((ping ++ []) ++ text)) (sym none_left)
              (subst (Sends enc f later) (sym (append_assoc ping [] text))
                (idle (ground arith) sent));
      }

  pub copy_some :
      (now : ℕ) (f : EntryFormatter) (r : Reader sd.Journal)
      → IsStreaming sd enc view rest growing f r
      → All (Prints enc f) (view r.journal)
      → CopiesSome now f r
  copy_some now f r str prints = go (view r.journal) refl
    where
      go : (es : List JournalEntry) → view r.journal ≡ es → CopiesSome now f r
      go (e ∷ es) v = copy_seen now f r e es str (subst (All (Prints enc f)) v prints) v
      go [] v =
          elim (Bool-cases
            (is_event_stream r.content_formatter && not (is_recent now r.eof_time))) [
              | inl old ↦ copy_ping now f r str v old
              | inr quiet ↦ copy_quiet now f r str v quiet
            ]
