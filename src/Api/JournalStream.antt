-- ===== src/Api/JournalStream.antt =====
-- The event stream of the journal that the handlers of dcos-log/api/v1/handlers.go and
-- dcos-log/api/v2/handlers.go send, while the journal grows.
use dcos_log.Base.{
  ℕ, ◌+◌, ◌≤◌, ◌<◌, ◌^◌, false, length, ◌≡◌, refl, ap, sym, subst, ◌∙◌, List, [], ◌∷◌, ◌++◌, Option,
  none, some, append_assoc, arith, All, All-left, All-right, Bytes,
}
use dcos_log.Journal.Types.{Sdjournal, Encoders, Reader, JournalEntry, EntryFormatter}
use dcos_log.Journal.Stream.{IsGrowing, IsStreaming, Sends, done, Prints}
use dcos_log.Journal.StreamCopy.{copy_some}
use dcos_log.Journal.Turns.{Turn, Waits}
use dcos_log.Journal.StreamFollow.{Followed-Leads}
use dcos_log.Journal.Reading.{skip_read, follow}
use dcos_log.Journal.Settings.{Settings, settings}
use dcos_log.Api.JournalPage.{Tick, follow_wait, follow_ticks}

-- What a stream of a journal is to send over its ticks, from a time of the last text and a place of the
-- journal on: the turn of each tick, and then a wait for the journal where the tick had no text.
pub data Watches (sd : Sdjournal) (enc : Encoders) (view : sd.Journal → List JournalEntry)
    (duration : ℕ) (f : EntryFormatter)
    : List (Tick sd.System) → Option ℕ → sd.Journal → List JournalEntry → Bytes → Type 0 where
  over : {last : Option ℕ} {j : sd.Journal} → Watches sd enc view duration f [] last j [] []
  tick :
      {t : Tick sd.System} {ticks : List (Tick sd.System)} {last last' : Option ℕ}
      {j k j' : sd.Journal} {es more : List JournalEntry} {text out : Bytes}
      → Turn sd enc view f t.now last j es text k last'
      → Waits sd duration text k j'
      → Watches sd enc view duration f ticks last' j' more out
      → Watches sd enc view duration f (t ∷ ticks) last j (es ++ more) (text ++ out)

-- 100 milliseconds
abbrev pub tick_wait : ℕ
tick_wait = 100000000

module _ (sd : Sdjournal) (enc : Encoders) (view rest : sd.Journal → List JournalEntry)
    (growing : IsGrowing sd view rest) where
  -- What a stream sends in the course of its ticks: the entries `sent`, which are the first ones behind
  -- the reader's place, namely at each tick all that can be seen then.
  pub record Streamed (f : EntryFormatter) (r : Reader sd.Journal) (ticks : List (Tick sd.System))
      : Type 0 where
    pub sent : List JournalEntry
    pub later : List JournalEntry
    pub out : Bytes
    pub enough : ℕ
    pub in_order : rest r.journal ≡ sent ++ later
    pub sends : Sends enc f sent out
    pub watches : Watches sd enc view tick_wait f ticks r.eof_time r.journal sent out
    pub runs : (fuel : ℕ) → enough ≤ fuel → follow_ticks sd enc fuel ticks r ≡ out

  follow_tick :
      (fuel : ℕ) (t : Tick sd.System) (ticks : List (Tick sd.System)) (r s : Reader sd.Journal)
      (out : Bytes)
      → follow sd enc fuel t.now t.system (follow_wait sd enc) r ≡ (s, out, none)
      → follow_ticks sd enc fuel (t ∷ ticks) r ≡ out ++ follow_ticks sd enc fuel ticks s
  unfolding follow_ticks
  follow_tick fuel t ticks r s out h = λ i.
      let (r', o, failed) = h i in
      elim failed [ some e ↦ o | none ↦ o ++ follow_ticks sd enc fuel ticks r' ]

  -- An event stream of a journal that grows sends the text of each entry behind the reader's place once,
  -- in the order of the journal and with none left out between them, and nothing else but pings where
  -- the format is an event stream. At each tick it sends all entries that can be seen then, and it waits
  -- for the journal after a tick without text. Some fuel is enough for all ticks, and more changes
  -- nothing. The reader goes forward without a limit, the entries' formats succeed, the journal is not
  -- rotated, and 64 bits count the entries.
  pub follow_ticks-Streamed :
      (f : EntryFormatter) (r : Reader sd.Journal) (ticks : List (Tick sd.System))
      → IsStreaming sd enc view rest growing f r
      → All (Prints enc f) (rest r.journal)
      → Streamed f r ticks
  unfolding follow_ticks
  follow_ticks-Streamed f r [] str prints = record {
    sent = [];
    later = rest r.journal;
    out = [];
    enough = 0;
    in_order = refl;
    sends = done;
    watches = over;
    runs = λ fuel more. refl;
  }
  follow_ticks-Streamed f r (t ∷ ticks) str prints =
      let (unseen, parts) = growing.visible r.journal in
      let split_prints = subst (All (Prints enc f)) parts prints in
      let copied =
        copy_some sd enc view rest growing t.now f r str
          (All-left (Prints enc f) _ _ split_prints) in
      let followed =
        Followed-Leads sd enc view rest growing t.now (follow_wait sd enc) f r copied.after
          copied.out copied.leads copied.copied.streaming copied.copied.at_end in
      let went = copied.copied.sent in
      let left_prints : All (Prints enc f) (rest followed.after.journal) =
        subst (All (Prints enc f)) (sym followed.remains)
          (All-right (Prints enc f) (view r.journal) _ (subst (All (Prints enc f)) went prints)) in
      let s = follow_ticks-Streamed f followed.after ticks followed.streaming left_prints in
      record {
        sent = view r.journal ++ s.sent;
        later = s.later;
        out = copied.out ++ s.out;
        enough = followed.enough + s.enough;
        in_order =
            went
            ∙ ap (λ l. view r.journal ++ l) (sym followed.remains ∙ s.in_order)
            ∙ sym (append_assoc (view r.journal) s.sent s.later);
        sends = copied.sends s.sent s.out s.sends;
        watches = tick copied.turn followed.waits (
            subst
              (λ last.
                Watches sd enc view tick_wait f ticks last followed.after.journal s.sent s.out)
              followed.timed s.watches);
        runs = λ fuel more.
            let first = followed.follows fuel t.system (omega arith) in
            let next = s.runs fuel (omega arith) in
            follow_tick fuel t ticks r followed.after copied.out first
            ∙ ap (λ l. copied.out ++ l) next;
      }

  -- A reader with such settings, in front of its entries, can begin a stream.
  pub settings-IsStreaming :
      (f : EntryFormatter) (r : Reader sd.Journal) (c : Settings sd)
      → settings sd r ≡ c
      → c.content_formatter ≡ f
      → c.msg_reader ≡ none
      → c.read_reverse ≡ false
      → c.use_limit ≡ false
      → c.n ≡ 0
      → skip_read sd enc r ≡ false
      → length (rest r.journal) < 2 ^ 64
      → IsStreaming sd enc view rest growing f r
  settings-IsStreaming f r c same format between forward unlimited first started bound = record {
    format = ap (λ (c : Settings sd). c.content_formatter) same ∙ format;
    between = ap (λ (c : Settings sd). c.msg_reader) same ∙ between;
    forward = ap (λ (c : Settings sd). c.read_reverse) same ∙ forward;
    unlimited = ap (λ (c : Settings sd). c.use_limit) same ∙ unlimited;
    started = started;
    counts = omega (arith, ap (λ (c : Settings sd). c.n) same, first, bound);
  }
