-- ===== src/Journal/StreamFollow.antt =====
-- A call of Follow of dcos-log/journal/reader/read.go in a stream of a journal that grows.
use dcos_log.Base.{ℕ, ◌≤◌, ◌≡◌, ◌≢◌, refl, List, [], ◌∷◌, arith, Bytes, none}
use dcos_log.Journal.Types.{
  Sdjournal, Encoders, Reader, JournalEntry, EntryFormatter, WaitResult, nop, append, invalidate,
}
use dcos_log.Journal.Reading.{skip_read, copy_entries, follow}
use dcos_log.Journal.Delivery.{Leads}
use dcos_log.Journal.Turns.{Waits}
use dcos_log.Journal.Stream.{IsGrowing, IsStreaming}

module _ (sd : Sdjournal) (enc : Encoders) (view rest : sd.Journal → List JournalEntry)
    (growing : IsGrowing sd view rest) where
  -- Follow writes `out`, which the copy that ends with the reader `s` has written, and leaves a reader of
  -- the stream.
  pub record Followed (now duration : ℕ) (f : EntryFormatter) (r s : Reader sd.Journal)
      (out : Bytes) : Type 0 where
    pub after : Reader sd.Journal
    pub streaming : IsStreaming sd enc view rest growing f after
    pub remains : rest after.journal ≡ rest s.journal
    pub waits : Waits sd duration out s.journal after.journal
    pub timed : after.eof_time ≡ s.eof_time
    pub enough : ℕ
    pub follows :
        (fuel : ℕ) (system : sd.System)
        → enough ≤ fuel
        → follow sd enc fuel now system duration r ≡ (after, out, none)

  follow-some :
      (fuel now duration : ℕ) (system : sd.System) (r s : Reader sd.Journal) (c : ℕ) (text : Bytes)
      → copy_entries sd enc fuel now r ≡ (s, c ∷ text, none)
      → follow sd enc fuel now system duration r ≡ (s, c ∷ text, none)
  unfolding follow
  follow-some fuel now duration system r s c text h = ground arith

  follow-none :
      (fuel now duration : ℕ) (system : sd.System) (r s : Reader sd.Journal) (event : WaitResult)
      (j : sd.Journal)
      → copy_entries sd enc fuel now r ≡ (s, [], none)
      → sd.wait duration s.journal ≡ (event, j)
      → event ≢ invalidate
      → follow sd enc fuel now system duration r ≡ (record s { journal = j }, [], none)
  unfolding follow
  follow-none fuel now duration system r s nop j h w kept = ground arith
  follow-none fuel now duration system r s append j h w kept = ground arith
  follow-none fuel now duration system r s invalidate j h w kept = absurd (kept refl)

  waited-IsStreaming :
      (f : EntryFormatter) (s : Reader sd.Journal) (j : sd.Journal)
      → IsStreaming sd enc view rest growing f s
      → rest j ≡ rest s.journal
      → sd.get_cursor j ≡ sd.get_cursor s.journal
      → IsStreaming sd enc view rest growing f (record s { journal = j })
  unfolding skip_read
  waited-IsStreaming f s j str same place =
      let begun = str.started in
      record {
        format = str.format;
        between = str.between;
        forward = str.forward;
        unlimited = str.unlimited;
        started = ground arith;
        counts = rw same str.counts;
      }

  pub Followed-Leads :
      (now duration : ℕ) (f : EntryFormatter) (r s : Reader sd.Journal) (out : Bytes)
      → Leads sd enc now r out s
      → IsStreaming sd enc view rest growing f s
      → view s.journal ≡ []
      → Followed now duration f r s out
  Followed-Leads now duration f r s (c ∷ text) (k, ends) str at_end = record {
    after = s;
    streaming = str;
    remains = refl;
    waits = refl;
    timed = refl;
    enough = k;
    follows = λ fuel system more. follow-some fuel now duration system r s c text (ends fuel more);
  }
  Followed-Leads now duration f r s [] (k, ends) str at_end =
      let (event, j, waited, kept, same, place) = growing.waits duration s.journal at_end in
      record {
        after = record s { journal = j };
        streaming = waited-IsStreaming f s j str same place;
        remains = same;
        waits = (event, waited);
        timed = refl;
        enough = k;
        follows = λ fuel system more.
            follow-none fuel now duration system r s event j (ends fuel more) waited kept;
      }
