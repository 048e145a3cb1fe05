-- ===== src/Journal/Delivery.antt =====
-- What io.Copy writes from a journal reader: the formatted entries in front of it, up to the limit.
use dcos_log.Base.{
  ℕ, zero, suc, ◌≤◌, ◌≡◌, refl, ap, sym, subst, ◌∙◌, Bool, if◌then◌else◌, List, [], ◌∷◌, ◌++◌,
  append_assoc, arith, Bytes, length, take, drop, take-append-drop, length-drop, Option, none, some,
  ok, err, copy_buffer, copy_ends, copy_goes_on,
}
use dcos_log.Journal.Types.{
  Sdjournal, Encoders, Reader, JournalEntry, EntryFormatter, eof, out_of_fuel,
}
use dcos_log.Journal.Format.{format_entry}
use dcos_log.Journal.Reading.{is_eof, left_over, send_message, read, copy_entries}

-- The journal behaves as a log: `view` is the list of the entries in front of it.
pub record IsLog (sd : Sdjournal) (view : sd.Journal → List JournalEntry) : Type 0 where
  pub at_end : (j : sd.Journal) → view j ≡ [] → sd.next j ≡ (ok 0, j)
  pub forward :
      (j : sd.Journal) (e : JournalEntry) (es : List JournalEntry)
      → view j ≡ e ∷ es
      → (j' : sd.Journal) × (sd.next j ≡ (ok 1, j')) × (view j' ≡ es) × (sd.get_entry j' ≡ ok e)

-- The texts of the entries, in one format.
abbrev pub Formats : Encoders → EntryFormatter → List JournalEntry → List Bytes → Type 0
Formats enc f [] [] = Unit
Formats enc f [] (t ∷ ts) = ⊥
Formats enc f (e ∷ es) [] = ⊥
Formats enc f (e ∷ es) (t ∷ ts) = (format_entry enc f e ≡ ok t) × Formats enc f es ts

abbrev pub concat : List Bytes → Bytes
concat [] = []
concat (t ∷ ts) = t ++ concat ts

-- The texts that the limit lets through.
abbrev pub within_limit : Bool → ℕ → List Bytes → List Bytes
within_limit use_limit limit ts = if use_limit then take limit ts else ts

module _ (sd : Sdjournal) (enc : Encoders) (now : ℕ) where
  -- With enough fuel, io.Copy from the reader writes `out` and ends without an error.
  abbrev pub Copies : Reader sd.Journal → Bytes → Type 0
  Copies r out =
      (s : Reader sd.Journal) × (k : ℕ) × ((fuel : ℕ)
        → k ≤ fuel
        → copy_entries sd enc fuel now r ≡ (s, out, none))

  -- The same, with the reader that is left.
  abbrev pub Leads : Reader sd.Journal → Bytes → Reader sd.Journal → Type 0
  Leads r out s =
      (k : ℕ) × ((fuel : ℕ) → k ≤ fuel → copy_entries sd enc fuel now r ≡ (s, out, none))

  pub Leads-end :
      (r s : Reader sd.Journal) → read sd enc now r copy_buffer ≡ (s, err eof) → Leads r [] s
  unfolding copy_entries
  Leads-end r s h = (1, ended)
    where
      ended : (fuel : ℕ) → 1 ≤ fuel → copy_entries sd enc fuel now r ≡ (s, [], none)
      ended zero k = elim k [ ]
      ended (suc fuel) k = copy_ends (read sd enc now) is_eof out_of_fuel fuel r s eof h

  Leads-step :
      (r s last : Reader sd.Journal) (out rest : Bytes)
      → read sd enc now r copy_buffer ≡ (s, ok out)
      → Leads s rest last
      → Leads r (out ++ rest) last
  unfolding copy_entries
  Leads-step r s last out rest h (k, ends) = (suc k, going)
    where
      going : (fuel : ℕ) → suc k ≤ fuel → copy_entries sd enc fuel now r ≡ (last, out ++ rest, none)
      going zero b = elim b [ ]
      going (suc fuel) b =
          copy_goes_on (read sd enc now) is_eof out_of_fuel fuel r s last out rest none h
            (ends fuel (omega arith))

  abbrev pub holding : Reader sd.Journal → Option Bytes → Reader sd.Journal
  holding r m = record r { msg_reader = m }

  -- What the buffer takes and what is left over, in front of the rest.
  Leads-regroup :
      (r last : Reader sd.Journal) (m rest : Bytes)
      → Leads r (take copy_buffer m ++ (drop copy_buffer m ++ rest)) last
      → Leads r (m ++ rest) last
  Leads-regroup r last m rest =
      subst (λ t. Leads r t last)
        (sym (append_assoc (take copy_buffer m) (drop copy_buffer m) rest)
          ∙ ap (λ t. t ++ rest) (take-append-drop copy_buffer m))

  Leads-message :
      (b : ℕ) (r last : Reader sd.Journal) (m rest : Bytes)
      → length m ≤ b
      → Leads (holding r none) rest last
      → Leads (holding r (left_over m)) (m ++ rest) last
  unfolding read send_message
  Leads-message b r last [] rest h c = c
  Leads-message zero r last (a ∷ m) rest h c = elim h [ ]
  Leads-message (suc b) r last (a ∷ m) rest h c =
      let shorter : length (drop copy_buffer (a ∷ m)) ≤ b =
        omega (arith, length-drop copy_buffer (a ∷ m)) in
      Leads-regroup (holding r (some (a ∷ m))) last (a ∷ m) rest (
        Leads-step (holding r (some (a ∷ m))) (holding r (left_over (drop copy_buffer (a ∷ m))))
          last (take copy_buffer (a ∷ m)) (drop copy_buffer (a ∷ m) ++ rest) refl
          (Leads-message b r last (drop copy_buffer (a ∷ m)) rest shorter c))

  -- A call of Read that makes `m` the message sends all of it in the end.
  pub Leads-sent :
      (r r' last : Reader sd.Journal) (m rest : Bytes)
      → read sd enc now r copy_buffer ≡ send_message sd enc m r' copy_buffer
      → Leads (holding r' none) rest last
      → Leads r (m ++ rest) last
  unfolding send_message
  Leads-sent r r' last [] rest h c = Leads-step r (holding r' none) last [] rest h c
  Leads-sent r r' last (a ∷ m) rest h c = Leads-regroup r last (a ∷ m) rest (
      Leads-step r (holding r' (left_over (drop copy_buffer (a ∷ m)))) last
        (take copy_buffer (a ∷ m)) (drop copy_buffer (a ∷ m) ++ rest) h
        (Leads-message (length (drop copy_buffer (a ∷ m))) r' last (drop copy_buffer (a ∷ m)) rest
          (omega arith) c))

  pub Copies-end :
      (r s : Reader sd.Journal) → read sd enc now r copy_buffer ≡ (s, err eof) → Copies r []
  Copies-end r s h = let (k, ends) = Leads-end r s h in (s, k, ends)

  pub Copies-sent :
      (r r' : Reader sd.Journal) (m rest : Bytes)
      → read sd enc now r copy_buffer ≡ send_message sd enc m r' copy_buffer
      → Copies (holding r' none) rest
      → Copies r (m ++ rest)
  Copies-sent r r' m rest h (s, k, ends) =
      let (k', ends') = Leads-sent r r' s m rest h (k, ends) in (s, k', ends')
