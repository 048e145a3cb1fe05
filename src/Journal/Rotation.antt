-- ===== src/Journal/Rotation.antt =====
-- A rotated journal: what Follow of dcos-log/journal/reader/read.go opens in place of the old one.
use dcos_log.Base.{
  ◌≡◌, refl, ap, sym, ◌∙◌, List, [], ◌∷◌, ◌++◌, map, arith, Bytes, Option, none, some, ok,
}
use dcos_log.Journal.Types.{Sdjournal, Encoders, Reader, EntryFormatter, JournalEntryMatch}
use dcos_log.Journal.Options.{
  Effect, option_match, option_match_or, apply_options, fresh_reader, seek_reader, add_matches,
  add_matches_or,
}
use dcos_log.Journal.Reading.{apply_matches, reopen}

-- The options that add matches: all of a list at once, or any of it.
pub data MatchOption : Type 0 where
  all_of : List JournalEntryMatch → MatchOption
  any_of : List JournalEntryMatch → MatchOption

module _ (sd : Sdjournal) (enc : Encoders) where
  abbrev pub effect_of : MatchOption → Effect sd
  effect_of (all_of ms) = option_match sd ms
  effect_of (any_of ms) = option_match_or sd ms

  -- The reader after the options.
  abbrev pub matched : List MatchOption → Reader sd.Journal → Reader sd.Journal
  matched os r = (apply_options sd (map (λ o. some (effect_of o)) os) r).0

  -- The function on journals that an option keeps.
  abbrev kept_fn : MatchOption → sd.Journal → sd.Journal
  kept_fn (all_of ms) = add_matches sd ms
  kept_fn (any_of ms) = add_matches_or sd ms

  abbrev added : MatchOption → Reader sd.Journal → Reader sd.Journal
  added o r = record r {
    journal = kept_fn o r.journal;
    match_fns = r.match_fns ++ (kept_fn o ∷ []);
  }

  matched-cons :
      (o : MatchOption) (os : List MatchOption) (r : Reader sd.Journal)
      → matched (o ∷ os) r ≡ matched os (added o r)
  unfolding apply_options option_match option_match_or
  matched-cons (all_of ms) os r = refl
  matched-cons (any_of ms) os r = refl

  apply_matches-append :
      (fns : List (sd.Journal → sd.Journal)) (fn : sd.Journal → sd.Journal) (j : sd.Journal)
      → apply_matches sd enc (fns ++ (fn ∷ [])) j ≡ fn (apply_matches sd enc fns j)
  unfolding apply_matches
  apply_matches-append [] fn j = refl
  apply_matches-append (f ∷ fns) fn j = apply_matches-append fns fn (f j)

  replayed :
      (os : List MatchOption) (r s : Reader sd.Journal) (k : sd.Journal)
      → s.journal ≡ apply_matches sd enc r.match_fns k
      → apply_matches sd enc (matched os r).match_fns k ≡ (matched os s).journal
  unfolding apply_options
  replayed [] r s k h = sym h
  replayed (o ∷ os) r s k h =
      ap (λ (t : Reader sd.Journal). apply_matches sd enc t.match_fns k) (matched-cons o os r)
      ∙ replayed os (added o r) (added o s) k
          (ap (kept_fn o) h ∙ sym (apply_matches-append r.match_fns (kept_fn o) k))
      ∙ ap (λ (t : Reader sd.Journal). t.journal) (sym (matched-cons o os s))

  -- When the journal was rotated, the reader goes on with a journal on which exactly the matches are set
  -- that NewReader would set on it, in their order, whatever was read from the old one meanwhile; the
  -- old place is sought there. The journal's place was known, and the journal could be closed and opened.
  pub reopen-matched :
      (os : List MatchOption) (j k : sd.Journal) (formatter : Option EntryFormatter)
      (r : Reader sd.Journal) (system : sd.System) (cursor : Bytes)
      → r.match_fns ≡ (matched os (fresh_reader sd j formatter)).match_fns
      → sd.get_cursor r.journal ≡ ok cursor
      → sd.close r.journal ≡ none
      → sd.new_journal system ≡ ok k
      → reopen sd enc system r ≡ (
        (seek_reader sd cursor
            (record r { journal = (matched os (fresh_reader sd k formatter)).journal })).0,
        none,
      )
  unfolding reopen
  reopen-matched os j k formatter r system cursor kept place closed opened =
      let same : apply_matches sd enc r.match_fns k
          ≡ (matched os (fresh_reader sd k formatter)).journal =
        ap (λ t. apply_matches sd enc t k) kept
        ∙ replayed os (fresh_reader sd j formatter) (fresh_reader sd k formatter) k refl in
      let opened_again : reopen sd enc system r ≡ (
        (seek_reader sd cursor (record r { journal = apply_matches sd enc r.match_fns k })).0,
        none,
      ) =
        ground arith in
      opened_again ∙ ap (λ t. ((seek_reader sd cursor (record r { journal = t })).0, none)) same
