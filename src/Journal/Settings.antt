-- ===== src/Journal/Settings.antt =====
-- What NewReader of dcos-log/journal/reader/read.go sets on a reader, by the options of config.go.
use dcos_log.Base.{
  ℕ, ◌≡◌, refl, ap, sym, ◌∙◌, Bool, false, List, [], ◌∷◌, ◌++◌, map, All, arith, Bytes, Option,
  none, some, Result, ok, err,
}
use dcos_log.Journal.Types.{Sdjournal, Reader, EntryFormatter, JournalEntryMatch, Error}
use dcos_log.Journal.Options.{
  Effect, apply_options, fresh_reader, new_reader, option_match, option_match_or,
  option_seek_cursor, option_skip_next, option_skip_prev, seek_reader, skip_next, skip_prev,
}

module _ (sd : Sdjournal) where
  -- What of a reader no seek, skip or match changes.
  pub record Settings : Type 0 where
    pub limit : ℕ
    pub use_limit : Bool
    pub read_reverse : Bool
    pub eof_time : Option ℕ
    pub msg_reader : Option Bytes
    pub content_formatter : EntryFormatter
    pub n : ℕ

  abbrev pub settings : Reader sd.Journal → Settings
  settings r = record {
    limit = r.limit;
    use_limit = r.use_limit;
    read_reverse = r.read_reverse;
    eof_time = r.eof_time;
    msg_reader = r.msg_reader;
    content_formatter = r.content_formatter;
    n = r.n;
  }

  settings-seek_reader :
      (c : Bytes) (r : Reader sd.Journal) → settings (seek_reader sd c r).0 ≡ settings r
  unfolding seek_reader
  settings-seek_reader c r = ground arith

  pub settings-skip_next :
      (n : ℕ) (r : Reader sd.Journal) → settings (option_skip_next sd n r).0 ≡ settings r
  unfolding option_skip_next skip_next
  settings-skip_next n r = ground arith

  pub settings-skip_prev :
      (n : ℕ) (r : Reader sd.Journal) → settings (option_skip_prev sd n r).0 ≡ settings r
  unfolding option_skip_prev skip_prev
  settings-skip_prev n r = ground arith

  pub settings-seek_cursor :
      (c : Bytes) (r : Reader sd.Journal) → settings (option_seek_cursor sd c r).0 ≡ settings r
  unfolding option_seek_cursor
  settings-seek_cursor c r =
      let h = settings-seek_reader c (record r { cursor = c }) in ground (arith, h)

  abbrev pub id_settings : Settings → Settings
  id_settings c = c

  pub settings-match :
      (ms : List JournalEntryMatch) (r : Reader sd.Journal)
      → settings (option_match sd ms r).0 ≡ settings r
  unfolding option_match
  settings-match ms r = refl

  -- What options do to the settings, one by one.
  abbrev pub Sets : List (Option (Effect sd)) → List (Settings → Settings) → Type 0
  Sets [] [] = Unit
  Sets (none ∷ os) fs = Sets os fs
  Sets (some o ∷ os) (f ∷ fs) =
      ((r : Reader sd.Journal) → settings (o r).0 ≡ f (settings r)) × Sets os fs
  Sets (some o ∷ os) [] = ⊥
  Sets [] (f ∷ fs) = ⊥

  abbrev pub set_by : List (Settings → Settings) → Settings → Settings
  set_by [] c = c
  set_by (f ∷ fs) c = set_by fs (f c)

  apply_options-Sets :
      (os : List (Option (Effect sd))) (fs : List (Settings → Settings)) (r s : Reader sd.Journal)
      → Sets os fs
      → apply_options sd os r ≡ (s, none)
      → settings s ≡ set_by fs (settings r)
  unfolding apply_options
  apply_options-Sets [] [] r s sets h =
      ap (λ (t : Reader sd.Journal × Option Error). settings t.0) (sym h)
  apply_options-Sets [] (f ∷ fs) r s sets h = absurd sets
  apply_options-Sets (none ∷ os) fs r s sets h = apply_options-Sets os fs r s sets h
  apply_options-Sets (some o ∷ os) [] r s sets h = absurd sets
  apply_options-Sets (some o ∷ os) (f ∷ fs) r s (set, sets) h =
      let later : apply_options sd os (o r).0 ≡ (s, none) = ground arith in
      apply_options-Sets os fs (o r).0 s sets later ∙ ap (set_by fs) (set r)

  pub new_reader-applied :
      (system : sd.System) (formatter : Option EntryFormatter) (os : List (Option (Effect sd)))
      (r : Reader sd.Journal)
      → new_reader sd system formatter os ≡ ok r
      → (j : sd.Journal) × (sd.new_journal system ≡ ok j)
        × (apply_options sd os (fresh_reader sd j formatter) ≡ (r, none))
  unfolding new_reader
  new_reader-applied system formatter os r h = go (sd.new_journal system) refl
    where
      go :
          (got : Result Bytes sd.Journal)
          → sd.new_journal system ≡ got
          → (j : sd.Journal) × (sd.new_journal system ≡ ok j)
            × (apply_options sd os (fresh_reader sd j formatter) ≡ (r, none))
      go (err e) g = absurd (ground (arith, g))
      go (ok j) g = (j, g, ground (arith, g))

  -- The settings of a new reader are those of a fresh one, as its options change them.
  pub new_reader-Sets :
      (system : sd.System) (f : EntryFormatter) (os : List (Option (Effect sd)))
      (fs : List (Settings → Settings)) (r : Reader sd.Journal)
      → Sets os fs
      → new_reader sd system (some f) os ≡ ok r
      → settings r
        ≡ set_by fs (record {
          limit = 0;
          use_limit = false;
          read_reverse = false;
          eof_time = none;
          msg_reader = none;
          content_formatter = f;
          n = 0;
        })
  new_reader-Sets system f os fs r sets h =
      let (j, opened, applied) = new_reader-applied system (some f) os r h in
      apply_options-Sets os fs (fresh_reader sd j (some f)) r sets applied

  pub settings-match_or :
      (ms : List JournalEntryMatch) (r : Reader sd.Journal)
      → settings (option_match_or sd ms r).0 ≡ settings r
  unfolding option_match_or
  settings-match_or ms r = refl

  -- The option leaves the settings as they are.
  abbrev pub Keeps : Effect sd → Type 0
  Keeps o = (r : Reader sd.Journal) → settings (o r).0 ≡ settings r

  pub settings-Keeps :
      (os : List (Effect sd)) (r s : Reader sd.Journal)
      → All Keeps os
      → apply_options sd (map (λ o. some o) os) r ≡ (s, none)
      → settings s ≡ settings r
  unfolding apply_options
  settings-Keeps [] r s keeps h =
      ap (λ (t : Reader sd.Journal × Option Error). settings t.0) (sym h)
  settings-Keeps (o ∷ os) r s (keep, keeps) h =
      let later : apply_options sd (map (λ o. some o) os) (o r).0 ≡ (s, none) = ground arith in
      settings-Keeps os (o r).0 s keeps later ∙ keep r

  first_runs :
      (o : Effect sd) (os : List (Effect sd)) (r s : Reader sd.Journal)
      → apply_options sd (map (λ o. some o) (o ∷ os)) r ≡ (s, none)
      → ((o r).1 ≡ none) × (apply_options sd (map (λ o. some o) os) (o r).0 ≡ (s, none))
  unfolding apply_options
  first_runs o os r s h = ground arith

  -- Where options succeed, the first part of them succeeds, and then the rest.
  pub apply_options-append :
      (os rest : List (Effect sd)) (r s : Reader sd.Journal)
      → apply_options sd (map (λ o. some o) (os ++ rest)) r ≡ (s, none)
      → (t : Reader sd.Journal) × (apply_options sd (map (λ o. some o) os) r ≡ (t, none))
        × (apply_options sd (map (λ o. some o) rest) t ≡ (s, none))
  unfolding apply_options
  apply_options-append [] rest r s h = (r, refl, h)
  apply_options-append (o ∷ os) rest r s h =
      let (ran, later) = first_runs o (os ++ rest) r s h in
      let (t, first, second) = apply_options-append os rest (o r).0 s later in
      (t, ground arith, second)
