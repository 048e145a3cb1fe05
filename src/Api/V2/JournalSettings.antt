-- ===== src/Api/V2/JournalSettings.antt =====
-- The settings of the reader that journalHandler of dcos-log/api/v2/handlers.go makes.
use dcos_log.Base.{
  ℕ, ltb, if◌then◌else◌, ◌≡◌, refl, ap, sym, ◌∙◌, subst, Bool, true, false, List, [], ◌∷◌, map, All,
  All-append, arith, Bytes, bytes, is_empty, Option, none, some, ok, ltb_ℤ, pos, to_uint64, negate,
  Option-cases, parse_uint, ◌⊎◌, Bool-cases, inl, inr, atoi,
}
use dcos_log.Journal.Types.{Sdjournal, Encoders, Reader, EntryFormatter, Error}
use dcos_log.Journal.Options.{
  Effect, option_match, option_limit, option_skip_next, option_skip_prev, apply_options, new_reader,
  fresh_reader,
}
use dcos_log.Journal.Settings.{
  Settings, settings, Keeps, settings-Keeps, apply_options-append, new_reader-applied,
  settings-match, settings-match_or, settings-seek_cursor, settings-skip_next, settings-skip_prev,
}
use dcos_log.Api.Types.{HttpRequest, get, get_all}
use dcos_log.Api.JournalPage.{filter_matches}
use dcos_log.Api.V1.Params.{get_limit}
use dcos_log.Api.V2.Component.{
  ◌>>=◌, name_options, filter_options, cursor_options, limit_options, skip_options, journal_options,
}

module _ (sd : Sdjournal) (enc : Encoders) where
  abbrev Kept : List (Effect sd) → Type 0
  Kept os = All (Keeps sd) os

  some_same : (xs os : List (Effect sd)) → some xs ≡ some os → xs ≡ os
  some_same xs os e = cc

  Kept-or_none : (b : Bool) (o : Effect sd) → Keeps sd o → Kept (if b then [] else o ∷ [])
  Kept-or_none true o h = tt
  Kept-or_none false o h = (h, tt)

  Kept-or_one : (b : Bool) (o : Effect sd) → Keeps sd o → Kept (if b then o ∷ [] else [])
  Kept-or_one true o h = (h, tt)
  Kept-or_one false o h = tt

  -- Options made from a value that is there.
  Kept-made :
      {X : Type 0} (got : Option X) (make : X → List (Effect sd)) (os : List (Effect sd))
      → (got >>= λ x. some (make x)) ≡ some os
      → ((x : X) → Kept (make x))
      → Kept os
  Kept-made none make os h k = absurd (cc)
  Kept-made (some x) make os h k = subst Kept (some_same (make x) os h) (k x)

  name_options-Kept : (req : HttpRequest) → Kept (name_options sd enc req)
  unfolding name_options
  name_options-Kept req = Kept-or_none _ _ (settings-match_or sd _)

  cursor_options-Kept :
      (req : HttpRequest) (os : List (Effect sd)) → cursor_options sd enc req ≡ some os → Kept os
  unfolding cursor_options
  cursor_options-Kept req os h = Kept-made _ _ os h (λ (cursor, from_end).
      All-append (Keeps sd) _ _ (Kept-or_one from_end _ (settings-skip_prev sd 1))
        (Kept-or_none (is_empty cursor) _ (settings-seek_cursor sd cursor)))

  filter_options-Kept :
      (unicode_upper : Bytes → Bytes) (req : HttpRequest) (os : List (Effect sd))
      → filter_options sd enc unicode_upper req ≡ some os
      → Kept os
  unfolding filter_options
  filter_options-Kept unicode_upper req os h = go (get_all (bytes "filter") req.query) refl
    where
      go : (got : List Bytes) → get_all (bytes "filter") req.query ≡ got → Kept os
      go [] g = subst Kept (some_same [] os (ground (arith, g))) tt
      go (f ∷ fs) g =
          Kept-made (filter_matches unicode_upper (f ∷ fs)) (λ ms. option_match sd ms ∷ []) os
            (ground (arith, g)) (λ ms. (settings-match sd ms, tt))

  skip_options-Kept :
      (req : HttpRequest) (os : List (Effect sd)) → skip_options sd enc req ≡ some os → Kept os
  unfolding skip_options
  skip_options-Kept req os h = elim (Bool-cases (is_empty (get (bytes "skip") req.query))) [
    | inl none_there ↦ subst Kept (some_same [] os (ground arith)) tt
    | inr there ↦
        Kept-made (atoi (get (bytes "skip") req.query))
          (λ skip.
            (if ltb_ℤ (pos 0) skip
              then option_skip_next sd (to_uint64 skip)
              else option_skip_prev sd (to_uint64 (negate skip)))
            ∷ [])
          os (ground arith)
          (λ skip. (
            Keeps-either (ltb_ℤ (pos 0) skip) _ _ (settings-skip_next sd _)
                (settings-skip_prev sd _),
            tt,
          ))
  ]
    where
      Keeps-either :
          (b : Bool) (o p : Effect sd) → Keeps sd o → Keeps sd p → Keeps sd (if b then o else p)
      Keeps-either true o p h k = h
      Keeps-either false o p h k = k

  limit_options_lem :
      (req : HttpRequest) (os : List (Effect sd))
      → limit_options sd enc req ≡ some os
      → (limit : ℕ) × (get_limit req false ≡ some limit)
        × (((limit ≡ 0) × (os ≡ [])) ⊎ (os ≡ option_limit sd limit ∷ []))
  unfolding limit_options get_limit
  limit_options_lem req os h = elim (Bool-cases (is_empty (get (bytes "limit") req.query))) [
    | inl none_there ↦ (0, ground arith, inl (refl, sym (some_same [] os (ground arith))))
    | inr there ↦ elim (Option-cases (parse_uint 10 (get (bytes "limit") req.query))) [
      | inl bad ↦ absurd (ground arith)
      | inr (limit, good) ↦ (
        limit,
        ground arith,
        inr (sym (some_same (option_limit sd limit ∷ []) os (ground arith))),
      )
    ]
  ]

  -- The settings behind the options for the limit, if there was no limit before.
  limit-settings :
      (limit : ℕ) (os : List (Effect sd)) (r s : Reader sd.Journal)
      → ((limit ≡ 0) × (os ≡ [])) ⊎ (os ≡ option_limit sd limit ∷ [])
      → apply_options sd (map (λ o. some o) os) r ≡ (s, none)
      → r.limit ≡ 0
      → r.use_limit ≡ false
      → settings sd s ≡ record (settings sd r) { limit = limit; use_limit = ltb 0 limit }
  unfolding apply_options option_limit
  limit-settings limit os r s (inl (zero_asked, same)) ran none_yet unused =
      settings-Keeps sd os r s (subst Kept (sym same) tt) ran ∙ (λ i. record (settings sd r) {
        limit = (none_yet ∙ sym zero_asked) i;
        use_limit = (unused ∙ ap (ltb 0) (sym zero_asked)) i;
      })
  limit-settings limit os r s (inr same) ran none_yet unused =
      let applied : apply_options sd (some (option_limit sd limit) ∷ []) r ≡ (s, none) =
        subst (λ t. apply_options sd (map (λ o. some o) t) r ≡ (s, none)) same ran in
      ap (λ (t : Reader sd.Journal × Option Error). settings sd t.0) (sym applied)

  -- The settings that a limit asks for.
  abbrev pub limited_settings : EntryFormatter → ℕ → Settings sd
  limited_settings f limit = record {
    limit = limit;
    use_limit = ltb 0 limit;
    read_reverse = false;
    eof_time = none;
    msg_reader = none;
    content_formatter = f;
    n = 0;
  }

  pub journal_options-settings :
      (unicode_upper : Bytes → Bytes) (system : sd.System) (f : EntryFormatter) (req : HttpRequest)
      (opts : List (Effect sd)) (r : Reader sd.Journal)
      → journal_options sd enc unicode_upper req ≡ some opts
      → new_reader sd system (some f) (map (λ o. some o) opts) ≡ ok r
      → (limit : ℕ) × (get_limit req false ≡ some limit)
        × (settings sd r ≡ limited_settings f limit)
  unfolding journal_options
  journal_options-settings unicode_upper system f req opts r h made =
      let (filters, got_filters, h1) = there (filter_options sd enc unicode_upper req) _ h in
      let (cursor, got_cursor, h2) = there (cursor_options sd enc req) _ h1 in
      let (limits, got_limit, h3) = there (limit_options sd enc req) _ h2 in
      let (skip, got_skip, h4) = there (skip_options sd enc req) _ h3 in
      let (limit, asked, form) = limit_options_lem req limits got_limit in
      let (j, opened, applied) =
        new_reader-applied sd system (some f) (map (λ o. some o) opts) r made in
      let begin = fresh_reader sd j (some f) in
      let parts =
        subst (λ t. apply_options sd (map (λ o. some o) t) begin ≡ (r, none))
          (sym (some_same _ opts h4)) applied in
      let (r1, ran1, later1) = apply_options-append sd (name_options sd enc req) _ begin r parts in
      let (r2, ran2, later2) = apply_options-append sd filters _ r1 r later1 in
      let (r3, ran3, later3) = apply_options-append sd cursor _ r2 r later2 in
      let (r4, ran4, ran5) = apply_options-append sd limits skip r3 r later3 in
      let before : settings sd r3 ≡ settings sd begin =
        settings-Keeps sd cursor r2 r3 (cursor_options-Kept req cursor got_cursor) ran3
        ∙ settings-Keeps sd filters r1 r2
            (filter_options-Kept unicode_upper req filters got_filters) ran2
        ∙ settings-Keeps sd (name_options sd enc req) begin r1 (name_options-Kept req) ran1 in
      (
        limit,
        asked,
        settings-Keeps sd skip r4 r (skip_options-Kept req skip got_skip) ran5
            ∙ limit-settings limit limits r3 r4 form ran4 (ap (λ (c : Settings sd). c.limit) before)
                (ap (λ (c : Settings sd). c.use_limit) before)
            ∙ ap {A = Settings sd} {B = Settings sd}
                (λ c. record c { limit = limit; use_limit = ltb 0 limit }) before,
      )
    where
      there :
          {X Y : Type 0} (got : Option X) (next : X → Option Y) {out : Y}
          → (got >>= next) ≡ some out
          → (x : X) × (got ≡ some x) × (next x ≡ some out)
      there none next e = absurd (cc)
      there (some x) next e = (x, refl, e)
