-- ===== src/Api/Requests.antt =====
-- What the parameters of a request lead to.
use dcos_log.Base.{
  ◌≡◌, refl, ap, sym, ◌∙◌, ◌↔◌, List, [], ◌∷◌, ◌++◌, arith, Bytes, some, split, split-Lacks, join,
  join-split, split_front, split_lacking, Lacks, to_upper, subst, All,
}
use dcos_log.Journal.Types.{JournalEntryMatch}
use dcos_log.Api.JournalPage.{filter_match}
use dcos_log.Api.V1.Journal.{Params}

-- A filter is accepted exactly if it is a key and a value on the two sides of its only colon; the match
-- has the key in upper case and the value as it is.
pub filter_match_iff :
    (unicode_upper : Bytes → Bytes) (f : Bytes) (m : JournalEntryMatch)
    → (filter_match unicode_upper f ≡ some m) ↔ (
        (key value : Bytes) × (f ≡ key ++ (b':' ∷ value))
        × Lacks b':' key
        × Lacks b':' value
        × (m ≡ record { field = to_upper unicode_upper key; value = value }))
unfolding filter_match join
filter_match_iff unicode_upper f m = (
  parts (split f b':') refl,
  λ (key, value, e, hk, hv, same).
      let cut =
        ap (λ t. split t b':') e
        ∙ split_front b':' key value hk
        ∙ ap (λ t. key ∷ t) (split_lacking b':' value hv) in
      ground arith,
)
  where
    parts :
        (ps : List Bytes)
        → split f b':' ≡ ps
        → filter_match unicode_upper f ≡ some m
        → (key value : Bytes) × (f ≡ key ++ (b':' ∷ value))
          × Lacks b':' key
          × Lacks b':' value
          × (m ≡ record { field = to_upper unicode_upper key; value = value })
    parts [] e h = absurd (ground arith)
    parts (k ∷ []) e h = absurd (ground arith)
    parts (k ∷ (v ∷ [])) e h =
        let lacking = subst (All (Lacks b':')) e (split-Lacks f b':') in
        (
          k,
          v,
          sym (join-split f b':') ∙ ap (λ t. join t b':') e,
          lacking.0,
          lacking.1.0,
          ground arith,
        )
    parts (k ∷ (v ∷ (w ∷ ws))) e h = absurd (ground arith)
