-- ===== src/Base/Split.antt =====
-- strings.Split by a one-byte separator and strings.Join.
use Prim.Native.Nat.{ℕ}
use mathlib.Core.Path.{◌≡◌, refl, ap, ◌∙◌}
use mathlib.Core.Logic.{◌≢◌, inl, inr}
use mathlib.Core.List.{List, [], ◌∷◌, ◌++◌}
use native.Mathlib.Omega.{arith}
use dcos_log.Base.Tests.{◌==◌, if◌then◌else◌, Bool-cases}
use dcos_log.Base.Lists.{All}
use dcos_log.Base.ByteStrings.{Bytes}

-- The text holds no separator.
abbrev pub Lacks : ℕ → Bytes → Type 0
Lacks sep = All (λ c. c ≢ sep)

-- A byte in front of the first part.
abbrev pub cons_head : ℕ → List Bytes → List Bytes
cons_head c [] = (c ∷ []) ∷ []
cons_head c (p ∷ ps) = (c ∷ p) ∷ ps

unfoldable pub split : Bytes → ℕ → List Bytes
split [] sep = [] ∷ []
split (c ∷ s) sep = let rest = split s sep in if c == sep then [] ∷ rest else cons_head c rest

unfoldable pub join : List Bytes → ℕ → Bytes
join [] sep = []
join (p ∷ []) sep = p
join (p ∷ (q ∷ qs)) sep = p ++ (sep ∷ join (q ∷ qs) sep)

pub split_lacking : (sep : ℕ) (p : Bytes) → Lacks sep p → split p sep ≡ p ∷ []
unfolding split
split_lacking sep [] h = refl
split_lacking sep (c ∷ p) (h, hs) = rw (split_lacking sep p hs) (ground arith)

pub split_front :
    (sep : ℕ) (p rest : Bytes) → Lacks sep p → split (p ++ (sep ∷ rest)) sep ≡ p ∷ split rest sep
unfolding split
split_front sep [] rest h = ground arith
split_front sep (c ∷ p) rest (h, hs) = rw (split_front sep p rest hs) (ground arith)

pub split-ne-nil : (s : Bytes) (sep : ℕ) → split s sep ≢ []
unfolding split
split-ne-nil [] sep = cc
split-ne-nil (c ∷ s) sep = ground (arith, split-ne-nil s sep)

join-cons_head :
    (c sep : ℕ) (ps : List Bytes) → ps ≢ [] → join (cons_head c ps) sep ≡ c ∷ join ps sep
unfolding join
join-cons_head c sep [] h = absurd (h refl)
join-cons_head c sep (p ∷ []) h = refl
join-cons_head c sep (p ∷ (q ∷ qs)) h = refl

join_nil_front : (sep : ℕ) (ps : List Bytes) → ps ≢ [] → join ([] ∷ ps) sep ≡ sep ∷ join ps sep
unfolding join
join_nil_front sep [] h = absurd (h refl)
join_nil_front sep (p ∷ ps) h = refl

pub join-split : (s : Bytes) (sep : ℕ) → join (split s sep) sep ≡ s
unfolding split
join-split [] sep = unfold join in refl
join-split (c ∷ s) sep = ground (
  arith,
  join-split s sep,
  split-ne-nil s sep,
  join_nil_front sep (split s sep),
  join-cons_head c sep (split s sep),
)

All-cons_head :
    (c sep : ℕ) (ps : List Bytes) → c ≢ sep → All (Lacks sep) ps → All (Lacks sep) (cons_head c ps)
All-cons_head c sep [] h k = ((h, tt), tt)
All-cons_head c sep (p ∷ ps) h (k, ks) = ((h, k), ks)

pub split-Lacks : (s : Bytes) (sep : ℕ) → All (Lacks sep) (split s sep)
unfolding split
split-Lacks [] sep = (tt, tt)
split-Lacks (c ∷ s) sep = elim (Bool-cases (c == sep)) [
  | inl same ↦ rw same (tt, split-Lacks s sep)
  | inr other ↦ rw other (All-cons_head c sep (split s sep) (ground arith) (split-Lacks s sep))
]

pub split-join :
    (ps : List Bytes) (sep : ℕ) → ps ≢ [] → All (Lacks sep) ps → split (join ps sep) sep ≡ ps
unfolding join
split-join [] sep h k = absurd (h refl)
split-join (p ∷ []) sep h (k, _) = split_lacking sep p k
split-join (p ∷ (q ∷ qs)) sep h (k, ks) =
    split_front sep p (join (q ∷ qs) sep) k ∙ ap (λ t. p ∷ t) (split-join (q ∷ qs) sep (cc) ks)
