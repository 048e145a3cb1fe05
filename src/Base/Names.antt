-- ===== src/Base/Names.antt =====
-- Paths from the root by their elements, and what path.Join makes of them.
use mathlib.Core.Path.{◌≡◌, refl, ap, sym, subst, ◌∙◌}
use mathlib.Core.Bool.{Bool, false, true, ◌&&◌, not}
use mathlib.Core.List.{
  List, [], ◌∷◌, ◌++◌, reverse, reverse-cons, reverse-reverse, append-nil, append_assoc,
}
use dcos_log.Base.Tests.{◌==◌}
use dcos_log.Base.Lists.{All}
use native.Mathlib.Omega.{arith}
use dcos_log.Base.ByteStrings.{Bytes, bytes, bytes_eq, is_empty}
use dcos_log.Base.Split.{split, split_lacking, split_front, join, Lacks}
use dcos_log.Base.Paths.{dot_dot, clean_step, clean_all, clean, non_empty, path_join}

-- An element that stays when a path is cleaned.
abbrev pub IsName : Bytes → Type 0
IsName e =
    Lacks b'/' e
    × (is_empty e ≡ false)
    × (bytes_eq e (bytes ".") ≡ false)
    × (bytes_eq e dot_dot ≡ false)

-- A path from the root, by its elements.
abbrev pub rooted : List Bytes → Bytes
rooted [] = []
rooted (e ∷ es) = b'/' ∷ (e ++ rooted es)

pub rooted-append : (xs ys : List Bytes) → rooted (xs ++ ys) ≡ rooted xs ++ rooted ys
rooted-append [] ys = refl
rooted-append (x ∷ xs) ys =
    ap (λ t. b'/' ∷ (x ++ t)) (rooted-append xs ys)
    ∙ ap (λ t. b'/' ∷ t) (sym (append_assoc x (rooted xs) (rooted ys)))

split-rooted :
    (e : Bytes) (es : List Bytes)
    → Lacks b'/' e
    → All (Lacks b'/') es
    → split (e ++ rooted es) b'/' ≡ e ∷ es
split-rooted e [] h hs = ap (λ t. split t b'/') (append-nil e) ∙ split_lacking b'/' e h
split-rooted e (f ∷ es) h (hf, hs) =
    split_front b'/' e (f ++ rooted es) h ∙ ap (λ t. e ∷ t) (split-rooted f es hf hs)

clean_step-IsName : (kept : List Bytes) (e : Bytes) → IsName e → clean_step true kept e ≡ e ∷ kept
unfolding clean_step
clean_step-IsName [] e (h, filled, not_dot, not_dots) = ground arith
clean_step-IsName (k ∷ kept) e (h, filled, not_dot, not_dots) = ground arith

clean_step-empty : (kept : List Bytes) → clean_step true kept [] ≡ kept
unfolding clean_step bytes_eq
clean_step-empty [] = refl
clean_step-empty (k ∷ kept) = refl

-- The elements that stay, and empty ones.
abbrev pub AreNames : List Bytes → Type 0
AreNames [] = Unit
AreNames ([] ∷ es) = AreNames es
AreNames ((c ∷ e) ∷ es) = IsName (c ∷ e) × AreNames es

AreNames-Lacks : (es : List Bytes) → AreNames es → All (Lacks b'/') es
AreNames-Lacks [] h = tt
AreNames-Lacks ([] ∷ es) h = (tt, AreNames-Lacks es h)
AreNames-Lacks ((c ∷ e) ∷ es) (n, h) = (n.0, AreNames-Lacks es h)

clean_all-AreNames :
    (kept es : List Bytes) → AreNames es → clean_all true kept es ≡ reverse (non_empty es) ++ kept
unfolding clean_all non_empty
clean_all-AreNames kept [] h = refl
clean_all-AreNames kept ([] ∷ es) h =
    ap (λ k. clean_all true k es) (clean_step-empty kept) ∙ clean_all-AreNames kept es h
clean_all-AreNames kept ((c ∷ e) ∷ es) (n, h) =
    ap (λ k. clean_all true k es) (clean_step-IsName kept (c ∷ e) n)
    ∙ clean_all-AreNames ((c ∷ e) ∷ kept) es h
    ∙ sym (append_assoc (reverse (non_empty es)) ((c ∷ e) ∷ []) kept)
    ∙ ap (λ t. t ++ kept) (sym (reverse-cons (c ∷ e) (non_empty es)))

join-rooted : (e : Bytes) (es : List Bytes) → b'/' ∷ join (e ∷ es) b'/' ≡ rooted (e ∷ es)
unfolding join
join-rooted e [] = ap (λ t. b'/' ∷ t) (sym (append-nil e))
join-rooted e (f ∷ es) = ap (λ t. b'/' ∷ (e ++ t)) (join-rooted f es)

names-IsName : (e : Bytes) (es : List Bytes) → IsName e → AreNames es → AreNames (e ∷ es)
names-IsName [] es n h = h
names-IsName (c ∷ e) es n h = (n, h)

non_empty-IsName : (e : Bytes) (es : List Bytes) → IsName e → non_empty (e ∷ es) ≡ e ∷ non_empty es
unfolding non_empty
non_empty-IsName [] es n = absurd (true-false n.1)
  where
    true-false : true ≡ false → ⊥
    true-false p = cc
non_empty-IsName (c ∷ e) es n = refl

-- Cleaning a path from the root drops its empty elements.
pub clean-rooted :
    (e : Bytes) (es : List Bytes)
    → IsName e
    → AreNames es
    → clean (rooted (e ∷ es)) ≡ rooted (e ∷ non_empty es)
unfolding clean non_empty
clean-rooted e es n h =
    let names = names-IsName e es n h in
    let parts : split (rooted (e ∷ es)) b'/' ≡ [] ∷ (e ∷ es) =
      split_front b'/' [] (e ++ rooted es) tt
      ∙ ap (λ t. [] ∷ t) (split-rooted e es n.0 (AreNames-Lacks es h)) in
    ap (λ ps. b'/' ∷ join (reverse (clean_all true [] ps)) b'/') parts
    ∙ ap (λ k. b'/' ∷ join (reverse k) b'/')
        (clean_all-AreNames [] ([] ∷ (e ∷ es)) names
          ∙ append-nil (reverse (non_empty ([] ∷ (e ∷ es)))))
    ∙ ap (λ k. b'/' ∷ join k b'/')
        (reverse-reverse (non_empty ([] ∷ (e ∷ es))) ∙ non_empty-IsName e es n)
    ∙ join-rooted e (non_empty es)

-- path.Join of a path from the root with another one.
pub path_join-rooted :
    (e : Bytes) (es : List Bytes) (t : Bytes) (ts : List Bytes)
    → IsName e
    → AreNames (es ++ (t ∷ ts))
    → is_empty (t ++ rooted ts) ≡ false
    → path_join (rooted (e ∷ es) ∷ (t ++ rooted ts) ∷ []) ≡ rooted (e ∷ non_empty (es ++ (t ∷ ts)))
unfolding path_join non_empty join
path_join-rooted e es t ts n h filled =
    let whole : rooted (e ∷ es) ++ (b'/' ∷ (t ++ rooted ts)) ≡ rooted (e ∷ (es ++ (t ∷ ts))) =
      sym (rooted-append (e ∷ es) (t ∷ ts)) in
    let cleaned = ap clean whole ∙ clean-rooted e (es ++ (t ∷ ts)) n h in ground arith

All-AreNames : (es ts : List Bytes) → All IsName es → AreNames ts → AreNames (es ++ ts)
All-AreNames [] ts h k = k
All-AreNames (e ∷ es) ts (n, h) k = names-IsName e (es ++ ts) n (All-AreNames es ts h k)

non_empty-names : (es ts : List Bytes) → All IsName es → non_empty (es ++ ts) ≡ es ++ non_empty ts
non_empty-names [] ts h = refl
non_empty-names (e ∷ es) ts (n, h) =
    non_empty-IsName e (es ++ ts) n ∙ ap (λ t. e ∷ t) (non_empty-names es ts h)

-- One more element.
pub path_join-IsName :
    (e : Bytes) (es : List Bytes) (f : Bytes)
    → All IsName (e ∷ es)
    → IsName f
    → path_join (rooted (e ∷ es) ∷ f ∷ []) ≡ rooted (e ∷ (es ++ (f ∷ [])))
unfolding non_empty
path_join-IsName e es f (n, h) k =
    ap (λ t. path_join (rooted (e ∷ es) ∷ t ∷ [])) (sym (append-nil f))
    ∙ path_join-rooted e es f [] n (All-AreNames es (f ∷ []) h (names-IsName f [] k tt))
        (ap is_empty (append-nil f) ∙ k.1)
    ∙ ap (λ t. rooted (e ∷ t))
        (non_empty-names es (f ∷ []) h ∙ ap (λ t. es ++ t) (non_empty-IsName f [] k))

-- A path behind a path.
pub path_join-paths :
    (e : Bytes) (es : List Bytes) (g : Bytes) (gs : List Bytes)
    → All IsName (e ∷ es)
    → All IsName (g ∷ gs)
    → path_join (rooted (e ∷ es) ∷ rooted (g ∷ gs) ∷ []) ≡ rooted (e ∷ (es ++ (g ∷ gs)))
unfolding non_empty
path_join-paths e es g gs (n, h) k =
    path_join-rooted e es [] (g ∷ gs) n
      (All-AreNames es ([] ∷ (g ∷ gs)) h
        (subst AreNames (append-nil (g ∷ gs)) (All-AreNames (g ∷ gs) [] k tt)))
      refl
    ∙ ap (λ t. rooted (e ∷ t))
        (non_empty-names es ([] ∷ (g ∷ gs)) h
          ∙ ap (λ t. es ++ t)
              (ap non_empty (sym (append-nil (g ∷ gs)))
                ∙ non_empty-names (g ∷ gs) [] k
                ∙ append-nil (g ∷ gs)))

abbrev lacks_slash : Bytes → Bool
lacks_slash [] = true
lacks_slash (c ∷ s) = not (c == b'/') && lacks_slash s

lacks_slash-Lacks : (s : Bytes) → lacks_slash s ≡ true → Lacks b'/' s
lacks_slash-Lacks [] h = tt
lacks_slash-Lacks (c ∷ s) h = (λ e. absurd (ground (arith, h)), lacks_slash-Lacks s (ground arith))

-- A test for names that are written out.
unfoldable pub is_name : Bytes → Bool
unfolding bytes_eq
is_name e =
    lacks_slash e
    && (not (is_empty e) && (not (bytes_eq e (bytes ".")) && not (bytes_eq e dot_dot)))

pub is_name_sound : (e : Bytes) → is_name e ≡ true → IsName e
unfolding is_name
is_name_sound e h = (lacks_slash-Lacks e (ground arith), ground arith, ground arith, ground arith)
