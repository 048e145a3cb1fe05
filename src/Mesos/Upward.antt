-- ===== src/Mesos/Upward.antt =====
-- A chunk that calcOffset of dcos-log/mesos/files/reader/read.go has reversed, and its lines from the
-- last one up.
use mathlib.Core.List.{append-nil, reverse, reverse-cons, reverse-append}
use dcos_log.Base.{
  ℕ, ◌+◌, ◌-◌, ◌≤◌, ◌<◌, ◌^◌, ◌≡◌, refl, ap, sym, ◌∙◌, subst, ◌≢◌, List, [], ◌∷◌, ◌++◌,
  append_assoc, arith, Bytes, All, All-append, Lacks, length, length-append, cons_head, split,
  split_lacking, split-ne-nil, ℤ, pos, -ℤ_pos,
}
use dcos_log.Mesos.Text.{IsAscii, from_runes, reverse_text, runes-ascii, from_runes-ascii}
use dcos_log.Mesos.Client.{place_lines}
use dcos_log.Mesos.Setup.{move_back}
use dcos_log.Mesos.Chunks.{body, weight}

module _ {ℓ} {A : Type ℓ} (P : A → Type 0) where
  pub All-reverse : (xs : List A) → All P xs → All P (reverse xs)
  All-reverse [] h = h
  All-reverse (x ∷ xs) (h, hs) =
      subst (All P) (sym (reverse-cons x xs))
        (All-append P (reverse xs) (x ∷ []) (All-reverse xs hs) (h, tt))

pub length-reverse {ℓ} : {A : Type ℓ} (xs : List A) → length (reverse xs) ≡ length xs
length-reverse [] = refl
length-reverse (x ∷ xs) =
    ap length (reverse-cons x xs)
    ∙ omega (arith, length-append (reverse xs) (x ∷ []), length-reverse xs)

pub reverse_text-ascii : (s : Bytes) → IsAscii s → reverse_text s ≡ reverse s
unfolding reverse_text
reverse_text-ascii s h =
    ap (λ t. from_runes (reverse t)) (runes-ascii s h)
    ∙ from_runes-ascii (reverse s) (All-reverse (λ c. c < 0x80) s h)

cons_head-append :
    (c : ℕ) (ps qs : List Bytes) → ps ≢ [] → cons_head c (ps ++ qs) ≡ cons_head c ps ++ qs
cons_head-append c [] qs h = absurd (h refl)
cons_head-append c (p ∷ ps) qs h = refl

pub split-append : (sep : ℕ) (s t : Bytes) → split (s ++ (sep ∷ t)) sep ≡ split s sep ++ split t sep
unfolding split
split-append sep [] t = ground arith
split-append sep (c ∷ s) t =
    let here = split-append sep s t in
    let first = cons_head-append c (split s sep) (split t sep) (split-ne-nil s sep) in ground arith

-- The lines from the last one up, each reversed.
unfoldable pub upward : List Bytes → List Bytes
upward [] = []
upward (l ∷ ls) = upward ls ++ (reverse l ∷ [])

pub upward-append : (xs ys : List Bytes) → upward (xs ++ ys) ≡ upward ys ++ upward xs
unfolding upward
upward-append [] ys = sym (append-nil (upward ys))
upward-append (x ∷ xs) ys =
    ap (λ t. t ++ (reverse x ∷ [])) (upward-append xs ys)
    ∙ append_assoc (upward ys) (upward xs) (reverse x ∷ [])

pub split-upward :
    (ls : List Bytes) → All (Lacks b'\n') ls → split (reverse (body ls)) b'\n' ≡ [] ∷ upward ls
unfolding upward split
split-upward [] h = refl
split-upward (l ∷ ls) (h, hs) =
    ap (λ t. split t b'\n')
      (reverse-append l (b'\n' ∷ body ls)
        ∙ ap (λ t. t ++ reverse l) (reverse-cons b'\n' (body ls))
        ∙ append_assoc (reverse (body ls)) (b'\n' ∷ []) (reverse l))
    ∙ split-append b'\n' (reverse (body ls)) (reverse l)
    ∙ (λ i.
        split-upward ls hs i
        ++ split_lacking b'\n' (reverse l) (All-reverse (λ c. c ≢ b'\n') l h) i)

pub weight-append : (xs ys : List Bytes) → weight (xs ++ ys) ≡ weight xs + weight ys
weight-append [] ys = omega arith
weight-append (x ∷ xs) ys = omega (arith, weight-append xs ys)

pub weight-upward : (ls : List Bytes) → weight (upward ls) ≡ weight ls
unfolding upward
weight-upward [] = refl
weight-upward (l ∷ ls) =
    omega (arith, weight-append (upward ls) (reverse l ∷ []), weight-upward ls, length-reverse l)

pub length-upward : (ls : List Bytes) → length (upward ls) ≡ length ls
unfolding upward
length-upward [] = refl
length-upward (l ∷ ls) = omega (arith, length-append (upward ls) (reverse l ∷ []), length-upward ls)

pub upward-filled : (ls : List Bytes) → All (λ l. l ≢ []) ls → All (λ l. l ≢ []) (upward ls)
unfolding upward
upward-filled [] h = tt
upward-filled (l ∷ ls) (h, hs) =
    All-append (λ t. t ≢ []) (upward ls) (reverse l ∷ []) (upward-filled ls hs)
      ((λ e. h (reverse_nil l e)), tt)
  where
    reverse_nil : (s : Bytes) → reverse s ≡ [] → s ≡ []
    reverse_nil [] e = refl
    reverse_nil (c ∷ s) e = absurd (omega (arith, ap length e, length-reverse (c ∷ s)))

-- Past lines that are not blank, the offset moves back by what they take up.
pub move_back-place_lines :
    (ms rest : List Bytes) (j k off a : ℕ) (o : ℤ)
    → All (λ l. l ≢ []) ms
    → j + length ms ≡ k
    → weight ms ≤ off
    → off < 2 ^ 63
    → move_back (pos k) j (place_lines o a (ms ++ rest)) (pos off) ≡ pos (off - weight ms)
unfolding move_back place_lines
move_back-place_lines [] [] j k off a o filled count le fits = ap pos (omega arith)
move_back-place_lines [] (r ∷ rest) j k off a o filled count le fits = ground arith
move_back-place_lines ((c ∷ m) ∷ ms) rest j k off a o (h, filled) count le fits =
    let on =
      move_back-place_lines ms rest (j + 1) k (off - (length m + 2)) (a + (length m + 2)) o filled
        (omega arith) (omega arith) (omega arith) in
    let back = -ℤ_pos off (length m + 2) (omega arith) fits in ground arith
move_back-place_lines ([] ∷ ms) rest j k off a o (h, filled) count le fits = absurd (h refl)
