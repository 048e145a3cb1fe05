-- ===== src/Mesos/Chunks.antt =====
-- How a chunk of a file of complete lines is cut: strings.Split and the loops of `read` over it.
use mathlib.Core.Bool.{true}
use native.Mathlib.Decide.{dec_le}
use dcos_log.Base.{
  ℕ, zero, suc, ◌+◌, ◌-◌, ◌≤◌, ◌≡◌, refl, ap, sym, ◌∙◌, ◌≢◌, List, [], ◌∷◌, ◌++◌, append_assoc,
  arith, Bytes, All, Lacks, length, take, drop, split, split_lacking, split_front, pos, ltb_ℤ, ℤ,
}
use dcos_log.Mesos.Client.{split_last, cut_partial}

-- The text of complete lines, and the same behind the newline of an earlier line.
abbrev pub body : List Bytes → Bytes
body [] = []
body (l ∷ ls) = l ++ (b'\n' ∷ body ls)

abbrev pub text_of : List Bytes → Bytes
text_of ls = b'\n' ∷ body ls

-- What lines take up, each with its newline.
abbrev pub weight : List Bytes → ℕ
weight [] = 0
weight (l ∷ ls) = length l + 1 + weight ls

pub body-append : (xs ys : List Bytes) → body (xs ++ ys) ≡ body xs ++ body ys
body-append [] ys = refl
body-append (x ∷ xs) ys =
    ap (λ t. x ++ (b'\n' ∷ t)) (body-append xs ys)
    ∙ sym (append_assoc x (b'\n' ∷ body xs) (body ys))

module _ {ℓ} {A : Type ℓ} where
  pub drop-append : (xs ys : List A) → drop (length xs) (xs ++ ys) ≡ ys
  drop-append [] ys = refl
  drop-append (x ∷ xs) ys = drop-append xs ys

  drop-nil : (n : ℕ) → drop {A = A} n [] ≡ []
  drop-nil zero = refl
  drop-nil (suc n) = refl

  pub drop-drop : (n m : ℕ) (xs : List A) → drop m (drop n xs) ≡ drop (n + m) xs
  drop-drop zero m xs = ap (λ (k : ℕ). drop k xs) (omega arith)
  drop-drop (suc n) m [] = drop-nil m ∙ sym (drop-nil (suc n + m))
  drop-drop (suc n) m (x ∷ xs) =
      drop-drop n m xs ∙ ap (λ (k : ℕ). drop k (x ∷ xs)) {x = suc (n + m)} (omega arith)

  take_past : (xs ys : List A) (n : ℕ) → take (length xs + n) (xs ++ ys) ≡ xs ++ take n ys
  take_past [] ys n = ap (λ (k : ℕ). take k ys) {x = 0 + n} (omega arith)
  take_past (x ∷ xs) ys n =
      ap (λ (k : ℕ). take k (x ∷ (xs ++ ys))) {x = suc (length xs) + n} {y = suc (length xs + n)}
        (omega arith)
      ∙ ap (λ t. x ∷ t) (take_past xs ys n)

  pub take_append_le : (xs ys : List A) (n : ℕ) → n ≤ length xs → take n (xs ++ ys) ≡ take n xs
  take_append_le xs ys zero h = refl
  take_append_le [] ys (suc n) h = elim h [ ]
  take_append_le (x ∷ xs) ys (suc n) h = ap (λ t. x ∷ t) (take_append_le xs ys n (omega arith))

  pub take_all : (xs : List A) (n : ℕ) → length xs ≤ n → take n xs ≡ xs
  take_all [] zero h = refl
  take_all [] (suc n) h = refl
  take_all (x ∷ xs) zero h = elim h [ ]
  take_all (x ∷ xs) (suc n) h = ap (λ t. x ∷ t) (take_all xs n (omega arith))

length-take-le {ℓ} : {A : Type ℓ} (n : ℕ) (xs : List A) → length (take n xs) ≤ n
length-take-le zero xs = omega arith
length-take-le (suc n) [] = omega arith
length-take-le (suc n) (x ∷ xs) = omega (arith, length-take-le n xs)

Lacks-take : (sep n : ℕ) (s : Bytes) → Lacks sep s → Lacks sep (take n s)
Lacks-take sep zero s h = tt
Lacks-take sep (suc n) [] h = tt
Lacks-take sep (suc n) (c ∷ s) (h, hs) = (h, Lacks-take sep n s hs)

-- The first line fits, so it is among the lines that the cut keeps.
abbrev Started : ℕ → List Bytes → List Bytes → Type 0
Started n [] whole = Unit
Started n (y ∷ ys) whole = length y + 1 ≤ n → whole ≢ []

-- The first `n` bytes of lines: whole lines, and a part of the next one.
pub record Cut (n : ℕ) (ys : List Bytes) : Type 0 where
  pub whole : List Bytes
  pub rest : List Bytes
  pub part : Bytes
  pub parts : ys ≡ whole ++ rest
  pub cut : split (take n (body ys)) b'\n' ≡ whole ++ part ∷ []
  pub small : weight whole + length part ≤ n
  pub started : Started n ys whole

Cut-line :
    (n : ℕ) (y : Bytes) (ys : List Bytes)
    → Lacks b'\n' y
    → length y + 1 ≤ n
    → Cut (n - (length y + 1)) ys
    → Cut n (y ∷ ys)
Cut-line n y ys h fits c = record {
  whole = y ∷ c.whole;
  rest = c.rest;
  part = c.part;
  parts = ap (λ t. y ∷ t) c.parts;
  cut =
      ap (λ t. split t b'\n')
        (ap (λ (k : ℕ). take k (y ++ (b'\n' ∷ body ys))) {y = length y + suc m} (omega arith)
          ∙ take_past y (b'\n' ∷ body ys) (suc m))
      ∙ split_front b'\n' y (take m (body ys)) h
      ∙ ap (λ t. y ∷ t) c.cut;
  small = let k = c.small in omega arith;
  started = λ _. cc;
}
  where
    m : ℕ
    m = n - (length y + 1)

pub Cut-at : (n : ℕ) (ys : List Bytes) → All (Lacks b'\n') ys → Cut n ys
Cut-at n [] h = record {
  whole = [];
  rest = [];
  part = [];
  parts = refl;
  cut = ap (λ t. split t b'\n') (take_nil n) ∙ split_lacking b'\n' [] tt;
  small = omega arith;
  started = tt;
}
  where
    take_nil : (k : ℕ) → take k (body []) ≡ []
    take_nil zero = refl
    take_nil (suc k) = refl
Cut-at n (y ∷ ys) (h, hs) = elim (dec_le (length y + 1) n) [
  | yes fits ↦ Cut-line n y ys h fits (Cut-at (n - (length y + 1)) ys hs)
  | no long ↦ record {
    whole = [];
    rest = y ∷ ys;
    part = take n y;
    parts = refl;
    cut =
        ap (λ t. split t b'\n') (take_append_le y (b'\n' ∷ body ys) n (omega arith))
        ∙ split_lacking b'\n' (take n y) (Lacks-take b'\n' n y h);
    small = omega (arith, length-take-le {0} n y);
    started = λ fits. absurd (long fits);
  }
]

split_last-append {ℓ} :
    {A : Type ℓ} (x : A) (xs : List A) (z : A) → split_last x (xs ++ z ∷ []) ≡ (x ∷ xs, z)
unfolding split_last
split_last-append x [] z = refl
split_last-append x (y ∷ ys) z = rw (split_last-append y ys z)

-- Away from the start of the file the last part is cut off.
pub cut_partial-append :
    (offset : ℤ) (p : Bytes) (ps : List Bytes) (part : Bytes)
    → ltb_ℤ (pos 0) offset ≡ true
    → cut_partial offset (p ∷ (ps ++ part ∷ [])) ≡ (p ∷ ps, length part)
unfolding cut_partial
cut_partial-append offset p [] part h = rw h
cut_partial-append offset p (q ∷ qs) part h = rw (h, split_last-append q qs part)
