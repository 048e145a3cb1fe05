-- ===== src/Mesos/Totality.antt =====
-- The loops of dcos-log/mesos/files/reader/read.go end.
use dcos_log.Base.{
  ℕ, zero, suc, ◌+◌, ◌-◌, ◌≤◌, ◌<◌, ◌^◌, ◌≡◌, refl, ap, ◌∙◌, ◌≢◌, true, false, List, [], ◌∷◌, arith,
  Bytes, pos, pos_part, ℤ, ◌+ℤ◌, ◌-ℤ◌, +ℤ_pos, -ℤ_pos, Option, none, some, Result, ok, err, inl,
  inr, Bool-cases,
}
use dcos_log.Mesos.Types.{chunk_size, Error, out_of_fuel, Line, ReadManager}
use dcos_log.Mesos.Client.{read}
use dcos_log.Mesos.Reading.{
  fill, pop, prepend, prepend_all, take_chunk, read_turn, read_loop, read_line, read_fuel,
  read_into, must_skip, limit_reached,
}

-- The result of `read` is not the model's own error.
pub read-fuel : (rm : ReadManager) (o n : ℤ) (f : Bytes → Bytes) → read rm o n f ≢ err out_of_fuel
unfolding read
read-fuel rm o n f = ground arith

fill-fuel : (rm : ReadManager) → fill rm ≢ err out_of_fuel
unfolding fill
fill-fuel rm = ground (arith, read-fuel rm rm.offset (pos chunk_size) (λ s. s))

prepend_all-skips :
    (ls : List Line) (rm : ReadManager)
    → ((prepend_all ls rm).skip ≡ rm.skip) × ((prepend_all ls rm).skipped ≡ rm.skipped)
unfolding prepend_all
prepend_all-skips [] rm = (refl, refl)
prepend_all-skips (l ∷ ls) rm = ground (arith, prepend_all-skips ls (prepend l rm))

take_chunk-skips :
    (ls : List Line) (d : ℕ) (rm : ReadManager)
    → ((take_chunk ls d rm).skip ≡ rm.skip) × ((take_chunk ls d rm).skipped ≡ rm.skipped)
unfolding take_chunk
take_chunk-skips [] d rm = (refl, refl)
take_chunk-skips (l ∷ ls) d rm = prepend_all-skips (l ∷ ls) rm

fill-skips : (rm r : ReadManager) → fill rm ≡ ok r → (r.skip ≡ rm.skip) × (r.skipped ≡ rm.skipped)
unfolding fill
fill-skips rm r e = go rm.lines refl (read rm rm.offset (pos chunk_size) (λ s. s)) refl
  where
    go :
        (ls : List Line)
        → rm.lines ≡ ls
        → (got : Result Error (List Line × ℕ)) → read rm rm.offset (pos chunk_size) (λ s. s) ≡ got
        → (r.skip ≡ rm.skip) × (r.skipped ≡ rm.skipped)
    go (l ∷ ls) full got g = ground arith
    go [] empty (err x) g = absurd (ground arith)
    go [] empty (ok (lines, d)) g = ground (arith, take_chunk-skips lines d rm)

pop-skips :
    (rm r : ReadManager) (l : Line)
    → pop rm ≡ some (r, l)
    → (r.skip ≡ rm.skip) × (r.skipped ≡ rm.skipped)
unfolding pop
pop-skips rm r l e = ground arith

-- What is left to skip, as the loop counts it.
abbrev Left : ℕ → ReadManager → Type 0
Left k rm = (j m : ℕ) × (rm.skipped ≡ pos j) × (rm.skip ≡ pos m) × (m < 2 ^ 63) × (m ≤ j + k)

turn_total :
    (again : ReadManager → ReadManager × Result Error Bytes) (rm : ReadManager)
    → ((r : ReadManager)
        → r.skip ≡ rm.skip
        → r.skipped ≡ rm.skipped +ℤ pos 1
        → must_skip rm ≡ true
        → (again r).1 ≢ err out_of_fuel)
    → (read_turn again rm).1 ≢ err out_of_fuel
unfolding read_turn
turn_total again rm later e = elim (Bool-cases (limit_reached rm)) [
  | inl reached ↦ absurd (ground arith)
  | inr free ↦ filled free (fill rm) refl
]
  where
    popped :
        (r : ReadManager)
        → limit_reached rm ≡ false
        → fill rm ≡ ok r
        → (p : Option (ReadManager × Line)) → pop r ≡ p
        → ⊥
    popped r free f none p = absurd (ground arith)
    popped r free f (some (r', l)) p = elim (Bool-cases (must_skip r')) [
      | inl more ↦
          later (record r' { skipped = r'.skipped +ℤ pos 1 })
            (ground (arith, fill-skips rm r f, pop-skips r r' l p))
            (ground (arith, fill-skips rm r f, pop-skips r r' l p))
            (ground (arith, fill-skips rm r f, pop-skips r r' l p)) (ground arith)
      | inr done ↦ absurd (ground arith)
    ]

    filled : limit_reached rm ≡ false → (g : Result Error ReadManager) → fill rm ≡ g → ⊥
    filled free (err x) g = fill-fuel rm (ground arith)
    filled free (ok r) g = popped r free g (pop r) refl

loop_total : (k : ℕ) (rm : ReadManager) → Left k rm → (read_loop (suc k) rm).1 ≢ err out_of_fuel
unfolding read_loop
loop_total zero rm (j, m, skipped, skip, fits, left) =
    turn_total (read_loop zero) rm (λ r same next more. absurd (ground arith))
loop_total (suc k) rm (j, m, skipped, skip, fits, left) =
    turn_total (read_loop (suc k)) rm (λ r same next more.
      let below : j < m = ground arith in
      loop_total k r (
        j + 1,
        m,
        next ∙ ap (λ t. t +ℤ pos 1) skipped ∙ +ℤ_pos j 1 (omega arith),
        same ∙ skip,
        fits,
        omega arith,
      ))

-- Read ends, whatever the files API answers and however the lines fall: the jumps back to its start
-- are at most the lines left to skip. The counters are in the range of an int and not negative.
pub read_line-ends :
    (rm : ReadManager) (n j m : ℕ)
    → rm.skipped ≡ pos j
    → rm.skip ≡ pos m
    → j ≤ m
    → m < 2 ^ 63
    → (read_line rm n).1 ≢ err out_of_fuel
unfolding read_line
read_line-ends rm n j m skipped skip le fits e =
    let left : rm.skip -ℤ rm.skipped ≡ pos (m - j) =
      (λ i. skip i -ℤ skipped i) ∙ -ℤ_pos m j le fits in
    let whole =
      loop_total (pos_part (rm.skip -ℤ rm.skipped)) rm
        (j, m, skipped, skip, fits, omega (arith, ap pos_part left)) in
    into (read_loop (read_fuel rm) rm).1 whole e
  where
    into : (r : Result Error Bytes) → r ≢ err out_of_fuel → read_into n r ≢ err out_of_fuel
    into (err x) h e = h e
    into (ok []) h e = cc
    into (ok (c ∷ s)) h e = cc
