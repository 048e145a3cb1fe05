-- ===== src/Mesos/WindowCopy.antt =====
-- io.Copy from a reader of dcos-log/mesos/files/reader with lines to skip and a limit.
use dcos_log.Base.{
  ℕ, zero, suc, ◌+◌, ◌-◌, ◌≤◌, ◌<◌, ◌^◌, ◌≡◌, ◌≢◌, ap, sym, ◌∙◌, subst, inl, inr, List, [], ◌∷◌,
  ◌++◌, append_assoc, arith, Bytes, All, length, drop, length-drop, pos, pos_part, ◌-ℤ◌, -ℤ_pos,
  Option, none, Result, ok, copy_buffer, copy_ends, copy_goes_on,
}
use dcos_log.Mesos.Types.{chunk_size, Error, eof, out_of_fuel, line_format, ReadManager}
use dcos_log.Mesos.Format.{formatted}
use dcos_log.Mesos.Reading.{read_line, read_into}
use dcos_log.Mesos.Chunks.{body}
use dcos_log.Mesos.Follow.{IsLine, IsLine-filled}
use dcos_log.Mesos.CopyOut.{is_eof, copy_lines, FitsBuffer, written}
use dcos_log.Mesos.Window.{Skips, within, spent, IsBefore}
use dcos_log.Mesos.Supply.{Follows-Supplies}
use dcos_log.Mesos.WindowRead.{IsSupplied, Reads, reads}

All-drop {ℓ} : {A : Type ℓ} (P : A → Type 0) (k : ℕ) (xs : List A) → All P xs → All P (drop k xs)
All-drop P zero xs h = h
All-drop P (suc k) [] h = h
All-drop P (suc k) (x ∷ xs) (h, hs) = All-drop P k xs hs

-- Enough turns for the lines to skip.
enough_turns : (rm : ReadManager) (k : ℕ) → Skips rm k → k ≤ pos_part (rm.skip -ℤ rm.skipped)
enough_turns rm zero h = omega arith
enough_turns rm (suc k) (j, m, at, upto, sum, fits) =
    let left : rm.skip -ℤ rm.skipped ≡ pos (m - j) =
      (λ i. upto i -ℤ at i) ∙ -ℤ_pos m j (omega arith) fits in
    omega (arith, ap pos_part left)

-- Copying from a reader that supplies lines writes exactly those that its skip and its limit leave. Lines
-- are not blank and fit the buffer, and the reader formats plain lines.
pub copy_lines-supplied :
    (ls : List Bytes) (rm : ReadManager) (budget : Option ℕ) (k fuel : ℕ)
    → All (λ l. l ≢ []) ls
    → All FitsBuffer ls
    → rm.format_fn ≡ line_format
    → IsSupplied rm budget k ls
    → length ls < fuel
    → (rm' : ReadManager) × (copy_lines fuel rm ≡ (rm', body (within budget (drop k ls)), none))
unfolding copy_lines read_line
copy_lines-supplied ls rm budget k zero lines buffers plain before h = elim h [ ]
copy_lines-supplied ls rm budget k (suc fuel) lines buffers plain before h =
    let turns = pos_part (rm.skip -ℤ rm.skipped) in
    go (reads rm budget k turns ls before (enough_turns rm k before.skips))
      (λ rest after smaller whole plain' b.
        copy_lines-supplied rest after (spent budget) 0 fuel (whole.0) (whole.1) plain' b smaller)
  where
    of_turn : ReadManager × Result Error Bytes → ReadManager × Result Error Bytes
    of_turn t = (t.0, read_into copy_buffer t.1)

    go :
        Reads rm budget k ls (pos_part (rm.skip -ℤ rm.skipped))
        → ((rest : List Bytes) (after : ReadManager)
            → length rest < fuel
            → All (λ l. l ≢ []) rest × All FitsBuffer rest
            → after.format_fn ≡ line_format
            → IsSupplied after (spent budget) 0 rest
            → (rm' : ReadManager) × (copy_lines fuel after
                ≡ (rm', body (within (spent budget) rest), none)))
        → (rm' : ReadManager) × (copy_lines (suc fuel) rm
            ≡ (rm', body (within budget (drop k ls)), none))
    go (inl (rm', stops, none_left)) later = (
      rm',
      copy_ends read_line is_eof out_of_fuel fuel rm rm' eof (ap of_turn stops)
          ∙ ap (λ t. (rm', body t, none)) (sym none_left),
    )
    go (inr (l, rest, parts, some_left, g)) later =
        let good = subst (All (λ l. l ≢ [])) parts (All-drop (λ l. l ≢ []) k ls lines) in
        let small = subst (All FitsBuffer) parts (All-drop FitsBuffer k ls buffers) in
        let (rm', copied) =
          later rest g.after (omega (arith, ap length parts, length-drop k ls)) (good.1, small.1)
            (g.same_format ∙ plain) g.supplied in
        let out =
          ap of_turn g.result
          ∙ ap (λ t. (g.after, read_into copy_buffer (ok (formatted t g.line g.after)))) plain
          ∙ ap (λ t. (g.after, t)) (written g.line g.after l g.message good.0 small.0) in
        (
          rm',
          copy_goes_on read_line is_eof out_of_fuel fuel rm g.after rm' (l ++ b'\n' ∷ [])
                (body (within (spent budget) rest)) none out copied
              ∙ ap (λ t. (rm', t, none))
                  (append_assoc l (b'\n' ∷ []) (body (within (spent budget) rest)))
              ∙ ap (λ t. (rm', body t, none)) (sym some_left),
        )

-- Copying from a reader in front of complete lines of a served file writes exactly those lines that its
-- skip and its limit leave: the first ones are passed over, as many as are left to skip, and no more
-- are written than the limit lets through. It ends without an error, and any fuel beyond the number of
-- lines is enough. The reader formats plain lines, lines are not blank and fit the buffer, and the
-- file's size fits an int.
pub copy_lines-within :
    (file : Bytes) (ls : List Bytes) (rm : ReadManager) (budget : Option ℕ) (k fuel : ℕ)
    → length file + chunk_size < 2 ^ 63
    → All IsLine ls
    → All FitsBuffer ls
    → rm.format_fn ≡ line_format
    → IsBefore file rm budget k ls
    → length ls < fuel
    → (rm' : ReadManager) × (copy_lines fuel rm ≡ (rm', body (within budget (drop k ls)), none))
copy_lines-within file ls rm budget k fuel fits lines buffers plain before h =
    copy_lines-supplied ls rm budget k fuel (IsLine-filled ls lines) buffers plain
      (record {
        supplies = Follows-Supplies file ls rm fits lines before.serves before.follows;
        skips = before.skips;
        allows = before.allows;
      })
      h
