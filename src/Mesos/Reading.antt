-- ===== src/Mesos/Reading.antt =====
-- Prepend, Pop and Read of dcos-log/mesos/files/reader/read.go.
use dcos_log.Base.{
  ℕ, zero, suc, ◌+◌, if◌then◌else◌, ltb, ◌&&◌, not, Bool, true, false, List, [], ◌∷◌, Bytes,
  is_empty, Option, none, some, ℤ, pos, pos_part, ltb_ℤ, ◌+ℤ◌, ◌-ℤ◌, Result, ok, err, length, take,
}
use dcos_log.Mesos.Types.{chunk_size, Error, eof, no_data, out_of_fuel, Line, ReadManager}
use dcos_log.Mesos.Client.{read}
use dcos_log.Mesos.Format.{formatted}

-- Blank lines are not kept.
unfoldable pub prepend : Line → ReadManager → ReadManager
prepend s rm = if is_empty s.message then rm else record rm { lines = s ∷ rm.lines }

-- The buffer without its last line, and that line.
unfoldable pub pop_last : List Line → Option (List Line × Line)
pop_last [] = none
pop_last (x ∷ []) = some ([], x)
pop_last (x ∷ (y ∷ ys)) = elim (pop_last (y ∷ ys)) [
  | none ↦ none
  | some (front, last) ↦ some (x ∷ front, last)
]

unfoldable pub pop : ReadManager → Option (ReadManager × Line)
unfolding pop_last
pop rm = elim (pop_last rm.lines) [
  | none ↦ none
  | some (front, last) ↦ some (record rm { lines = front }, last)
]

-- The loop that fills the buffer and adds up linesLen.
unfoldable pub prepend_all : List Line → ReadManager → ReadManager
unfolding prepend
prepend_all [] rm = rm
prepend_all (l ∷ ls) rm = prepend_all ls (prepend l rm)

unfoldable pub lines_len : List Line → ℕ
lines_len [] = 0
lines_len (l ∷ ls) = length l.message + 1 + lines_len ls

-- The offset after a chunk of lines.
unfoldable pub next_offset : ℤ → ℕ → ℕ → ℤ
next_offset offset len delta =
    if ltb len chunk_size
    then offset +ℤ pos len -ℤ pos 1
    else offset +ℤ pos chunk_size -ℤ pos delta -ℤ pos 1

-- What Read does with the lines of a chunk.
unfoldable pub take_chunk : List Line → ℕ → ReadManager → ReadManager
unfolding prepend_all next_offset lines_len
take_chunk [] delta rm = rm
take_chunk (l ∷ ls) delta rm =
    let rm' = prepend_all (l ∷ ls) rm in
    record rm' { offset = next_offset rm.offset (lines_len (l ∷ ls)) delta }

-- The buffer is filled when it is empty.
unfoldable pub fill : ReadManager → Result Error ReadManager
unfolding take_chunk
fill rm = elim rm.lines [
  | [] ↦ elim (read rm rm.offset (pos chunk_size) (λ s. s)) [
    | err e ↦ err e
    | ok (lines, delta) ↦ ok (take_chunk lines delta rm)
  ]
  | l ∷ ls ↦ ok rm
]

abbrev pub eq_ℤ : ℤ → ℤ → Bool
eq_ℤ a b = not (ltb_ℤ a b) && not (ltb_ℤ b a)

abbrev pub limit_reached : ReadManager → Bool
limit_reached rm =
    not rm.stream && (ltb_ℤ (pos 0) rm.read_limit && eq_ℤ rm.read_lines rm.read_limit)

abbrev pub must_skip : ReadManager → Bool
must_skip rm = ltb_ℤ (pos 0) rm.skip && ltb_ℤ rm.skipped rm.skip

-- One turn from the label `start` on; `again` is the jump back to it.
unfoldable pub read_turn :
    (ReadManager → ReadManager × Result Error Bytes)
    → ReadManager
    → ReadManager × Result Error Bytes
read_turn again rm = if limit_reached rm then (rm, err eof) else (elim (fill rm) [
  | err e ↦ (rm, err e)
  | ok filled ↦ elim (pop filled) [
    | none ↦ (filled, err no_data)
    | some (rm', line) ↦ elim (must_skip rm') [
      | true ↦ again (record rm' { skipped = rm'.skipped +ℤ pos 1 })
      | false ↦
          let counted = record rm' { read_lines = rm'.read_lines +ℤ pos 1 } in
          (counted, ok (formatted rm'.format_fn line counted))
    ]
  ]
])

unfoldable pub read_loop : ℕ → ReadManager → ReadManager × Result Error Bytes
unfolding read_turn
read_loop zero rm = (rm, err out_of_fuel)
read_loop (suc fuel) rm = read_turn (read_loop fuel) rm

-- Every turn but the last skips a line.
abbrev pub read_fuel : ReadManager → ℕ
read_fuel rm = suc (pos_part (rm.skip -ℤ rm.skipped))

-- strings.NewReader(s).Read(b) for a buffer of `n` bytes; what does not fit is lost.
abbrev pub read_into : ℕ → Result Error Bytes → Result Error Bytes
read_into n (err e) = err e
read_into n (ok []) = err eof
read_into n (ok (c ∷ s)) = ok (take n (c ∷ s))

unfoldable pub read_line : ReadManager → ℕ → ReadManager × Result Error Bytes
unfolding read_loop
read_line rm n = let (rm', result) = read_loop (read_fuel rm) rm in (rm', read_into n result)
