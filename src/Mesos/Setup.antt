-- ===== src/Mesos/Setup.antt =====
-- NewLineReader and calcOffset of dcos-log/mesos/files/reader/read.go.
use dcos_log.Base.{
  ℕ, zero, suc, ◌+◌, if◌then◌else◌, ◌&&◌, not, Bool, true, false, List, [], ◌∷◌, Bytes, bytes,
  is_empty, Option, none, some, ℤ, pos, ltb_ℤ, is_zero, is_negative, negate, ◌+ℤ◌, ◌-ℤ◌, Result, ok,
  err, ◌>>=◌, path_join, length,
}
use dcos_log.Mesos.Types.{
  chunk_size, Error, eof, parameters_empty, parameter_empty, out_of_fuel, Url, Externals, Line,
  top_to_bottom, bottom_to_top, ReadDirection, Formatter, ReadManager,
}
use dcos_log.Mesos.Text.{reverse_text}
use dcos_log.Mesos.Client.{read}
use dcos_log.Mesos.Options.{ReadOption}

-- notEmpty; which of several empty parameters the error names is left open by Go.
all_non_empty : List Bytes → Result Error (Unit {0})
all_non_empty [] = ok tt
all_non_empty (a ∷ as') =
    let rest = all_non_empty as' in if is_empty a then err parameter_empty else rest

unfoldable pub not_empty : List Bytes → Result Error (Unit {0})
unfolding all_non_empty
not_empty [] = err parameters_empty
not_empty (a ∷ as') = all_non_empty (a ∷ as')

-- The loop over the lines of a chunk, the last line of the file first: the new offset.
unfoldable pub move_back : ℤ → ℕ → List Line → ℤ → ℤ
move_back skip skipped [] offset = offset
move_back skip skipped (l ∷ ls) offset =
    let rest =
      move_back skip (if is_empty l.message then skipped else skipped + 1) ls
        (offset -ℤ pos (length l.message + 1)) in
    if ltb_ℤ (pos skipped) skip then rest else offset

-- The number of lines to skip, made positive.
abbrev pub skip_size : ReadManager → ℤ
skip_size rm = if is_negative rm.skip then negate rm.skip else rm.skip

-- The loop of calcOffset. The reader is changed in place, also where an error ends the loop.
unfoldable pub calc_loop : ℕ → ℤ → ℤ → ℤ → ReadManager → ReadManager × Option Error
unfolding move_back
calc_loop zero offset size found rm = (rm, some out_of_fuel)
calc_loop (suc fuel) offset size found rm = elim (read rm offset size reverse_text) [
  | err e ↦ (rm, some e)
  | ok (lines, delta) ↦
      let total = found +ℤ pos (length lines) in
      let offset' = offset -ℤ (pos chunk_size -ℤ pos delta) in
      elim (ltb_ℤ total (skip_size rm)) [
        | false ↦ (record rm { offset = move_back (skip_size rm) 0 lines rm.offset }, none)
        | true ↦ elim (is_negative offset') [
          | true ↦ (record rm { offset = pos 0 }, none)
          | false ↦ calc_loop fuel offset' (pos chunk_size) total (record rm { offset = offset' })
        ]
      ]
]

unfoldable pub calc_offset : ℕ → ℤ → ℤ → ReadManager → ReadManager × Option Error
unfolding calc_loop
calc_offset fuel offset size rm = calc_loop fuel offset size (pos 0) rm

-- `if opt != nil { … }` over the options in turn.
unfoldable pub apply_options : List (Option ReadOption) → ReadManager → Result Error ReadManager
apply_options [] rm = ok rm
apply_options (none ∷ opts) rm = apply_options opts rm
apply_options (some opt ∷ opts) rm = do rm' ← opt rm; apply_options opts rm'

abbrev pub is_bottom_to_top : ReadDirection → Bool
is_bottom_to_top bottom_to_top = true
is_bottom_to_top top_to_bottom = false

-- guard against negative offset
unfoldable pub guard_offset : ReadManager → ReadManager
guard_offset rm = if is_negative rm.offset then record rm { offset = pos 0 } else rm

-- The calls of calcOffset, and what becomes of its error.
unfoldable pub seek_back : ℕ → ReadManager → Result Error ReadManager
unfolding calc_offset guard_offset
seek_back fuel rm =
    let found =
      if ltb_ℤ (pos chunk_size) rm.offset
      then calc_offset fuel (rm.offset -ℤ pos chunk_size) (pos chunk_size) rm
      else calc_offset fuel (pos 0) rm.offset rm in
    elim found.1 [
      | none ↦ ok (guard_offset found.0)
      | some eof ↦ ok (guard_offset found.0)
      | some e ↦ err e
    ]

abbrev pub sandbox_root : Bytes
sandbox_root = bytes "/var/lib/mesos/slave/slaves"

unfoldable pub sandbox_path_of : Bytes → Bytes → Bytes → Bytes → Bytes → Bytes
sandbox_path_of agent_id framework_id executor_id container_id task_path =
    let runs = path_join (
      sandbox_root
      ∷ agent_id
      ∷ bytes "/frameworks"
      ∷ framework_id
      ∷ bytes "/executors"
      ∷ executor_id
      ∷ bytes "/runs"
      ∷ container_id
      ∷ []) in
    if is_empty task_path
    then runs
    else path_join (runs ∷ path_join (bytes "tasks" ∷ task_path ∷ []) ∷ [])

module _ (client : Externals) (master_url : Url) (format : Formatter)
    (agent_id framework_id executor_id container_id task_path file : Bytes) where
  -- The reader before its options.
  abbrev pub fresh_reader : ReadManager
  fresh_reader = record {
    client = client;
    read_endpoint = master_url;
    sandbox_path = sandbox_path_of agent_id framework_id executor_id container_id task_path;
    header = [];
    read_direction = top_to_bottom;
    read_limit = pos 0;
    skip = pos 0;
    skipped = pos 0;
    file = file;
    offset = pos 0;
    lines = [];
    read_lines = pos 0;
    stream = false;
    format_fn = format;
    agent_id = agent_id;
    framework_id = framework_id;
    executor_id = executor_id;
    container_id = container_id;
  }

  unfoldable pub new_line_reader : ℕ → List (Option ReadOption) → Result Error ReadManager
  unfolding apply_options seek_back guard_offset not_empty
  new_line_reader fuel opts = do
    checked ← not_empty (agent_id ∷ framework_id ∷ executor_id ∷ container_id ∷ [])
    rm ← apply_options opts fresh_reader
    if is_bottom_to_top rm.read_direction && not (is_zero rm.skip)
        then seek_back fuel rm
        else ok (guard_offset rm)
