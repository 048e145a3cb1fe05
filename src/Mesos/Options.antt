-- ===== src/Mesos/Options.antt =====
-- The functional options of dcos-log/mesos/files/reader/option.go. An option that fails leaves no
-- reader behind, so its result is the new reader or the error.
use dcos_log.Base.{if◌then◌else◌, Bool, Bytes, ℤ, is_negative, Result, ok, err, ◌>>=◌}
use dcos_log.Mesos.Types.{Error, invalid_offset, Header, ReadDirection, ReadManager}
use dcos_log.Mesos.Client.{file_len}

abbrev pub ReadOption : Type 0
ReadOption = ReadManager → Result Error ReadManager

unfoldable pub opt_lines : ℤ → ReadOption
opt_lines n rm = ok (record rm { read_limit = n })

unfoldable pub opt_skip : ℤ → ReadOption
opt_skip n rm = ok (record rm { skip = n })

unfoldable pub opt_file : Bytes → ReadOption
opt_file f rm = ok (record rm { file = f })

unfoldable pub opt_headers : Header → ReadOption
opt_headers h rm = ok (record rm { header = h })

unfoldable pub opt_read_direction : ReadDirection → ReadOption
opt_read_direction d rm = ok (record rm { read_direction = d })

unfoldable pub opt_stream : Bool → ReadOption
opt_stream s rm = ok (record rm { stream = s })

unfoldable pub opt_offset : ℤ → ReadOption
opt_offset n rm = if is_negative n then err (invalid_offset n) else ok (record rm { offset = n })

unfoldable pub opt_read_from_end : ReadOption
unfolding opt_offset
opt_read_from_end rm = do n ← file_len rm; opt_offset n rm
