-- ===== src/Tests/Seeks.antt =====
-- The search for the last lines at a concrete files API.
use dcos_log.Base.{
  ◌-◌, Bool-cases, negate_negsuc, ltb_ℤ, inl, inr, ◌≢◌, arith, [], bytes, pos, negsuc, ok, some,
  none, split,
}
use dcos_log.Mesos.Types.{Externals, ReadManager, Url, line_format, out_of_fuel, chunk_size}
use dcos_log.Mesos.Text.{reverse_text}
use dcos_log.Mesos.Client.{read, chunk_lines, cut_partial, place_lines, split_last}
use dcos_log.Mesos.Setup.{fresh_reader, calc_offset}
use dcos_log.Mesos.SeekBack.{IsBounded, calc_offset-ends}

-- It answers every request with the same two lines.
abbrev same_lines : Externals
same_lines = record {
  new_request = λ url query. none;
  send = λ req. ok (record { status = 200; header = []; body = [] });
  decode = λ b. ok (record { content = bytes "a\nb\n"; offset = pos 0 });
  decode_files = λ time b. ok [];
  marshal_fields = λ fields. ok [];
}

abbrev url : Url
url = record { scheme = bytes "http"; host = bytes "h"; path = bytes "/files/read" }

abbrev seeking : ReadManager
seeking =
    record (fresh_reader same_lines url line_format (bytes "S") (bytes "F") (bytes "E") (bytes "C")
      [] (bytes "stdout")) { skip = negsuc 4; offset = pos 100000 }

few : IsBounded seeking
unfolding read chunk_lines cut_partial place_lines split_last split reverse_text
few offset size ls delta h = elim (Bool-cases (ltb_ℤ (pos 0) offset)) [
  | inl cut ↦ ground arith
  | inr top ↦ ground arith
]

calc_offset-ends_example :
    (calc_offset 6 (pos (100000 - chunk_size)) (pos chunk_size) seeking).1 ≢ some out_of_fuel
calc_offset-ends_example =
    calc_offset-ends 6 5 (pos (100000 - chunk_size)) (pos chunk_size) seeking
      (negate_negsuc 4 (omega arith)) (omega arith) (omega arith) few
