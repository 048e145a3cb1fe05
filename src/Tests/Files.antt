-- ===== src/Tests/Files.antt =====
-- The reader of the Mesos files API at a file of three lines.
use dcos_log.Base.{
  ap, ◌++◌, Lacks, ◌-◌, ℕ, zero, suc, ◌-◌, ◌≡◌, ◌≢◌, refl, true, false, List, [], ◌∷◌, arith, Bytes,
  bytes, All, take, drop, length, pos, negsuc, ◌+ℤ◌, none, some, Result, ok, err, map, replicate,
  itoa, int64,
}
use dcos_log.Mesos.Types.{
  Externals, Query, int, Response, Url, Line, ReadManager, line_format, chunk_size, out_of_fuel,
}
use dcos_log.Mesos.Options.{opt_headers, ReadOption}
use dcos_log.Mesos.Setup.{seek_back, new_line_reader, fresh_reader}
use dcos_log.Mesos.Reading.{read_line, fill}
use dcos_log.Mesos.Chunks.{body, take_all}
use dcos_log.Mesos.Follow.{IsLine}
use dcos_log.Mesos.Delivery.{IsReady, Delivers, read_line-Delivers}
use dcos_log.Mesos.CopyOut.{copy_lines, copy_lines-body}
use dcos_log.Mesos.LastLines.{copy_lines-seek_back}
use dcos_log.Mesos.Totality.{read_line-ends}
use dcos_log.Mesos.Losses.{read_line_cut, fill_first_chunk}
use dcos_log.Api.Types.{HttpRequest, get}
use dcos_log.Api.V2.Params.{build_opts}
use dcos_log.Api.V2.Resume.{resume_after_line}

-- The body of an answer is the offset and the length that were asked for.
abbrev asked : Query → Bytes
asked (path ∷ ((o, int (pos offset)) ∷ ((l, int (pos size)) ∷ []))) = offset ∷ size ∷ []
asked _ = []

abbrev answer : Bytes → Bytes → Result Bytes Response
answer file (offset ∷ (size ∷ [])) =
    ok (record { content = take size (drop offset file); offset = pos offset })
-- Without them it is asked for the length.
answer file [] = ok (record { content = []; offset = pos (length file) })
answer file _ = err []

abbrev pub server : Bytes → Externals
server file = record {
  new_request = λ url query. none;
  send = λ req. ok (record { status = 200; header = []; body = asked req.query });
  decode = answer file;
  decode_files = λ time b. ok [];
  marshal_fields = λ fields. ok [];
}

abbrev pub here : Url
here = record { scheme = bytes "http"; host = bytes "agent"; path = bytes "/files/read" }

-- The lines of the file behind the first one.
abbrev pub later_lines : List Bytes
later_lines = bytes "ab" ∷ bytes "cde" ∷ []

abbrev pub sample : Bytes
sample = bytes "x\nab\ncde\n"

-- A reader of a file, on a place of it.
abbrev pub reader_at : Bytes → ℕ → ReadManager
reader_at file offset =
    record (fresh_reader (server file) here line_format (bytes "S") (bytes "F") (bytes "E")
      (bytes "C") [] (bytes "stdout")) { offset = pos offset }

pub are_lines : All IsLine later_lines
are_lines = ((cc, omega arith, omega arith), ((cc, omega arith, omega arith), tt))

pub ready : IsReady sample (reader_at sample 1) later_lines
ready = record {
  serves = λ o n. (record { status = 200; header = []; body = o ∷ n ∷ [] }, refl, refl, refl, refl);
  unlimited = (refl, refl);
  follows = record {
    off = 1;
    at = refl;
    positive = omega arith;
    queue = [];
    buffered = refl;
    waiting = refl;
  };
}

copy_lines-body_example :
    (rm' : ReadManager) × (copy_lines 3 (reader_at sample 1) ≡ (rm', body later_lines, none))
    × IsReady sample rm' []
copy_lines-body_example =
    copy_lines-body sample later_lines (reader_at sample 1) 3 (omega arith) are_lines (omega arith)
      refl ready (omega arith)

read_line-Delivers_example :
    Delivers sample (reader_at sample 1) 100 (bytes "ab") (bytes "cde" ∷ [])
read_line-Delivers_example =
    read_line-Delivers sample (reader_at sample 1) 100 (bytes "ab") (bytes "cde" ∷ []) (omega arith)
      are_lines ready

read_line_cut_example :
    (rm' : ReadManager) × (read_line (reader_at sample 1) 1 ≡ (rm', ok (bytes "a")))
    × IsReady sample rm' (bytes "cde" ∷ [])
read_line_cut_example =
    read_line_cut sample (reader_at sample 1) 1 (bytes "ab") (bytes "cde" ∷ []) (omega arith)
      are_lines ready refl (omega arith) (omega arith)

read_line-ends_example : (read_line (reader_at sample 1) 100).1 ≢ err out_of_fuel
read_line-ends_example =
    read_line-ends (reader_at sample 1) 100 0 0 refl refl (omega arith) (omega arith)

-- The line "ab", and a request that comes back after it.
abbrev seen : Line
seen = record { message = bytes "ab"; offset = pos 2; size = 2 }

abbrev back : HttpRequest
back = record {
  header = (bytes "Last-Event-Id", bytes "4") ∷ [];
  query = (bytes "skip", bytes "-10") ∷ [];
  raw_query = bytes "skip=-10";
  vars = [];
  form = none;
  context = record { cfg = none; client = none; node_info = none; token = none; stream = false };
  can_flush = true;
}

resume_after_line_example :
    (opts : List ReadOption) × (rm : ReadManager) × (build_opts back ≡ ok opts)
    × (new_line_reader
          (server sample)
          here
          line_format
          (bytes "S")
          (bytes "F")
          (bytes "E")
          (bytes "C")
          []
          (bytes "stdout")
          1
          (map (λ o. some o) (opt_headers [] ∷ opts))
        ≡ ok rm)
    × IsReady sample rm (bytes "cde" ∷ [])
unfolding get itoa ◌+ℤ◌ int64
resume_after_line_example =
    resume_after_line (server sample) here line_format (bytes "S") (bytes "F") (bytes "E")
      (bytes "C") [] (bytes "stdout") sample seen (bytes "cde" ∷ []) [] 1 back refl (cc, cc, cc, cc)
      (omega arith) (2, refl, omega arith, refl)
      (λ e o n. (record { status = 200; header = []; body = o ∷ n ∷ [] }, refl, refl, refl, refl))

cut_line : Bytes
cut_line = replicate (chunk_size - 2) b'a'

-- A line, and a part of another one at the end of the chunk.
abbrev long_file : Bytes
long_file = bytes "x" ++ (b'\n' ∷ cut_line)

length-replicate : (n : ℕ) → length {A = ℕ} (replicate n b'a') ≡ n
length-replicate zero = refl
length-replicate (suc n) = omega (arith, length-replicate n)

replicate-Lacks : (n : ℕ) → Lacks b'\n' (replicate n b'a')
replicate-Lacks zero = tt
replicate-Lacks (suc n) = (omega arith, replicate-Lacks n)

cut_size : length cut_line ≡ chunk_size - 2
unfolding cut_line
cut_size = length-replicate (chunk_size - 2)

fill_first_chunk_example :
    (rm' : ReadManager) × (b : Line) × (q : List Line) × (fill (reader_at long_file 0) ≡ ok rm')
    × (rm'.lines ≡ b ∷ q)
    × (b.message ≡ cut_line)
    × (rm'.offset ≡ pos (chunk_size - 1))
fill_first_chunk_example =
    fill_first_chunk long_file (bytes "x") cut_line (reader_at long_file 0)
      (λ o n. (record { status = 200; header = []; body = o ∷ n ∷ [] }, refl, refl, refl, refl))
      refl refl (omega (arith, cut_size)) (take_all long_file chunk_size (omega (arith, cut_size)))
      (λ none_left. omega (arith, cut_size, ap length none_left))
      (unfold cut_line in replicate-Lacks (chunk_size - 2))

-- A reader of the last two lines of the file.
abbrev from_end : ReadManager
from_end = record (reader_at sample 9) { skip = negsuc 1 }

one_line : (bytes "x" ∷ []) ≢ []
one_line = cc

copy_lines-seek_back_example :
    (found last : ReadManager) × (seek_back 1 from_end ≡ ok found)
    × (copy_lines 3 found ≡ (last, body later_lines, none))
copy_lines-seek_back_example =
    copy_lines-seek_back (bytes "x" ∷ []) later_lines 1 1 3 from_end ready.serves (refl, refl) refl
      refl refl one_line refl ((cc, omega arith, omega arith), are_lines) (omega arith)
      (omega arith) (omega arith) refl (omega arith) (omega arith)
