-- ===== src/Mesos/Client.antt =====
-- The requests of ReadManager: do, fileLen, read, BrowseSandbox and Download of
-- dcos-log/mesos/files/reader/read.go.
use dcos_log.Base.{
  ℕ, ◌+◌, ◌==◌, if◌then◌else◌, ◌||◌, List, [], ◌∷◌, Bytes, bytes, bytes_eq, is_empty, none, some, ℤ,
  pos, ltb_ℤ, ◌+ℤ◌, Result, ok, err, ◌>>=◌, split, path_join, length,
}
use dcos_log.Mesos.FileTime.{unmarshal_json}
use dcos_log.Mesos.Types.{
  Error, eof, file_not_found, bad_status, Response, Query, text, int, Request, HttpResponse,
  SandboxFile, Externals, Line, ReadManager, foreign, lift,
}

unfoldable pub do_request : Externals → Request → Result Error Response
do_request client req = do
  resp ← lift (client.send req)
  if resp.status == 200
      then lift (client.decode resp.body)
      else if resp.status == 404
      then err file_not_found
      else err (bad_status resp.status)

-- A GET request to the endpoint of the reader, with the reader's header.
unfoldable pub new_request : ReadManager → Query → Result Error Request
new_request rm query = elim (rm.client.new_request rm.read_endpoint query) [
  | some e ↦ err (foreign e)
  | none ↦ ok (record { url = rm.read_endpoint; query = query; header = rm.header })
]

abbrev pub file_path : ReadManager → Bytes
file_path rm = path_join (rm.sandbox_path ∷ rm.file ∷ [])

unfoldable pub file_len : ReadManager → Result Error ℤ
unfolding do_request new_request
file_len rm = do
  req ←
      new_request rm
        ((bytes "path", text (file_path rm)) ∷ (bytes "offset", text (bytes "-1")) ∷ [])
  resp ← do_request rm.client req
  ok resp.offset

-- `lines[:len(lines)-1]` and `lines[len(lines)-1]`.
module _ {ℓ} {A : Type ℓ} where
  unfoldable pub split_last : A → List A → List A × A
  split_last x [] = ([], x)
  split_last x (y ∷ ys) = let (front, last) = split_last y ys in (x ∷ front, last)

-- The complete lines, and the length of the last part, which is cut off where a chunk does not start
-- the file.
unfoldable pub cut_partial : ℤ → List Bytes → List Bytes × ℕ
unfolding split_last
cut_partial offset [] = ([], 0)
cut_partial offset (p ∷ []) = (p ∷ [], 0)
cut_partial offset (p ∷ (q ∷ ps)) =
    if ltb_ℤ (pos 0) offset
    then (let (front, last) = split_last p (q ∷ ps) in (front, length last))
    else (p ∷ (q ∷ ps), 0)

-- The lines with their positions; `accumulator` is the position behind the lines read so far.
unfoldable pub place_lines : ℤ → ℕ → List Bytes → List Line
place_lines offset accumulator [] = []
place_lines offset accumulator (l ∷ ls) =
    record { message = l; offset = offset +ℤ pos accumulator; size = length l }
    ∷ place_lines offset (accumulator + (length l + 1)) ls

unfoldable pub chunk_lines : ℤ → Bytes → List Line × ℕ
unfolding place_lines cut_partial split
chunk_lines offset chunk =
    let (lines, delta) = cut_partial offset (split chunk b'\n') in
    (place_lines offset 0 lines, delta)

unfoldable pub read : ReadManager → ℤ → ℤ → (Bytes → Bytes) → Result Error (List Line × ℕ)
unfolding do_request new_request chunk_lines bytes_eq
read rm offset size modifier = do
  req ← new_request rm (
      (bytes "path", text (file_path rm))
      ∷ (bytes "offset", int offset)
      ∷ (bytes "length", int size)
      ∷ [])
  resp ← do_request rm.client req
  if is_empty resp.content || bytes_eq resp.content (b'\n' ∷ [])
      then err eof
      else ok (chunk_lines offset (modifier resp.content))

-- The status of the answer is not looked at.
unfoldable pub browse_sandbox : ReadManager → Result Error (List SandboxFile)
unfolding new_request unmarshal_json
browse_sandbox rm = do
  req ← new_request rm ((bytes "path", text rm.sandbox_path) ∷ [])
  resp ← lift (rm.client.send req)
  lift (rm.client.decode_files unmarshal_json resp.body)

unfoldable pub download : ReadManager → Result Error HttpResponse
unfolding new_request
download rm = do
  req ← new_request rm ((bytes "path", text (file_path rm)) ∷ [])
  lift (rm.client.send req)
