-- ===== src/Mesos/Follow.antt =====
-- Reading forward through a file of complete lines: Read of dcos-log/mesos/files/reader/read.go from a
-- position on the newline in front of a line, where Last-Event-ID and Read itself leave the reader.
use mathlib.Core.List.{reverse_aux}
use dcos_log.Base.{
  ℕ, ◌+◌, ◌≤◌, ◌<◌, ◌^◌, ◌≡◌, refl, ap, ◌∙◌, ◌≢◌, List, [], ◌∷◌, ◌++◌, arith, Bytes, bytes, All,
  Lacks, length, take, drop, split, pos, ℤ, ◌+ℤ◌, ◌-ℤ◌, int64, none, ok, split_front,
}
use dcos_log.Mesos.Types.{chunk_size, text, int, Request, HttpResponse, Line, ReadManager}
use dcos_log.Mesos.Client.{read, file_path, place_lines, chunk_lines}
use dcos_log.Mesos.Reading.{prepend_all, lines_len, next_offset}
use dcos_log.Mesos.Chunks.{body, weight, Cut, cut_partial-append}

-- The request for `n` bytes from `o` on.
abbrev pub chunk_request : ReadManager → ℕ → ℕ → Request
chunk_request rm o n = record {
  url = rm.read_endpoint;
  query =
      (bytes "path", text (file_path rm))
      ∷ (bytes "offset", int (pos o))
      ∷ (bytes "length", int (pos n))
      ∷ [];
  header = rm.header;
}

-- The files API serves the file: it answers a request with the bytes asked for, as far as there are any.
abbrev pub Serves : Bytes → ReadManager → Type 0
Serves file rm =
    (o n : ℕ)
    → (resp : HttpResponse) × (rm.client.new_request rm.read_endpoint (chunk_request rm o n).query
        ≡ none)
      × (rm.client.send (chunk_request rm o n) ≡ ok resp)
      × (resp.status ≡ 200)
      × (rm.client.decode resp.body
          ≡ ok (record { content = take n (drop o file); offset = pos o }))

pub read-chunk :
    (file : Bytes) (rm : ReadManager) (o n c d : ℕ) (s : Bytes)
    → Serves file rm
    → take n (drop o file) ≡ c ∷ (d ∷ s)
    → read rm (pos o) (pos n) (λ t. t) ≡ ok (chunk_lines (pos o) (c ∷ (d ∷ s)))
unfolding read
read-chunk file rm o n c d s serves e =
    let (resp, accepted, sent, status, decoded) = serves o n in ground arith

-- A chunk from a newline on is cut into whole lines and the length of what is left of the next one.
pub chunk_lines-text :
    (o n : ℕ) (ys : List Bytes) (c : Cut n ys)
    → 0 < o
    → chunk_lines (pos o) (b'\n' ∷ take n (body ys))
      ≡ (place_lines (pos o) 0 ([] ∷ c.whole), length c.part)
unfolding chunk_lines
chunk_lines-text o n ys c h =
    let cut : split (b'\n' ∷ take n (body ys)) b'\n' ≡ [] ∷ (c.whole ++ c.part ∷ []) =
      split_front b'\n' [] (take n (body ys)) tt ∙ ap (λ t. [] ∷ t) c.cut in
    rw cut (rw (cut_partial-append (pos o) [] c.whole c.part (ground arith)))

abbrev pub IsLine : Bytes → Type 0
IsLine l = (l ≢ []) × Lacks b'\n' l × (length l + 2 ≤ chunk_size)

pub IsLine-filled : (ls : List Bytes) → All IsLine ls → All (λ l. l ≢ []) ls
IsLine-filled [] h = tt
IsLine-filled (l ∷ ls) (h, hs) = (h.0, IsLine-filled ls hs)

pub IsLine-Lacks : (ls : List Bytes) → All IsLine ls → All (Lacks b'\n') ls
IsLine-Lacks [] h = tt
IsLine-Lacks (l ∷ ls) (h, hs) = (h.1, IsLine-Lacks ls hs)

pub lines_len-place_lines :
    (o : ℤ) (n : ℕ) (ls : List Bytes) → lines_len (place_lines o n ls) ≡ weight ls
unfolding lines_len place_lines
lines_len-place_lines o n [] = refl
lines_len-place_lines o n (l ∷ ls) = omega (arith, lines_len-place_lines o (n + (length l + 1)) ls)

-- Read moves to the newline of the last whole line, whether or not the chunk is full.
pub next_offset-whole :
    (o w d : ℕ)
    → o + chunk_size < 2 ^ 63
    → w + d + 1 ≤ chunk_size
    → next_offset (pos o) (1 + w) d ≡ pos (o + w)
unfolding next_offset ◌+ℤ◌ ◌-ℤ◌ int64
next_offset-whole o w d h k = ground arith

-- The lines of the buffer, when none is blank.
pub prepend_all-place_lines :
    (o : ℤ) (n : ℕ) (ls : List Bytes) (rm : ReadManager)
    → All IsLine ls
    → prepend_all (place_lines o n ls) rm
      ≡ record rm { lines = reverse_aux (place_lines o n ls) rm.lines }
unfolding prepend_all place_lines
prepend_all-place_lines o n [] rm h = refl
prepend_all-place_lines o n ([] ∷ ls) rm ((h, _, _), hs) = absurd (h refl)
prepend_all-place_lines o n ((c ∷ l) ∷ ls) rm (h, hs) =
    let next = n + (length (c ∷ l) + 1) in
    let first : Line = record { message = c ∷ l; offset = o +ℤ pos n; size = length (c ∷ l) } in
    prepend_all-place_lines o next ls (record rm { lines = first ∷ rm.lines }) hs
