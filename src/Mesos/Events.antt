-- ===== src/Mesos/Events.antt =====
-- Server-sent events: io.Copy from a reader of dcos-log/mesos/files/reader that formats by SSEFormat.
use dcos_log.Base.{
  ℕ, zero, suc, ◌+◌, ◌≤◌, ◌<◌, ◌^◌, ◌≡◌, refl, ap, sym, ◌∙◌, ◌≢◌, ◌⊎◌, inl, inr, subst, List, [],
  ◌∷◌, ◌++◌, arith, Bytes, bytes, All, length, drop, pos, ◌+ℤ◌, +ℤ_pos, ltb, if◌then◌else◌, ◌&&◌,
  ltb_ℤ, itoa, length-itoa, length-append, none, Result, ok, err, copy_buffer, copy_ends,
  copy_goes_on,
}
use dcos_log.Mesos.Types.{chunk_size, eof, out_of_fuel, Line, sse_format, ReadManager}
use dcos_log.Mesos.Format.{formatted, sse_formatted, sse_event}
use dcos_log.Mesos.Reading.{read_line, read_into}
use dcos_log.Mesos.Chunks.{text_of, take_all}
use dcos_log.Mesos.Follow.{IsLine}
use dcos_log.Mesos.Queue.{Ends, offset_bound}
use dcos_log.Mesos.Delivery.{IsReady, Kept, read_line-Delivers}
use dcos_log.Mesos.CopyOut.{is_eof, copy_lines, read_line-eof}

-- The fields of the JSON object for a line.
abbrev pub line_fields : ReadManager → Bytes → List (Bytes × Bytes)
line_fields rm l =
    (bytes "MESSAGE", l)
    ∷ (bytes "AGENT_ID", rm.agent_id)
    ∷ (bytes "EXECUTOR_ID", rm.executor_id)
    ∷ (bytes "FRAMEWORK_ID", rm.framework_id)
    ∷ (bytes "CONTAINER_ID", rm.container_id)
    ∷ (bytes "FILE", rm.file)
    ∷ []

-- The data of the event for a line: the JSON object, or the line itself where that fails.
abbrev pub IsPayload : ReadManager → Bytes → Bytes → Type 0
IsPayload rm l payload =
    (rm.client.marshal_fields (line_fields rm l) ≡ ok payload)
    ⊎ ((e : Bytes) × (rm.client.marshal_fields (line_fields rm l) ≡ err e) × (payload ≡ l))

abbrev pub event : ℕ → Bytes → Bytes
event e payload =
    (bytes "id: " ++ itoa (pos e) ++ bytes "\n") ++ bytes "data: " ++ payload ++ bytes "\n\n"

-- The events for the lines `ls` at the end of a file: the id is the position of the line's newline.
abbrev pub Events : Bytes → ReadManager → List Bytes → Bytes → Type 0
Events file rm [] out = out ≡ []
Events file rm (l ∷ ls) out =
    (e : ℕ) × (payload rest : Bytes) × (drop e file ≡ text_of ls)
    × IsPayload rm l payload
    × (out ≡ event e payload ++ rest)
    × Events file rm ls rest

-- The event for the line fits the buffer of io.Copy: with its id, its name and its newlines it has no
-- more than 33 bytes besides its data.
abbrev pub EventFits : ReadManager → Bytes → Type 0
EventFits rm l = (payload : Bytes) → IsPayload rm l payload → length payload + 33 ≤ copy_buffer

length-event : (e : ℕ) (payload : Bytes) → length (event e payload) ≤ length payload + 33
length-event e payload =
    let id = itoa (pos e) in
    omega (
      arith,
      length-append {0} (((bytes "id: " ++ id ++ bytes "\n") ++ bytes "data: ") ++ payload)
          (bytes "\n\n"),
      length-append {0} ((bytes "id: " ++ id ++ bytes "\n") ++ bytes "data: ") payload,
      length-append {0} (bytes "id: " ++ id ++ bytes "\n") (bytes "data: "),
      length-append {0} (bytes "id: " ++ id) (bytes "\n"),
      length-append {0} (bytes "id: ") id,
      length-itoa e,
    )

sse_event_lem :
    (b : Line) (s : ℕ)
    → b.offset ≡ pos s
    → 0 < s
    → 0 < b.size
    → s + b.size < 2 ^ 63
    → sse_event b ≡ event (s + b.size) b.message
sse_event_lem b s at positive some_size fits =
    let end : b.offset +ℤ pos b.size ≡ pos (s + b.size) =
      ap (λ t. t +ℤ pos b.size) at ∙ +ℤ_pos s b.size fits in
    let id : (if ltb_ℤ (pos 0) b.offset && ltb 0 b.size
          then bytes "id: " ++ itoa (b.offset +ℤ pos b.size) ++ bytes "\n"
          else [])
        ≡ bytes "id: " ++ itoa (pos (s + b.size)) ++ bytes "\n" =
      ground arith in
    ap (λ t. t ++ bytes "data: " ++ b.message ++ bytes "\n\n") id

pos_length : (l : Bytes) → l ≢ [] → 0 < length l
pos_length [] h = absurd (h refl)
pos_length (c ∷ l) h = omega arith

sse-event :
    (file : Bytes) (rm : ReadManager) (b : Line) (l : Bytes) (ls : List Bytes)
    → length file + chunk_size < 2 ^ 63
    → b.message ≡ l
    → b.size ≡ length l
    → l ≢ []
    → Ends file b ls
    → (e : ℕ) × (payload : Bytes) × (drop e file ≡ text_of ls)
      × IsPayload rm l payload
      × (sse_formatted b rm ≡ event e payload)
unfolding sse_formatted
sse-event file rm b l ls fits message size filled (s, at, positive, ends) =
    go (rm.client.marshal_fields (line_fields rm l)) refl
  where
    bound : s + b.size < 2 ^ 63
    bound = omega (arith, offset_bound file (s + b.size) ls ends)

    some_size : 0 < b.size
    some_size = omega (arith, pos_length l filled)

    go :
        (got : Result Bytes Bytes)
        → rm.client.marshal_fields (line_fields rm l) ≡ got
        → (e : ℕ) × (payload : Bytes) × (drop e file ≡ text_of ls)
          × IsPayload rm l payload
          × (sse_formatted b rm ≡ event e payload)
    go (ok payload) g =
        let made : sse_formatted b rm ≡ sse_event (record b { message = payload }) = ground arith in
        (
          s + b.size,
          payload,
          ends,
          inl g,
          made ∙ sse_event_lem (record b { message = payload }) s at positive some_size bound,
        )
    go (err e) g =
        let made : sse_formatted b rm ≡ sse_event b = ground arith in
        (
          s + b.size,
          l,
          ends,
          inr (e, g, refl),
          made ∙ sse_event_lem b s at positive some_size bound ∙ ap (event (s + b.size)) message,
        )

pub Kept-trans : (a b c : ReadManager) → Kept a b → Kept b c → Kept a c
Kept-trans a b c h k =
    k
    ∙ ap {A = ReadManager} {B = ReadManager}
        (λ r. record r { lines = c.lines; offset = c.offset; read_lines = c.read_lines }) h

sse_formatted-Kept :
    (b : Line) (rm after : ReadManager) → Kept rm after → sse_formatted b after ≡ sse_formatted b rm
unfolding sse_formatted
sse_formatted-Kept b rm after kept = ap (λ r. sse_formatted b r) kept

written_event :
    (b : Line) (rm after : ReadManager) (e : ℕ) (payload : Bytes)
    → Kept rm after
    → rm.format_fn ≡ sse_format
    → sse_formatted b rm ≡ event e payload
    → length (event e payload) ≤ copy_buffer
    → read_into copy_buffer (ok (formatted rm.format_fn b after)) ≡ ok (event e payload)
unfolding formatted
written_event b rm after e payload kept sse text small =
    ap (λ t. read_into copy_buffer (ok (formatted t b after))) sse
    ∙ ap (λ t. read_into copy_buffer (ok t)) (sse_formatted-Kept b rm after kept ∙ text)
    ∙ ap ok (take_all (event e payload) copy_buffer small)

-- Copying from a reader of events in front of complete lines of a served file writes one event for each
-- line, in their order, and ends without an error; the id of an event is the position at which the
-- lines behind it begin. The conditions are those of copying plain lines, and that the events fit the
-- buffer.
pub copy_lines-Events :
    (file : Bytes) (ls : List Bytes) (rm : ReadManager) (fuel : ℕ)
    → length file + chunk_size < 2 ^ 63
    → All IsLine ls
    → All (EventFits rm) ls
    → rm.format_fn ≡ sse_format
    → IsReady file rm ls
    → length ls < fuel
    → (rm' : ReadManager) × (out : Bytes) × (copy_lines fuel rm ≡ (rm', out, none))
      × Events file rm ls out
      × IsReady file rm' []
      × Kept rm rm'
unfolding copy_lines
copy_lines-Events file ls rm zero fits lines small sse ready h = elim h [ ]
copy_lines-Events file [] rm (suc fuel) fits lines small sse ready h = (
  rm,
  [],
  copy_ends read_line is_eof out_of_fuel fuel rm rm eof (read_line-eof file rm copy_buffer ready),
  refl,
  ready,
  refl,
)
copy_lines-Events file (l ∷ ls) rm (suc fuel) fits (h0, hs) (k, ks) sse ready h =
    let d = read_line-Delivers file rm copy_buffer l ls fits (h0, hs) ready in
    let (e, payload, place, is_payload, text) =
      sse-event file rm d.line l ls fits d.message d.size h0.0 d.ends in
    let (rm', rest, copied, events, done, kept) =
      copy_lines-Events file ls d.after fuel fits hs
        (subst (λ r. All (EventFits r) ls) (sym d.kept) ks) (d.same_format ∙ sse) d.ready
        (omega arith) in
    let wrote =
      d.result
      ∙ ap (λ t. (d.after, t))
          (written_event d.line rm d.after e payload d.kept sse text
            (omega (arith, length-event e payload, k payload is_payload))) in
    (
      rm',
      event e payload ++ rest,
      copy_goes_on read_line is_eof out_of_fuel fuel rm d.after rm' (event e payload) rest none
          wrote copied,
      (e, payload, rest, place, is_payload, refl, subst (λ r. Events file r ls rest) d.kept events),
      done,
      Kept-trans rm d.after rm' d.kept kept,
    )
