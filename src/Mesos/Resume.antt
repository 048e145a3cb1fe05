-- ===== src/Mesos/Resume.antt =====
-- Going on after a line: the reader that a client gets that comes back with Last-Event-ID, and a file
-- that grew.
use mathlib.Core.List.{reverse}
use dcos_log.Base.{
  ℕ, ◌+◌, ◌≤◌, ◌<◌, ◌^◌, ◌≡◌, refl, ap, ◌∙◌, ◌≢◌, List, [], ◌∷◌, ◌++◌, arith, Bytes, length, drop,
  pos, ◌+ℤ◌, +ℤ_pos, some, ok, zero, suc,
}
use dcos_log.Mesos.Types.{Externals, Url, Formatter, Line, ReadManager, chunk_size}
use dcos_log.Mesos.Options.{opt_offset, opt_headers}
use dcos_log.Mesos.Setup.{new_line_reader, fresh_reader}
use dcos_log.Mesos.Chunks.{body, text_of}
use dcos_log.Mesos.Follow.{Serves}
use dcos_log.Mesos.Queue.{Ends, Queue, offset_bound}
use dcos_log.Mesos.Delivery.{IsReady}

module _ (client : Externals) (url : Url) (format : Formatter)
    (agent_id framework_id executor_id container_id task_path file_name : Bytes) where
  abbrev pub at_offset : ℕ → List (Bytes × Bytes) → ReadManager
  at_offset e header =
      record (fresh_reader client url format agent_id framework_id executor_id container_id
        task_path file_name) { offset = pos e; header = header }

  -- A client that saw the line `b` of a file, and comes back with the end of the line as its offset, as
  -- Last-Event-ID asks for, gets a reader that delivers exactly the lines behind `b`. The identifiers of
  -- the task are not empty, the files API serves the file to the new reader, and its size fits an int.
  pub new_line_reader-IsReady :
      (file : Bytes) (b : Line) (ls : List Bytes) (header : List (Bytes × Bytes)) (fuel : ℕ)
      → (agent_id ≢ []) × (framework_id ≢ []) × (executor_id ≢ []) × (container_id ≢ [])
      → length file + chunk_size < 2 ^ 63
      → Ends file b ls
      → ((e : ℕ) → Serves file (at_offset e header))
      → (rm : ReadManager) × (new_line_reader client url format agent_id framework_id executor_id
            container_id task_path file_name fuel
            (some (opt_headers header) ∷ some (opt_offset (b.offset +ℤ pos b.size)) ∷ [])
          ≡ ok rm)
        × IsReady file rm ls
  unfolding new_line_reader opt_headers opt_offset
  new_line_reader-IsReady file b ls header fuel named fits (s, at, positive, e) serves =
      let bound = offset_bound file (s + b.size) ls e in
      let moved : b.offset +ℤ pos b.size ≡ pos (s + b.size) =
        (λ i. at i +ℤ pos b.size) ∙ +ℤ_pos s b.size (omega arith) in
      (
        at_offset (s + b.size) header,
        rw moved (ground arith),
        record {
          serves = serves (s + b.size);
          unlimited = (refl, refl);
          follows = record {
            off = s + b.size;
            at = refl;
            positive = omega arith;
            queue = [];
            buffered = refl;
            waiting = e;
          };
        },
      )

drop-append_le : (n : ℕ) (xs ys : Bytes) → n ≤ length xs → drop n (xs ++ ys) ≡ drop n xs ++ ys
drop-append_le zero xs ys h = refl
drop-append_le (suc n) [] ys h = elim h [ ]
drop-append_le (suc n) (x ∷ xs) ys h = drop-append_le n xs ys (omega arith)

-- A reader at the end of a file is in front of the lines by which the file grows.
pub grown-IsReady :
    (file : Bytes) (rm : ReadManager) (more : List Bytes) (client : Externals)
    → IsReady file rm []
    → Serves (file ++ body more) (record rm { client = client })
    → IsReady (file ++ body more) (record rm { client = client }) more
grown-IsReady file rm more client ready serves =
    let f = ready.follows in
    record {
      serves = serves;
      unlimited = ready.unlimited;
      follows = record {
        off = f.off;
        at = f.at;
        positive = f.positive;
        queue = [];
        buffered = empty f.queue f.buffered f.waiting;
        waiting =
            drop-append_le f.off file (body more)
              (offset_bound file f.off [] (at_end f.queue f.waiting))
            ∙ ap (λ t. t ++ body more) (at_end f.queue f.waiting);
      };
    }
  where
    empty :
        (q : List Line) → rm.lines ≡ reverse q → Queue file q [] ready.follows.off → rm.lines ≡ []
    empty [] e w = e
    empty (b ∷ q) e w = absurd w

    at_end :
        (q : List Line)
        → Queue file q [] ready.follows.off
        → drop ready.follows.off file ≡ text_of []
    at_end [] w = w
    at_end (b ∷ q) w = absurd w
