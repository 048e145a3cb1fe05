-- ===== src/Api/V2/Places.antt =====
-- Where redirectURL of dcos-log/api/v2/handlers.go sends a client.
use dcos_log.Base.{
  ◌≡◌, refl, ap, sym, ◌∙◌, true, false, ◌&&◌, not, Bool, List, [], ◌∷◌, ◌++◌, append_assoc,
  append-nil, All, Bytes, bytes, is_empty, if◌then◌else◌, ok, some, IsName, rooted,
  path_join-IsName, path_join-paths, is_name, is_name_sound, path_join, All-append,
}
use dcos_log.Api.Types.{CanonicalTaskId}
use dcos_log.Api.V2.Redirect.{redirect_url, task_log_url, last_of}

-- The directories of the sandbox of a task: a pod has one of its own for the task below its executor's,
-- and a task by itself is its own executor.
abbrev pub executor_of : CanonicalTaskId → Bytes
executor_of id = if is_empty id.executor_id then id.id else id.executor_id

abbrev pub below_run : CanonicalTaskId → List Bytes
below_run id = if is_empty id.executor_id then [] else bytes "tasks" ∷ id.id ∷ []

-- The elements of the path behind `/system` of the logs of a task, without the file.
abbrev pub task_elements : CanonicalTaskId → Bytes → List Bytes
task_elements id container_id =
    bytes "v1"
    ∷ bytes "agent"
    ∷ id.agent_id
    ∷ bytes "logs"
    ∷ bytes "v2"
    ∷ bytes "task"
    ∷ bytes "frameworks"
    ∷ id.framework_id
    ∷ bytes "executors"
    ∷ executor_of id
    ∷ bytes "runs"
    ∷ container_id
    ∷ below_run id

-- What is asked for of a task: the list of its files, the download of a file, or the file.
abbrev pub asked_elements : Bytes → Bool → Bool → List Bytes
asked_elements file true download = bytes "files" ∷ bytes "browse" ∷ []
asked_elements file false true = file ∷ bytes "download" ∷ []
asked_elements file false false = file ∷ []

-- The names of a task.
pub record IsNamed (id : CanonicalTaskId) : Type 0 where
  pub agent : IsName id.agent_id
  pub framework : IsName id.framework_id
  pub executor : IsName (executor_of id)
  pub task : IsName id.id

below_run-IsName : (id : CanonicalTaskId) → IsNamed id → All IsName (below_run id)
below_run-IsName id named = go (is_empty id.executor_id)
  where
    go : (b : Bool) → All IsName (if b then [] else bytes "tasks" ∷ id.id ∷ [])
    go true = tt
    go false = (is_name_sound (bytes "tasks") (unfold is_name in refl), (named.task, tt))

path_elements-IsName :
    (id : CanonicalTaskId) (c : Bytes)
    → IsNamed id
    → IsName c
    → All IsName (bytes "system" ∷ task_elements id c)
unfolding is_name
path_elements-IsName id c named n = (
  is_name_sound (bytes "system") refl,
  (
    is_name_sound (bytes "v1") refl,
    (
      is_name_sound (bytes "agent") refl,
      (
        named.agent,
        (
          is_name_sound (bytes "logs") refl,
          (
            is_name_sound (bytes "v2") refl,
            (
              is_name_sound (bytes "task") refl,
              (
                is_name_sound (bytes "frameworks") refl,
                (
                  named.framework,
                  (
                    is_name_sound (bytes "executors") refl,
                    (
                      named.executor,
                      (is_name_sound (bytes "runs") refl, (n, below_run-IsName id named)),
                    ),
                  ),
                ),
              ),
            ),
          ),
        ),
      ),
    ),
  ),
)

task_log_url-rooted :
    (id : CanonicalTaskId) (c : Bytes)
    → IsNamed id
    → task_log_url id c ≡ rooted (bytes "system" ∷ task_elements id c)
unfolding task_log_url
task_log_url-rooted id c named = parts (is_empty id.executor_id)
  where
    url : Bool → Bytes → Bytes
    url b below =
        bytes "/system/v1/agent/"
        ++ (id.agent_id
            ++ (bytes "/logs/v2/task/frameworks/"
                ++ (id.framework_id
                    ++ (bytes "/executors/"
                        ++ ((if not b then id.executor_id else id.id)
                            ++ (bytes "/runs/" ++ (c ++ below)))))))

    below : path_join (bytes "/tasks" ∷ id.id ∷ []) ≡ rooted (bytes "tasks" ∷ id.id ∷ [])
    below =
        path_join-IsName (bytes "tasks") [] id.id
          (is_name_sound (bytes "tasks") (unfold is_name in refl), tt) named.task

    parts :
        (b : Bool)
        → url b (if not b then path_join (bytes "/tasks" ∷ id.id ∷ []) else [])
          ≡ rooted (
              bytes "system"
              ∷ bytes "v1"
              ∷ bytes "agent"
              ∷ id.agent_id
              ∷ bytes "logs"
              ∷ bytes "v2"
              ∷ bytes "task"
              ∷ bytes "frameworks"
              ∷ id.framework_id
              ∷ bytes "executors"
              ∷ (if b then id.id else id.executor_id)
              ∷ bytes "runs"
              ∷ c
              ∷ (if b then [] else bytes "tasks" ∷ id.id ∷ []))
    parts true = refl
    parts false = ap (url false) below

last_of-append : (cs : List Bytes) (c : Bytes) → last_of (cs ++ (c ∷ [])) ≡ some c
last_of-append [] c = refl
last_of-append (d ∷ []) c = refl
last_of-append (d ∷ (e ∷ cs)) c = last_of-append (e ∷ cs) c

abbrev pub query_of : Bytes → Bytes
query_of raw_query = if is_empty raw_query then [] else b'?' ∷ raw_query

-- The place of what is asked for, without the query.
abbrev place_of : CanonicalTaskId → Bytes → Bytes → Bool → Bool → Bytes
place_of id c file browse download =
    let task_url = task_log_url id c in
    let file_url = path_join (task_url ∷ file ∷ []) in
    if browse
    then path_join (task_url ∷ bytes "/files/browse" ∷ [])
    else if download
    then path_join (file_url ∷ bytes "/download" ∷ [])
    else file_url

place_of-rooted :
    (id : CanonicalTaskId) (c file : Bytes) (browse download : Bool)
    → IsNamed id
    → IsName c
    → IsName file
    → place_of id c file browse download
      ≡ rooted (bytes "system" ∷ (task_elements id c ++ asked_elements file browse download))
place_of-rooted id c file browse download named n f = asked browse download
  where
    task : task_log_url id c ≡ rooted (bytes "system" ∷ task_elements id c)
    task = task_log_url-rooted id c named

    names : All IsName (bytes "system" ∷ task_elements id c)
    names = path_elements-IsName id c named n

    in_file :
        path_join (task_log_url id c ∷ file ∷ [])
        ≡ rooted (bytes "system" ∷ (task_elements id c ++ (file ∷ [])))
    in_file =
        ap (λ t. path_join (t ∷ file ∷ [])) task
        ∙ path_join-IsName (bytes "system") (task_elements id c) file names f

    asked :
        (b d : Bool)
        → place_of id c file b d
          ≡ rooted (bytes "system" ∷ (task_elements id c ++ asked_elements file b d))
    asked true d =
        ap (λ t. path_join (t ∷ bytes "/files/browse" ∷ [])) task
        ∙ path_join-paths (bytes "system") (task_elements id c) (bytes "files")
            (bytes "browse" ∷ []) names
            (unfold is_name in
              (is_name_sound (bytes "files") refl, (is_name_sound (bytes "browse") refl, tt)))
    asked false true =
        ap (λ t. path_join (t ∷ bytes "/download" ∷ [])) in_file
        ∙ path_join-paths (bytes "system") (task_elements id c ++ (file ∷ [])) (bytes "download") []
            (All-append IsName (bytes "system" ∷ task_elements id c) (file ∷ []) names (f, tt))
            (unfold is_name in (is_name_sound (bytes "download") refl, tt))
        ∙ ap (λ (l : List Bytes). rooted (bytes "system" ∷ l))
            (append_assoc (task_elements id c) (file ∷ []) (bytes "download" ∷ []))
    asked false false = in_file

redirect_url-place_of :
    (id : CanonicalTaskId) (c file raw_query : Bytes) (browse download : Bool)
    → last_of id.container_ids ≡ some c
    → (browse && download) ≡ false
    → redirect_url id file raw_query browse download
      ≡ ok (place_of id c file browse download ++ query_of raw_query)
unfolding redirect_url
redirect_url-place_of id c file raw_query browse download last apart =
    with_query raw_query ∙ ap ok (sym (queried (place_of id c file browse download) raw_query))
  where
    queried :
        (place raw : Bytes)
        → place ++ query_of raw ≡ (if is_empty raw then place else place ++ (b'?' ∷ raw))
    queried place [] = append-nil place
    queried place (q ∷ raw) = refl

    with_query :
        (raw : Bytes)
        → redirect_url id file raw browse download
          ≡ ok (
              if is_empty raw
              then place_of id c file browse download
              else place_of id c file browse download ++ (b'?' ∷ raw))
    with_query raw = rw apart (rw last refl)

-- A client is redirected to the logs of a task at its agent: to the directory of the task's last
-- container below its framework and its executor, which for a task without an executor is the task
-- itself, and below `tasks` where it has one; there to the list of files, to the file, or to the download
-- of the file, and with the query of its request. The task has a container, its names and the file's are
-- elements of a path, not `.` or `..`, and not both a list and a download are asked for.
pub redirect_url-rooted :
    (id : CanonicalTaskId) (cs : List Bytes) (c file raw_query : Bytes) (browse download : Bool)
    → id.container_ids ≡ cs ++ (c ∷ [])
    → IsNamed id
    → IsName c
    → IsName file
    → (browse && download) ≡ false
    → redirect_url id file raw_query browse download
      ≡ ok (
          rooted (bytes "system" ∷ (task_elements id c ++ asked_elements file browse download))
          ++ query_of raw_query)
redirect_url-rooted id cs c file raw_query browse download containers named n f apart =
    let last : last_of id.container_ids ≡ some c = ap last_of containers ∙ last_of-append cs c in
    let there = place_of-rooted id c file browse download named n f in
    redirect_url-place_of id c file raw_query browse download last apart
    ∙ ap (λ (t : Bytes). ok (t ++ query_of raw_query)) there
