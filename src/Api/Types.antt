-- ===== src/Api/Types.antt =====
-- Requests, their contexts and replies, for the handlers of dcos-log/api, and what they take from
-- dcos-go.
use dcos_log.Base.{
  ℕ, if◌then◌else◌, ◌==◌, ◌||◌, Bool, false, List, [], ◌∷◌, ◌++◌, Bytes, bytes, bytes_eq, Option,
  Result,
}
use dcos_log.Mesos.Types.{Externals, Header}

-- nodeutil.CanonicalTaskID
pub record CanonicalTaskId : Type 0 where
  pub agent_id : Bytes
  pub framework_id : Bytes
  pub executor_id : Bytes
  pub id : Bytes
  pub container_ids : List Bytes

-- nodeutil.NodeInfo; the header is the one of the request's context.
pub record NodeInfo : Type 0 where
  pub mesos_id : Header → Result Bytes Bytes
  pub detect_ip : Result Bytes Bytes
  pub task_canonical_id : Header → Bytes → Bool → Result Bytes CanonicalTaskId

-- The constants of the package dcos.
pub record Dcos : Type 0 where
  pub port_mesos_agent : ℕ
  pub port_mesos_master : ℕ
  pub role_master : Bytes
  pub dns_record_leader : Bytes

-- The flags of config.Config that the handlers read.
pub record Flags : Type 0 where
  pub auth : Bool
  pub role : Bytes

-- The values under the keys of the packages middleware and v1.
pub record Context : Type 0 where
  pub cfg : Option Flags
  pub client : Option Externals
  pub node_info : Option NodeInfo
  pub token : Option Bytes
  pub stream : Bool

-- `query` holds the values of the URL in their order, and `form` what ParseForm read, if it succeeds;
-- `can_flush` says that the response writer is an http.Flusher.
pub record HttpRequest : Type 0 where
  pub header : Header
  pub query : List (Bytes × Bytes)
  pub raw_query : Bytes
  pub vars : List (Bytes × Bytes)
  pub form : Option (List (Bytes × Bytes))
  pub context : Context
  pub can_flush : Bool

-- What a handler sends. Only the codes of error messages are kept.
pub data Reply : Type 0 where
  -- the connection is closed: net/http recovers the panic of a handler
  no_reply : Reply
  -- http.Error
  error_reply : ℕ → Reply
  -- http.Redirect with StatusSeeOther
  see_other : Bytes → Reply
  -- the header, what was written, and the code of an error after that
  page : Header → Bytes → Option ℕ → Reply

-- The first value under a key, or the empty text: Header.Get, Values.Get and a map of strings.
unfoldable pub get : Bytes → List (Bytes × Bytes) → Bytes
unfolding bytes_eq
get k [] = []
get k ((j, v) ∷ m) = let rest = get k m in if bytes_eq j k then v else rest

-- All values under a key.
unfoldable pub get_all : Bytes → List (Bytes × Bytes) → List Bytes
unfolding bytes_eq
get_all k [] = []
get_all k ((j, v) ∷ m) = let rest = get_all k m in if bytes_eq j k then v ∷ rest else rest

abbrev has_colon_or_percent : Bytes → Bool
has_colon_or_percent [] = false
has_colon_or_percent (c ∷ s) = (c == b':') || ((c == b'%') || has_colon_or_percent s)

-- net.JoinHostPort
unfoldable pub join_host_port : Bytes → Bytes → Bytes
join_host_port host port =
    if has_colon_or_percent host
    then bytes "[" ++ (host ++ (bytes "]:" ++ port))
    else host ++ (b':' ∷ port)
