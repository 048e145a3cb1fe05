-- ===== src/Tests/Requests.antt =====
-- The handlers' parameters at concrete requests.
use dcos_log.Base.{
  ok, is_name, is_name_sound, ℕ, ◌≡◌, ◌↔◌, ◌⊎◌, refl, true, false, List, [], ◌∷◌, ◌++◌, Bytes,
  bytes, none, some, ok, err, Lacks, to_upper, All, join,
}
use dcos_log.Mesos.Types.{Externals}
use dcos_log.Journal.Types.{JournalEntryMatch}
use dcos_log.Journal.Cursor.{validate_cursor, cursor_format}
use dcos_log.Journal.CursorLaws.{validate_cursor_iff, AreFields}
use dcos_log.Api.Types.{Dcos, NodeInfo, HttpRequest, CanonicalTaskId, error_reply}
use dcos_log.Api.Middleware.{Handler, auth, get_auth_from_request}
use dcos_log.Api.Access.{IsGranted, auth-IsGranted}
use dcos_log.Api.JournalPage.{filter_match}
use dcos_log.Api.Requests.{filter_match_iff}
use dcos_log.Api.V2.Redirect.{redirect_url}
use dcos_log.Api.V2.Places.{redirect_url-rooted}
use dcos_log.Api.V1.Journal.{Params}

abbrev pub agent : Dcos
agent = record {
  port_mesos_agent = 5051;
  port_mesos_master = 5050;
  role_master = bytes "master";
  dns_record_leader = bytes "leader.mesos";
}

abbrev pub client : Externals
client = record {
  new_request = λ url query. none;
  send = λ req. ok (record { status = 200; header = []; body = [] });
  decode = λ b. err [];
  decode_files = λ time b. ok [];
  marshal_fields = λ fields. ok [];
}

abbrev task : CanonicalTaskId
task = record {
  agent_id = bytes "S1";
  framework_id = bytes "F1";
  executor_id = [];
  id = bytes "web";
  container_ids = bytes "C1" ∷ [];
}

abbrev pub node : NodeInfo
node = record {
  mesos_id = λ h. ok (bytes "S1");
  detect_ip = ok (bytes "10.0.0.1");
  task_canonical_id = λ h t completed. ok task;
}

-- A request for a stream, with a filter.
abbrev request : List (Bytes × Bytes) → List (Bytes × Bytes) → HttpRequest
request header vars = record {
  header = header;
  query = (bytes "filter", bytes "unit:a") ∷ [];
  raw_query = bytes "filter=unit%3Aa";
  vars = vars;
  form = none;
  context = record { cfg = none; client = none; node_info = none; token = none; stream = true };
  can_flush = true;
}

abbrev container_vars : List (Bytes × Bytes)
container_vars =
    (bytes "framework_id", bytes "F1")
    ∷ (bytes "executor_id", bytes "E1")
    ∷ (bytes "container_id", bytes "C1")
    ∷ []

abbrev pub signed : HttpRequest
signed = request ((bytes "Authorization", bytes "token=abc") ∷ []) container_vars

auth-IsGranted_example :
    (IsGranted agent client node (bytes "agent") signed
      × ((handler : Handler)
          → auth agent handler client node (bytes "agent") signed ≡ handler signed))
    ⊎ ((¬ IsGranted agent client node (bytes "agent") signed)
        × ((code : ℕ) × ((handler : Handler)
              → auth agent handler client node (bytes "agent") signed ≡ error_reply code)))
auth-IsGranted_example = auth-IsGranted agent client node (bytes "agent") signed

abbrev pub unsigned : HttpRequest
unsigned = request [] ((bytes "taskID", bytes "web") ∷ [])

pub no_token : get_auth_from_request unsigned ≡ none
unfolding get_auth_from_request
no_token = refl

abbrev wanted : Params
wanted = record {
  matches =
      record { field = bytes "CONTAINER_ID"; value = bytes "C1" }
      ∷ record { field = bytes "FRAMEWORK_ID"; value = bytes "F1" }
      ∷ record { field = bytes "EXECUTOR_ID"; value = bytes "E1" }
      ∷ record { field = bytes "UNIT"; value = bytes "a" }
      ∷ [];
  cursor = [];
  limit = 0;
  skip_next = 0;
  skip_prev = 0;
  read_reverse = false;
}

abbrev unit_match : JournalEntryMatch
unit_match = record { field = bytes "UNIT"; value = bytes "a" }

abbrev same : Bytes → Bytes
same s = s

filter_match_iff_example : (filter_match same (bytes "unit:a") ≡ some (unit_match)) ↔ (
    (key value : Bytes) × (bytes "unit:a" ≡ key ++ (b':' ∷ value))
    × Lacks b':' key
    × Lacks b':' value
    × (unit_match ≡ record { field = to_upper same key; value = value }))
filter_match_iff_example = filter_match_iff same (bytes "unit:a") (unit_match)

validate_cursor_iff_example : (validate_cursor (bytes "s=a;i=1;b=2;m=3;t=4;x=5") ≡ true) ↔ (
    (ss : List Bytes) × (bytes "s=a;i=1;b=2;m=3;t=4;x=5" ≡ join ss b';')
    × All (Lacks b';') ss
    × AreFields cursor_format ss)
validate_cursor_iff_example = validate_cursor_iff (bytes "s=a;i=1;b=2;m=3;t=4;x=5")

-- The download of the output of `task`.
redirect_url-rooted_example :
    redirect_url task (bytes "stdout") (bytes "limit=1") false true
    ≡ ok (
        bytes
          "/system/v1/agent/S1/logs/v2/task/frameworks/F1/executors/web/runs/C1/stdout/download?limit=1")
unfolding is_name
redirect_url-rooted_example =
    redirect_url-rooted task [] (bytes "C1") (bytes "stdout") (bytes "limit=1") false true refl
      (record {
        agent = is_name_sound (bytes "S1") refl;
        framework = is_name_sound (bytes "F1") refl;
        executor = is_name_sound (bytes "web") refl;
        task = is_name_sound (bytes "web") refl;
      })
      (is_name_sound (bytes "C1") refl) (is_name_sound (bytes "stdout") refl) refl
