-- ===== src/Api/Middleware.antt =====
-- dcos-log/api/middleware: the token of a request, the context that Wrapped builds, the authorization
-- of Auth, and the name of a download.
use dcos_log.Base.{
  ℕ, if◌then◌else◌, ◌==◌, ◌||◌, List, [], ◌∷◌, ◌++◌, Bytes, bytes, bytes_eq, is_empty, has_prefix,
  join, path_join, format_uint, Option, none, some, Result, ok, err, ◌>>=◌,
}
use dcos_log.Mesos.Types.{Externals, Header, Url, text}
use dcos_log.Api.Types.{
  NodeInfo, Dcos, Flags, HttpRequest, Reply, error_reply, page, get, join_host_port,
}

-- The token, or ErrMissingToken; the text that comes with the error is not used.
unfoldable pub validate_token : Bytes → Option Bytes
unfolding has_prefix
validate_token t = if has_prefix t (bytes "token=") then some t else none

unfoldable pub get_auth_from_request : HttpRequest → Option Bytes
unfolding validate_token get
get_auth_from_request r =
    let authorization = get (bytes "Authorization") r.header in
    if is_empty authorization then none else validate_token authorization

abbrev pub Handler : Type 0
Handler = HttpRequest → Reply

unfoldable pub wrapped {ℓ} :
    {A : Type ℓ} → (HttpRequest → A) → Flags → Externals → NodeInfo → HttpRequest → A
wrapped handler cfg client node_info r =
    let context = record r.context {
      cfg = some cfg;
      client = some client;
      node_info = some node_info;
      token = elim (get_auth_from_request r) [
        | none ↦ r.context.token
        | some t ↦ if is_empty t then r.context.token else some t
      ];
    } in
    handler (record r { context = context })

unfoldable pub authorization_header : Bytes → Header
authorization_header token = (bytes "Authorization", token) ∷ []

module _ (dcos : Dcos) where
  unfoldable pub get_sandbox_url : NodeInfo → Bytes → Result Bytes Url
  unfolding join_host_port format_uint bytes_eq
  get_sandbox_url node_info role = do
    ip ← node_info.detect_ip
    let port =
        if bytes_eq role dcos.role_master then dcos.port_mesos_master else dcos.port_mesos_agent
    ok (record {
      scheme = bytes "https";
      host = join_host_port ip (format_uint port);
      path = bytes "/files/browse";
    })

  abbrev pub auth_sandbox_path : Bytes → Bytes → Bytes → Bytes → Bytes
  auth_sandbox_path mesos_id framework_id executor_id container_id = path_join (
      bytes "/var/lib/mesos/slave/slaves"
      ∷ mesos_id
      ∷ bytes "frameworks"
      ∷ framework_id
      ∷ bytes "executors"
      ∷ executor_id
      ∷ bytes "runs"
      ∷ container_id
      ∷ [])

  -- The status of the request for the sandbox, which decides; the code of an error of its own is 500.
  unfoldable pub auth_status :
      Externals → NodeInfo → Bytes → Bytes → Bytes → Bytes → Bytes → Result ℕ ℕ
  unfolding get_sandbox_url authorization_header
  auth_status client node_info role token framework_id executor_id container_id =
      elim (get_sandbox_url node_info role) [
        | err e ↦ err 500
        | ok url ↦ elim (node_info.mesos_id (authorization_header token)) [
          | err e ↦ err 500
          | ok mesos_id ↦
              let query =
                (
                  bytes "path",
                  text (auth_sandbox_path mesos_id framework_id executor_id container_id),
                )
                ∷ [] in
              elim (client.new_request url query) [
                | some e ↦ err 500
                | none ↦
                    elim (client.send
                      (record { url = url; query = query; header = authorization_header token })) [
                        | err e ↦ err 500
                        | ok resp ↦ ok resp.status
                      ]
              ]
        ]
      ]

  unfoldable pub auth : Handler → Externals → NodeInfo → Bytes → Handler
  auth handler client node_info role r = elim (get_auth_from_request r) [
    | none ↦ error_reply 401
    | some token ↦
        let framework_id = get (bytes "framework_id") r.vars in
        let executor_id = get (bytes "executor_id") r.vars in
        let container_id = get (bytes "container_id") r.vars in
        if is_empty framework_id || (is_empty executor_id || is_empty container_id)
        then error_reply 400
        else (elim (auth_status client node_info role token framework_id executor_id container_id) [
          | err code ↦ error_reply code
          | ok status ↦ if status == 200 then handler r else error_reply status
        ])
  ]

-- The variables of the route that are set, in the order in which they are asked for.
unfoldable pub named_vars : List Bytes → List (Bytes × Bytes) → List Bytes
unfolding get
named_vars [] vars = []
named_vars (v ∷ vs) vars =
    let rest = named_vars vs vars in
    let value = get v vars in if is_empty value then rest else value ∷ rest

-- The file name of a gzipped download.
unfoldable pub download_name : Bytes → List Bytes → HttpRequest → Bytes
unfolding named_vars get join
download_name prefix vars r =
    let postfix : Bytes = elim r.form [ none ↦ [] | some form ↦ get (bytes "postfix") form ] in
    let parts =
      prefix ∷ (named_vars vars r.vars ++ (if is_empty postfix then [] else postfix ∷ [])) in
    let joined = join parts b'-' in
    (if is_empty joined then bytes "download" else joined) ++ bytes ".log.gz"

-- What DownloadGzippedContent does with the reply of the handler behind it; `gzip` is the compression.
unfoldable pub download_gzipped : (Bytes → Bytes) → Handler → Bytes → List Bytes → Handler
unfolding download_name
download_gzipped gzip handler prefix vars r = elim (handler r) [
  | page header body code ↦
      page
        ((bytes "Content-disposition", bytes "attachment; filename=" ++ download_name prefix vars r)
          ∷ header)
        (gzip body) code
  | other ↦ other
]
