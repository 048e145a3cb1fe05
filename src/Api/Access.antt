-- ===== src/Api/Access.antt =====
-- Who gets an answer: the authorization of dcos-log/api/middleware/auth.go.
use dcos_log.Base.{
  ℕ, ◌≡◌, refl, ◌∙◌, ◌⊎◌, inl, inr, true, false, [], ◌∷◌, arith, Bytes, bytes, if◌then◌else◌,
  is_empty, has_prefix, bytes_eq, path_join, format_uint, Option, none, some, Result, ok, err,
  Option-cases, Bool-cases, ◌==◌, ==_iff,
}
use dcos_log.Mesos.Types.{Externals, Request, HttpResponse, text}
use dcos_log.Api.Types.{Dcos, NodeInfo, HttpRequest, error_reply, see_other, get, join_host_port}
use dcos_log.Api.Middleware.{
  Handler, get_auth_from_request, validate_token, authorization_header, get_sandbox_url,
  auth_status, auth,
}

-- The request for the sandbox of the container that is named, made with the token.
abbrev pub sandbox_request : Dcos → Bytes → Bytes → Bytes → Bytes → HttpRequest → Request
sandbox_request dcos role ip agent_id token r = record {
  url = record {
    scheme = bytes "https";
    host = join_host_port ip (
        format_uint (
          if bytes_eq role dcos.role_master
          then dcos.port_mesos_master
          else dcos.port_mesos_agent));
    path = bytes "/files/browse";
  };
  query =
      (
        bytes "path",
        text (
            path_join (
              bytes "/var/lib/mesos/slave/slaves"
              ∷ agent_id
              ∷ bytes "frameworks"
              ∷ get (bytes "framework_id") r.vars
              ∷ bytes "executors"
              ∷ get (bytes "executor_id") r.vars
              ∷ bytes "runs"
              ∷ get (bytes "container_id") r.vars
              ∷ [])),
      )
      ∷ [];
  header = (bytes "Authorization", token) ∷ [];
}

-- The request has a token and names a container, and the request for its sandbox, made with the token,
-- is answered with 200.
pub record IsGranted (dcos : Dcos) (client : Externals) (node_info : NodeInfo) (role : Bytes)
    (r : HttpRequest) : Type 0 where
  pub token : Bytes
  pub ip : Bytes
  pub agent_id : Bytes
  pub resp : HttpResponse
  pub sent : get (bytes "Authorization") r.header ≡ token
  pub prefixed : has_prefix token (bytes "token=") ≡ true
  pub has_framework : is_empty (get (bytes "framework_id") r.vars) ≡ false
  pub has_executor : is_empty (get (bytes "executor_id") r.vars) ≡ false
  pub has_container : is_empty (get (bytes "container_id") r.vars) ≡ false
  pub at_ip : node_info.detect_ip ≡ ok ip
  pub at_agent : node_info.mesos_id ((bytes "Authorization", token) ∷ []) ≡ ok agent_id
  pub well_formed :
      client.new_request
        (sandbox_request dcos role ip agent_id token r).url
        (sandbox_request dcos role ip agent_id token r).query
      ≡ none
  pub answered : client.send (sandbox_request dcos role ip agent_id token r) ≡ ok resp
  pub accepted : resp.status ≡ 200

token_sound :
    (r : HttpRequest) (t : Bytes)
    → get_auth_from_request r ≡ some t
    → (get (bytes "Authorization") r.header ≡ t) × (has_prefix t (bytes "token=") ≡ true)
unfolding get_auth_from_request
token_sound r t h = ground arith

prefixed-filled : (t : Bytes) → has_prefix t (bytes "token=") ≡ true → is_empty t ≡ false
unfolding has_prefix
prefixed-filled [] h = cc
prefixed-filled (c ∷ t) h = refl

-- The answer to the request for the sandbox.
record Answered (dcos : Dcos) (client : Externals) (node_info : NodeInfo) (role token : Bytes)
    (r : HttpRequest) (status : ℕ) : Type 0 where
  ip : Bytes
  agent_id : Bytes
  resp : HttpResponse
  at_ip : node_info.detect_ip ≡ ok ip
  at_agent : node_info.mesos_id ((bytes "Authorization", token) ∷ []) ≡ ok agent_id
  well_formed :
      client.new_request
        (sandbox_request dcos role ip agent_id token r).url
        (sandbox_request dcos role ip agent_id token r).query
      ≡ none
  answered : client.send (sandbox_request dcos role ip agent_id token r) ≡ ok resp
  same : resp.status ≡ status

module _ (dcos : Dcos) (client : Externals) (node_info : NodeInfo) (role : Bytes)
    (r : HttpRequest) where
  abbrev status_of : Bytes → Result ℕ ℕ
  status_of token =
      auth_status dcos client node_info role token (get (bytes "framework_id") r.vars)
        (get (bytes "executor_id") r.vars) (get (bytes "container_id") r.vars)

  auth_status-Answered :
      (token : Bytes) (status : ℕ)
      → status_of token ≡ ok status
      → Answered dcos client node_info role token r status
  unfolding auth_status get_sandbox_url authorization_header
  auth_status-Answered token status h = at_node _ refl _ refl
    where
      asked :
          (ip agent_id : Bytes)
          → node_info.detect_ip ≡ ok ip
          → node_info.mesos_id ((bytes "Authorization", token) ∷ []) ≡ ok agent_id
          → (made : Option Bytes)
          → client.new_request
              (sandbox_request dcos role ip agent_id token r).url
              (sandbox_request dcos role ip agent_id token r).query
            ≡ made
          → (got : Result Bytes HttpResponse)
          → client.send (sandbox_request dcos role ip agent_id token r) ≡ got
          → Answered dcos client node_info role token r status
      asked ip agent_id a b (some e) m got g = absurd (ground arith)
      asked ip agent_id a b none m (err e) g = absurd (ground arith)
      asked ip agent_id a b none m (ok resp) g = record {
        ip = ip;
        agent_id = agent_id;
        resp = resp;
        at_ip = a;
        at_agent = b;
        well_formed = m;
        answered = g;
        same = ground arith;
      }

      at_node :
          (ip : Result Bytes Bytes)
          → node_info.detect_ip ≡ ip
          → (agent_id : Result Bytes Bytes)
          → node_info.mesos_id ((bytes "Authorization", token) ∷ []) ≡ agent_id
          → Answered dcos client node_info role token r status
      at_node (err e) a agent_id b = absurd (ground arith)
      at_node (ok ip) a (err e) b = absurd (ground arith)
      at_node (ok ip) a (ok agent_id) b = asked ip agent_id a b _ refl _ refl

  IsGranted-auth :
      IsGranted dcos client node_info role r
      → (handler : Handler) → auth dcos handler client node_info role r ≡ handler r
  unfolding auth auth_status get_sandbox_url authorization_header get_auth_from_request
      validate_token
  IsGranted-auth g handler =
      let s = g.sent in
      let p = g.prefixed in
      let f = g.has_framework in
      let e = g.has_executor in
      let c = g.has_container in
      let i = g.at_ip in
      let a = g.at_agent in
      let w = g.well_formed in
      let k = g.answered in
      let t = g.accepted in let filled = prefixed-filled g.token p in ground arith

  -- A refusal that does not depend on the handler is none for a request that is granted.
  refused-not-IsGranted :
      (code : ℕ)
      → ((handler : Handler) → auth dcos handler client node_info role r ≡ error_reply code)
      → ¬ IsGranted dcos client node_info role r
  refused-not-IsGranted code refused g =
      let passed = IsGranted-auth g (λ q. see_other []) in
      let stopped = refused (λ q. see_other []) in cc

  abbrev Decision : Type 0
  Decision =
      (IsGranted dcos client node_info role r
        × ((handler : Handler) → auth dcos handler client node_info role r ≡ handler r))
      ⊎ ((¬ IsGranted dcos client node_info role r)
          × ((code : ℕ) × ((handler : Handler)
                → auth dcos handler client node_info role r ≡ error_reply code)))

  refusing :
      (code : ℕ)
      → ((handler : Handler) → auth dcos handler client node_info role r ≡ error_reply code)
      → Decision
  refusing code refused = inr (refused-not-IsGranted code refused, (code, refused))

  decided :
      (token : Bytes)
      → get_auth_from_request r ≡ some token
      → is_empty (get (bytes "framework_id") r.vars) ≡ false
      → is_empty (get (bytes "executor_id") r.vars) ≡ false
      → is_empty (get (bytes "container_id") r.vars) ≡ false
      → (s : Result ℕ ℕ) → status_of token ≡ s
      → Decision
  unfolding auth
  decided token found f x c (err code) e = refusing code (λ handler. ground arith)
  decided token found f x c (ok status) e = elim (Bool-cases (status == 200)) [
    | inl granted ↦
        let (sent, prefixed) = token_sound r token found in
        let a = auth_status-Answered token status e in
        inl (
          record {
            token = token;
            ip = a.ip;
            agent_id = a.agent_id;
            resp = a.resp;
            sent = sent;
            prefixed = prefixed;
            has_framework = f;
            has_executor = x;
            has_container = c;
            at_ip = a.at_ip;
            at_agent = a.at_agent;
            well_formed = a.well_formed;
            answered = a.answered;
            accepted = a.same ∙ (==_iff status 200).0 granted;
          },
          λ handler. ground arith,
        )
    | inr refused ↦ refusing status (λ handler. ground arith)
  ]

  -- A request behind Auth reaches the handler exactly if its Authorization header is a token, it names
  -- a framework, an executor and a container, and the agent answers the request for the sandbox of that
  -- container, made with that token, with 200; otherwise the reply is an error that does not depend on
  -- the handler.
  pub auth-IsGranted :
      (IsGranted dcos client node_info role r
        × ((handler : Handler) → auth dcos handler client node_info role r ≡ handler r))
      ⊎ ((¬ IsGranted dcos client node_info role r)
          × ((code : ℕ) × ((handler : Handler)
                → auth dcos handler client node_info role r ≡ error_reply code)))
  unfolding auth
  auth-IsGranted = elim (Option-cases (get_auth_from_request r)) [
    | inl missing ↦ refusing 401 (λ handler. ground arith)
    | inr (token, found) ↦ elim (Bool-cases (is_empty (get (bytes "framework_id") r.vars))) [
      | inl unnamed ↦ refusing 400 (λ handler. ground arith)
      | inr f ↦ elim (Bool-cases (is_empty (get (bytes "executor_id") r.vars))) [
        | inl unnamed ↦ refusing 400 (λ handler. ground arith)
        | inr x ↦ elim (Bool-cases (is_empty (get (bytes "container_id") r.vars))) [
          | inl unnamed ↦ refusing 400 (λ handler. ground arith)
          | inr c ↦ decided token found f x c _ refl
        ]
      ]
    ]
  ]
