-- ===== src/Main/Guarded.antt =====
-- What holds of a server that dcos-log/dcos-log.go has started.
use dcos_log.Base.{
  ◌≡◌, refl, subst, sym, ◌⊎◌, inl, inr, ℕ, true, List, [], ◌∷◌, Bytes, Option, none, some, Result,
  ok, err, arith, >>=-eq-ok, ℤ, if◌then◌else◌, is_empty, bytes, format_uint,
}
use dcos_log.Config.{Config, Loader, new_config}
use dcos_log.Mesos.Types.{Externals}
use dcos_log.Api.Types.{Dcos, HttpRequest, NodeInfo, join_host_port}
use dcos_log.Api.Access.{IsGranted}
use dcos_log.Api.TaskRoutes.{Refuses, init_routes-IsGranted}
use dcos_log.Api.Routing.{Route, Router}
use dcos_log.Api.Router.{Surroundings, new_api_router}
use dcos_log.Api.Server.{
  Platform, ca_certificate_path, default_state_url, Started, not_started, on_socket, on_port,
  flags_of, prepare, listen_on, transport_options, new_node_info, start_server,
}
use dcos_log.Main.{run}

-- The router that is served, if one is.
abbrev pub served : {L : Type 0} → Started L → Option Router
served (not_started e) = none
served (on_socket l router) = some router
served (on_port address router) = some router

-- The routes under the first prefix, `/v1`.
abbrev pub first_routes : Router → List Route
first_routes [] = []
first_routes (s ∷ ss) = s.routes

served-listen_on :
    (p : Platform) (w : Surroundings) (cfg : Config) (ls : List p.Listener) (router : Router)
    → served (listen_on p w cfg ls router) ≡ some router
served-listen_on p w cfg [] router = refl
served-listen_on p w cfg (l ∷ []) router = refl
served-listen_on p w cfg (l ∷ (k ∷ ls)) router = refl

-- What the server asks of its platform: the transport with the certificate of the configuration, the
-- client with the timeout of the configuration, and the node, at the state of the leading master over
-- https.
pub record IsBuilt (p : Platform) (dcos : Dcos) (cfg : Config) (client : Externals)
    (node_info : NodeInfo) : Type 0 where
  pub transport : p.Transport
  pub timeout : ℤ
  pub secured :
      p.new_transport (
        if is_empty cfg.flag_ca_cert_file
        then []
        else ca_certificate_path cfg.flag_ca_cert_file ∷ [])
      ≡ ok transport
  pub timed : p.parse_duration cfg.flag_get_request_timeout ≡ ok timeout
  pub is_client : client ≡ p.http_client timeout transport
  pub is_node :
      p.new_node_info client cfg.flag_role (
        p.url_string (record {
          scheme = bytes "https";
          host = join_host_port dcos.dns_record_leader (format_uint dcos.port_mesos_master);
          path = bytes "/state";
        }))
      ≡ ok node_info

-- The router has the handlers with the flags, the client and the node of the server.
IsRouted : (p : Platform) → Surroundings → Config → Router → Type 0
IsRouted p w cfg router =
    (client : Externals) × (node_info : NodeInfo) × IsBuilt p w.dcos cfg client node_info
    × (router ≡ new_api_router w (flags_of cfg) client node_info)

prepared :
    (p : Platform) (w : Surroundings) (cfg : Config) (router : Router) (ls : List p.Listener)
    → cfg.flag_auth ≡ true
    → prepare p w cfg ≡ ok (router, ls)
    → IsRouted p w cfg router
unfolding prepare new_node_info default_state_url IsRouted
prepared p w cfg router ls on h =
    let (tr, tr_made, h0) = >>=-eq-ok (p.new_transport (transport_options p w cfg)) _ h in
    let (timeout, parsed, h1) = >>=-eq-ok (p.parse_duration cfg.flag_get_request_timeout) _ h0 in
    let client = p.http_client timeout tr in
    let (node_info, node_made, h2) = >>=-eq-ok (new_node_info p w cfg client) _ h1 in
    let (found, _, h3) = >>=-eq-ok p.listeners _ h2 in
    (
      client,
      node_info,
      record {
        transport = tr;
        timeout = timeout;
        secured = tr_made;
        timed = parsed;
        is_client = refl;
        is_node = ground (arith, node_made, on);
      },
      cc,
    )

started :
    (p : Platform) (w : Surroundings) (cfg : Config) (router : Router)
    → cfg.flag_auth ≡ true
    → served (start_server p w cfg) ≡ some router
    → IsRouted p w cfg router
unfolding start_server
started p w cfg router on h = go (prepare p w cfg) refl
  where
    go :
        (got : Result Bytes (Router × List p.Listener))
        → prepare p w cfg ≡ got
        → IsRouted p w cfg router
    go (err e) g = absurd (ground (arith, g))
    go (ok (made, ls)) g =
        let there = served-listen_on p w cfg ls made in
        let same : made ≡ router = ground (arith, g, there) in
        subst (IsRouted p w cfg) same (prepared p w cfg made ls on g)

-- A program that serves, with authorization on in its configuration, lets a request through to the
-- journal of a container only with a token that the agent accepts for the container's sandbox: the
-- agent's 200 comes through the HTTP client with the transport and the timeout of the configuration,
-- and the sandbox is the one on the node with the role of the configuration, and every such route of
-- the router that it serves answers any other request with one and the same error.
pub run-IsGranted :
    (l : Loader) (p : Platform) (w : Surroundings) (args : List Bytes) (begun : Started p.Listener)
    (router : Router) (cfg : Config)
    → run l p w args ≡ ok begun
    → served begun ≡ some router
    → new_config l args ≡ ok cfg
    → cfg.flag_auth ≡ true
    → (client : Externals) × (node_info : NodeInfo) × IsBuilt p w.dcos cfg client node_info
      × ((r : HttpRequest)
          → IsGranted w.dcos client node_info cfg.flag_role r
            ⊎ ((code : ℕ) × Refuses (first_routes router) r code))
unfolding run new_api_router IsRouted
run-IsGranted l p w args begun router cfg h serves loaded on =
    let here : served (start_server p w cfg) ≡ some router = ground (arith, loaded) in
    let (client, node_info, built, same) = started p w cfg router on here in
    (
      client,
      node_info,
      built,
      λ r. elim (init_routes-IsGranted w.dcos w.gzip (flags_of cfg) client node_info r on) [
        | inl granted ↦ inl granted
        | inr (code, refused) ↦
            inr (code, subst (λ t. Refuses (first_routes t) r code) (sym same) (refused _ _))
      ],
    )
