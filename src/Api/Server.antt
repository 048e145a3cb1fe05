-- ===== src/Api/Server.antt =====
-- dcos-log/api/server.go: what is put together before the server listens, and where it listens.
use dcos_log.Base.{
  if◌then◌else◌, not, List, [], ◌∷◌, Bytes, bytes, is_empty, format_uint, itoa, ℤ, Result, ok, err,
  ◌>>=◌,
}
use dcos_log.Mesos.Types.{Externals, Url}
use dcos_log.Config.{Config}
use dcos_log.Api.Types.{NodeInfo, Flags, join_host_port}
use dcos_log.Api.Routing.{Router}
use dcos_log.Api.Router.{Surroundings, new_api_router}

-- The options of transport.NewTransport.
pub data TransportOption : Type 0 where
  ca_certificate_path : Bytes → TransportOption

-- What the server takes from transport, time, net/http, nodeutil and activation.
pub record Platform : Type 1 where
  pub Transport : Type 0
  pub Listener : Type 0
  pub new_transport : List TransportOption → Result Bytes Transport
  pub parse_duration : Bytes → Result Bytes ℤ
  pub http_client : ℤ → Transport → Externals
  -- url.URL.String
  pub url_string : Url → Bytes
  -- nodeutil.NewNodeInfo with OptionMesosStateURL
  pub new_node_info : Externals → Bytes → Bytes → Result Bytes NodeInfo
  pub listeners : Result Bytes (List Listener)

-- An error, or the listener or the address on which the router is served.
pub data Started (Listener : Type 0) : Type 0 where
  not_started : Bytes → Started Listener
  on_socket : Listener → Router → Started Listener
  on_port : Bytes → Router → Started Listener

abbrev pub flags_of : Config → Flags
flags_of cfg = record { auth = cfg.flag_auth; role = cfg.flag_role }

module _ (p : Platform) (w : Surroundings) where
  unfoldable pub default_state_url : Url
  unfolding join_host_port format_uint
  default_state_url = record {
    scheme = bytes "https";
    host = join_host_port w.dcos.dns_record_leader (format_uint w.dcos.port_mesos_master);
    path = bytes "/state";
  }

  unfoldable pub new_node_info : Config → Externals → Result Bytes NodeInfo
  unfolding default_state_url
  new_node_info cfg client =
      let state_url =
        if not cfg.flag_auth
        then record default_state_url { scheme = bytes "http" }
        else default_state_url in
      p.new_node_info client cfg.flag_role (p.url_string state_url)

  abbrev pub transport_options : Config → List TransportOption
  transport_options cfg =
      if is_empty cfg.flag_ca_cert_file then [] else ca_certificate_path cfg.flag_ca_cert_file ∷ []

  -- Where the router is served: on a socket if there is exactly one, else on the port.
  abbrev pub listen_on : Config → List p.Listener → Router → Started p.Listener
  listen_on cfg (l ∷ []) router = on_socket l router
  listen_on cfg _ router = on_port (b':' ∷ itoa cfg.flag_port) router

  -- The router and the listeners, up to the first error.
  unfoldable pub prepare : Config → Result Bytes (Router × List p.Listener)
  unfolding new_node_info new_api_router
  prepare cfg = do
    tr ← p.new_transport (transport_options cfg)
    timeout ← p.parse_duration cfg.flag_get_request_timeout
    let client = p.http_client timeout tr
    node_info ← new_node_info cfg client
    listeners ← p.listeners
    ok (new_api_router w (flags_of cfg) client node_info, listeners)

  unfoldable pub start_server : Config → Started p.Listener
  unfolding prepare
  start_server cfg = elim (prepare cfg) [
    | err e ↦ not_started e
    | ok (router, listeners) ↦ listen_on cfg listeners router
  ]
