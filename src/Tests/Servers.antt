-- ===== src/Tests/Servers.antt =====
-- The routes and the server at concrete settings.
use dcos_log.Base.{ℕ, ◌≡◌, ◌⊎◌, refl, false, [], ◌∷◌, bytes, some, ok, All, pos}
use dcos_log.Mesos.Types.{Externals}
use dcos_log.Api.Types.{HttpRequest, NodeInfo}
use dcos_log.Api.Middleware.{Handler}
use dcos_log.Api.Access.{IsGranted}
use dcos_log.Api.TaskRoutes.{
  Refuses, IsRefused, is_component, init_routes-IsGranted, init_routes-IsRefused,
}
use dcos_log.Api.Routing.{Route, Router}
use dcos_log.Api.V1.Routes.{init_routes}
use dcos_log.Api.V2.Routes as RoutesV2
use dcos_log.Api.Router.{Surroundings, handlers_v2, new_api_router}
use dcos_log.Api.Server.{Platform, Started, flags_of, start_server}
use dcos_log.Main.{run}
use dcos_log.Main.Guarded.{served, first_routes, IsBuilt, run-IsGranted}
use dcos_log.Tests.Requests.{agent, client, node, unsigned, no_token}
use dcos_log.Tests.Logs.{memory, plain}
use dcos_log.Tests.Settings.{loader, loaded, loads}

abbrev surroundings : Surroundings
surroundings = record {
  sd = memory;
  enc = plain;
  dcos = agent;
  gzip = λ b. b;
  unicode_upper = λ b. b;
  marshal_values = λ vs. ok [];
  encode_files = λ fs. ok [];
  now = 0;
  system = tt;
  ticks = [];
  client_ticks = [];
  fuel = 1;
  copy_fuel = 1;
}

init_routes-IsGranted_example :
    IsGranted agent client node (flags_of loaded).role unsigned
    ⊎ ((code : ℕ) × ((journal fields : Handler)
          → Refuses
              (init_routes agent (λ b. b) journal fields (flags_of loaded) client node)
              unsigned
              code))
init_routes-IsGranted_example =
    init_routes-IsGranted agent (λ b. b) (flags_of loaded) client node unsigned refl

init_routes-IsRefused_example :
    All
      (λ (route : Route). is_component route.template ≡ false → IsRefused (route.handler unsigned))
      (RoutesV2.init_routes (handlers_v2 surroundings) (flags_of loaded) client node)
init_routes-IsRefused_example =
    init_routes-IsRefused surroundings (flags_of loaded) client node unsigned no_token refl

-- A platform where the server listens on its port.
abbrev platform : Platform
platform = record {
  Transport = Unit {0};
  Listener = Unit {0};
  new_transport = λ opts. ok tt;
  parse_duration = λ b. ok (pos 5000000000);
  http_client = λ t tr. client;
  url_string = λ u. u.host;
  new_node_info = λ c role url. ok node;
  listeners = ok [];
}

abbrev begun : Started (Unit {0})
begun = start_server platform surroundings loaded

begins : run loader platform surroundings (bytes "dcos-log" ∷ []) ≡ ok begun
unfolding run start_server
begins = refl

abbrev router : Router
router = new_api_router surroundings (flags_of loaded) client node

serving : served begun ≡ some router
unfolding start_server
serving = refl

run-IsGranted_example :
    (c : Externals) × (node_info : NodeInfo) × IsBuilt platform agent loaded c node_info
    × ((r : HttpRequest)
        → IsGranted agent c node_info loaded.flag_role r
          ⊎ ((code : ℕ) × Refuses (first_routes router) r code))
run-IsGranted_example =
    run-IsGranted loader platform surroundings (bytes "dcos-log" ∷ []) begun router loaded begins
      serving loads refl
