-- ===== src/Api/Routing.antt =====
-- What the packages api, v1 and v2 of dcos-log/api hand to the router of gorilla/mux: a route by the
-- template of its path, its handler and its methods, and a subrouter by its prefix.
use dcos_log.Base.{List, Bytes, Option}
use dcos_log.Api.Types.{HttpRequest, Reply}

-- A handler whose loops may run out of the model's fuel, which `none` says.
abbrev pub RouteHandler : Type 0
RouteHandler = HttpRequest → Option Reply

-- No methods stand for any.
pub record Route : Type 0 where
  pub template : Bytes
  pub handler : RouteHandler
  pub methods : List Bytes

pub record Subrouter : Type 0 where
  pub prefix : Bytes
  pub routes : List Route

abbrev pub Router : Type 0
Router = List Subrouter
