-- ===== src/Api/Router.antt =====
-- newAPIRouter of dcos-log/api/routes.go, with the handlers of both versions in their place.
use dcos_log.Base.{ℕ, List, [], ◌∷◌, Bytes, bytes, Result}
use dcos_log.Mesos.Types.{Externals, SandboxFile}
use dcos_log.Journal.Types.{Sdjournal, Encoders}
use dcos_log.Api.Types.{Dcos, NodeInfo, Flags}
use dcos_log.Api.JournalPage.{Tick}
use dcos_log.Api.Routing.{Router}
use dcos_log.Api.V1.Journal.{read_journal_handler, field_handler}
use dcos_log.Api.V1.Routes
use dcos_log.Api.V2.Files.{files_api_handler, browse_files, download_file}
use dcos_log.Api.V2.Redirect.{discover_handler, browse_handler, download_handler}
use dcos_log.Api.V2.Component.{journal_handler}
use dcos_log.Api.V2.Routes as RoutesV2

-- What the handlers use that is not in the request: the packages, the time and the system when a
-- request comes, the ticks of its stream, and the fuel of the loops.
pub record Surroundings : Type 1 where
  pub sd : Sdjournal
  pub enc : Encoders
  pub dcos : Dcos
  pub gzip : Bytes → Bytes
  pub unicode_upper : Bytes → Bytes
  pub marshal_values : List Bytes → Result Bytes Bytes
  pub encode_files : List SandboxFile → Result Bytes Bytes
  pub now : ℕ
  pub system : sd.System
  pub ticks : List (Tick sd.System)
  pub client_ticks : List Externals
  pub fuel : ℕ
  pub copy_fuel : ℕ

module _ (w : Surroundings) where
  abbrev pub handlers_v2 : RoutesV2.Handlers
  handlers_v2 = record {
    browse_files = browse_files w.dcos w.encode_files;
    files_api = files_api_handler w.dcos w.fuel w.copy_fuel w.client_ticks;
    discover = discover_handler;
    browse = browse_handler;
    download = download_handler;
    journal = journal_handler w.sd w.enc w.unicode_upper w.fuel w.now w.system w.ticks;
    download_file = download_file w.dcos;
  }

  unfoldable pub new_api_router : Flags → Externals → NodeInfo → Router
  new_api_router cfg client node_info =
      record {
        prefix = bytes "/v1";
        routes =
            Routes.init_routes w.dcos w.gzip
              (read_journal_handler w.sd w.enc w.unicode_upper w.fuel w.now w.system w.ticks)
              (field_handler w.sd w.enc w.marshal_values w.system) cfg client node_info;
      }
      ∷ record {
        prefix = bytes "/v2";
        routes = RoutesV2.init_routes handlers_v2 cfg client node_info;
      }
      ∷ []
