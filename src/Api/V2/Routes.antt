-- ===== src/Api/V2/Routes.antt =====
-- InitRoutes of dcos-log/api/v2/routes.go. The handlers of dcos-log/api/v2/handlers.go are arguments.
use dcos_log.Base.{List, [], ◌∷◌, ◌++◌, Bytes, bytes, path_join, some}
use dcos_log.Mesos.Types.{Externals}
use dcos_log.Api.Types.{NodeInfo, Flags}
use dcos_log.Api.Middleware.{Handler, wrapped}
use dcos_log.Api.Routing.{Route, RouteHandler}

abbrev pub task_path : Bytes
task_path = bytes "/task/frameworks/{frameworkID}/executors/{executorID}/runs/{containerID}"

abbrev pub task_browse_path : Bytes
task_browse_path = task_path ++ bytes "/files/browse"

abbrev pub pod_path : Bytes
pod_path = task_path ++ bytes "/tasks/{taskPath}"

abbrev pub pod_browse_path : Bytes
pod_browse_path = pod_path ++ bytes "/files/browse"

abbrev pub discover_path : Bytes
discover_path = bytes "/task/{taskID}"

abbrev pub component_path : Bytes
component_path = bytes "/component"

-- The handlers of the package, by their names there.
pub record Handlers : Type 0 where
  pub browse_files : Handler
  pub files_api : RouteHandler
  pub discover : Handler
  pub browse : Handler
  pub download : Handler
  pub journal : Handler
  pub download_file : Handler

abbrev total : Handler → RouteHandler
total h req = some (h req)

module _ (h : Handlers) (cfg : Flags) (client : Externals) (node_info : NodeInfo) where
  abbrev wrapped_route : Bytes → RouteHandler → Route
  unfolding wrapped
  wrapped_route template handler = record {
    template = template;
    handler = wrapped handler cfg client node_info;
    methods = bytes "GET" ∷ [];
  }

  unfoldable pub init_routes : List Route
  unfolding wrapped path_join
  init_routes =
      wrapped_route task_browse_path (total h.browse_files)
      ∷ wrapped_route pod_browse_path (total h.browse_files)
      ∷ wrapped_route (path_join (task_path ∷ bytes "/{file}" ∷ [])) h.files_api
      ∷ wrapped_route (pod_path ++ bytes "/{file}") h.files_api
      ∷ wrapped_route discover_path (total h.discover)
      ∷ wrapped_route (path_join (discover_path ∷ bytes "/file/{file}" ∷ [])) (total h.discover)
      ∷ wrapped_route (path_join (discover_path ∷ bytes "/browse" ∷ [])) (total h.browse)
      ∷ wrapped_route (path_join (discover_path ∷ bytes "/download" ∷ [])) (total h.download)
      ∷ wrapped_route (path_join (discover_path ∷ bytes "/file/{file}/download" ∷ []))
          (total h.download)
      ∷ wrapped_route component_path (total h.journal)
      ∷ wrapped_route (path_join (component_path ∷ bytes "/{name}" ∷ [])) (total h.journal)
      ∷ wrapped_route (path_join (task_path ∷ bytes "/{file}/download" ∷ []))
          (total h.download_file)
      ∷ wrapped_route (path_join (pod_path ∷ bytes "/{file}/download" ∷ [])) (total h.download_file)
      ∷ []
