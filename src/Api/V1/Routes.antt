-- ===== src/Api/V1/Routes.antt =====
-- InitRoutes of dcos-log/api/v1/routes.go. The handlers of dcos-log/api/v1/handlers.go are arguments;
-- `gzip` is the compression of a download.
use dcos_log.Base.{if◌then◌else◌, true, List, [], ◌∷◌, Bytes, bytes, some}
use dcos_log.Mesos.Types.{Externals}
use dcos_log.Api.Types.{Dcos, NodeInfo, Flags}
use dcos_log.Api.Middleware.{Handler, auth, download_gzipped}
use dcos_log.Api.Routing.{Route}

-- The request is one for a stream from here on.
unfoldable pub stream_middleware : Handler → Handler
stream_middleware h req = h (record req { context = record req.context { stream = true } })

abbrev get_route : Bytes → Handler → Route
get_route template handler = record {
  template = template;
  handler = λ req. some (handler req);
  methods = bytes "GET" ∷ [];
}

module _ (dcos : Dcos) (gzip : Bytes → Bytes) (journal fields : Handler) (cfg : Flags)
    (client : Externals) (node_info : NodeInfo) where
  unfoldable pub new_auth_middleware : Handler → Handler
  unfolding auth
  new_auth_middleware h = if cfg.auth then auth dcos h client node_info cfg.role else h

  unfoldable pub init_routes : List Route
  unfolding new_auth_middleware stream_middleware download_gzipped
  init_routes =
      get_route (bytes "/range/") journal
      ∷ get_route
          (bytes "/range/framework/{framework_id}/executor/{executor_id}/container/{container_id}")
          (new_auth_middleware journal)
      ∷ get_route (bytes "/range/download") (download_gzipped gzip journal (bytes "root-range") [])
      ∷ get_route
          (bytes
            "/range/framework/{framework_id}/executor/{executor_id}/container/{container_id}/download")
          (new_auth_middleware
            (download_gzipped gzip journal (bytes "task") (bytes "container_id" ∷ [])))
      ∷ get_route (bytes "/stream/") (stream_middleware journal)
      ∷ get_route
          (bytes "/stream/framework/{framework_id}/executor/{executor_id}/container/{container_id}")
          (new_auth_middleware (stream_middleware journal))
      ∷ record {
        template = bytes "/fields/{field}";
        handler = λ req. some (fields req);
        methods = [];
      }
      ∷ []
