-- ===== src/Api/TaskRoutes.antt =====
-- Who is let through to the logs of a task: the routes of dcos-log/api/v1/routes.go and of
-- dcos-log/api/v2/routes.go.
use dcos_log.Base.{
  ℕ, ◌≡◌, ◌≢◌, sym, ◌∙◌, path_join, refl, ◌⊎◌, inl, inr, Bool, true, false, ◌||◌, List, [], ◌∷◌,
  arith, Bytes, bytes, has_prefix, Option-cases, Bool-cases, Result, is_empty, ◌++◌, if◌then◌else◌,
  Option, none, some, All, err, ok,
}
use dcos_log.Mesos.Types.{Externals}
use dcos_log.Api.Types.{Dcos, NodeInfo, Flags, HttpRequest, Reply, error_reply, get}
use dcos_log.Api.Middleware.{Handler, get_auth_from_request, wrapped, download_gzipped}
use dcos_log.Api.Access.{IsGranted, auth-IsGranted}
use dcos_log.Api.Routing.{Route}
use dcos_log.Api.Router.{Surroundings, handlers_v2}
use dcos_log.Api.V2.Files.{
  files_api_handler, browse_files, download_file, setup_files_api_reader, setup_code,
  accepts_events,
}
use dcos_log.Api.V2.Redirect.{discover, discover_handler, browse_handler, download_handler}
use dcos_log.Api.V2.Params.{build_opts, ParamError}
use dcos_log.Mesos.Options.{ReadOption, opt_stream}
use dcos_log.Api.V1.Routes.{init_routes, stream_middleware}
use dcos_log.Api.V2.Routes as RoutesV2

-- A route of the first version for the journal of one container.
abbrev pub is_task : Bytes → Bool
is_task template =
    has_prefix template (bytes "/range/framework/")
    || has_prefix template (bytes "/stream/framework/")

-- Every route of a container answers with the code.
abbrev pub Refuses : List Route → HttpRequest → ℕ → Type 0
Refuses routes r code =
    All (λ route. is_task route.template ≡ true → route.handler r ≡ some (error_reply code)) routes

-- With authorization on, a request for the journal of a container gets through only with a token that
-- the agent accepts for that container's sandbox: otherwise every such route, a download or a stream
-- too, answers with the same error, whatever the handlers behind it do.
pub init_routes-IsGranted :
    (dcos : Dcos) (gzip : Bytes → Bytes) (cfg : Flags) (client : Externals) (node_info : NodeInfo)
    (r : HttpRequest)
    → cfg.auth ≡ true
    → IsGranted dcos client node_info cfg.role r
      ⊎ ((code : ℕ) × ((journal fields : Handler)
            → Refuses (init_routes dcos gzip journal fields cfg client node_info) r code))
unfolding init_routes has_prefix
init_routes-IsGranted dcos gzip cfg client node_info r on =
    elim (auth-IsGranted dcos client node_info cfg.role r) [
      | inl (granted, _) ↦ inl granted
      | inr (_, (code, refused)) ↦ inr (
        code,
        λ journal fields. (
          λ h. cc,
          (
            λ h. ground (arith, refused journal),
            (
              λ h. cc,
              (
                λ h. ground (
                  arith,
                  refused
                      (download_gzipped gzip journal (bytes "task") (bytes "container_id" ∷ [])),
                ),
                (
                  λ h. cc,
                  (λ h. ground (arith, refused (stream_middleware journal)), (λ h. cc, tt)),
                ),
              ),
            ),
          ),
        ),
      )
    ]

-- A route of the second version for a component of the node.
abbrev pub is_component : Bytes → Bool
is_component template = has_prefix template (bytes "/component")

component_routes :
    (is_component RoutesV2.component_path ≡ true)
    × (is_component (path_join (RoutesV2.component_path ∷ bytes "/{name}" ∷ [])) ≡ true)
unfolding has_prefix path_join
component_routes = (refl, refl)

true-ne-false : true ≢ false
true-ne-false = cc

-- An answer of 400, 401 or 500.
abbrev pub IsRefused : Option Reply → Type 0
IsRefused reply =
    (code : ℕ) × (reply ≡ some (error_reply code)) × ((code ≡ 400) ⊎ ((code ≡ 401) ⊎ (code ≡ 500)))

setup_files_api_reader-IsRefused :
    (dcos : Dcos) (fuel : ℕ) (r : HttpRequest) (path : Bytes) (opts : List ReadOption)
    → r.context.token ≡ none
    → (code : ℕ) × (setup_files_api_reader dcos fuel r path opts ≡ err (setup_code code))
      × ((code ≡ 400) ⊎ ((code ≡ 401) ⊎ (code ≡ 500)))
unfolding setup_files_api_reader
setup_files_api_reader-IsRefused dcos fuel r path opts h = elim (Option-cases r.context.cfg) [
  | inl none_there ↦ (500, ground arith, inr (inr refl))
  | inr (cfg, c) ↦ elim (Option-cases r.context.client) [
    | inl none_there ↦ (500, ground arith, inr (inr refl))
    | inr (client, k) ↦ elim (Option-cases r.context.node_info) [
      | inl none_there ↦ (500, ground arith, inr (inr refl))
      | inr (node_info, n) ↦ (401, ground arith, inr (inl refl))
    ]
  ]
]

files_api_handler-IsRefused :
    (dcos : Dcos) (fuel copy_fuel : ℕ) (ticks : List Externals) (r : HttpRequest)
    → r.context.token ≡ none
    → IsRefused (files_api_handler dcos fuel copy_fuel ticks r)
unfolding files_api_handler
files_api_handler-IsRefused dcos fuel copy_fuel ticks r h = go (build_opts r) refl
  where
    go :
        (got : Result ParamError (List ReadOption))
        → build_opts r ≡ got
        → IsRefused (files_api_handler dcos fuel copy_fuel ticks r)
    go (err e) g = (400, ground (arith, g), inl refl)
    go (ok opts) g =
        let (code, refused, among) =
          setup_files_api_reader-IsRefused dcos fuel r (bytes "/files/read")
            (if accepts_events r then opts ++ opt_stream true ∷ [] else opts) h in
        (code, ground (arith, g, refused), among)

discover-IsRefused :
    (browse download : Bool) (r : HttpRequest)
    → r.context.token ≡ none
    → IsRefused (some (discover browse download r))
unfolding discover
discover-IsRefused browse download r h = elim (Option-cases r.context.node_info) [
  | inl none_there ↦ (500, ground arith, inr (inr refl))
  | inr (node_info, n) ↦ elim (Bool-cases (is_empty (get (bytes "taskID") r.vars))) [
    | inl unnamed ↦ (500, ground arith, inr (inr refl))
    | inr named ↦ (401, ground arith, inr (inl refl))
  ]
]

-- Without a token every route of the second version but those of the components answers with an error,
-- whatever the node, the agent and the files API would say.
pub init_routes-IsRefused :
    (w : Surroundings) (cfg : Flags) (client : Externals) (node_info : NodeInfo) (r : HttpRequest)
    → get_auth_from_request r ≡ none
    → r.context.token ≡ none
    → All
        (λ route. is_component route.template ≡ false → IsRefused (route.handler r))
        (RoutesV2.init_routes (handlers_v2 w) cfg client node_info)
unfolding RoutesV2.init_routes wrapped discover_handler browse_handler download_handler
init_routes-IsRefused w cfg client node_info r missing fresh =
    let req = wrapped (λ t. t) cfg client node_info r in
    let token : req.context.token ≡ none = ground arith in
    let files = files_api_handler-IsRefused w.dcos w.fuel w.copy_fuel w.client_ticks req token in
    let listed : IsRefused (some (browse_files w.dcos w.encode_files req)) =
      (401, unfold browse_files in ground arith, inr (inl refl)) in
    let file : IsRefused (some (download_file w.dcos req)) =
      (401, unfold download_file in ground arith, inr (inl refl)) in
    let found = λ (browse download : Bool). discover-IsRefused browse download req token in
    (
      λ h. listed,
      (
        λ h. listed,
        (
          λ h. files,
          (
            λ h. files,
            (
              λ h. found false false,
              (
                λ h. found false false,
                (
                  λ h. found true false,
                  (
                    λ h. found false true,
                    (
                      λ h. found false true,
                      (
                        λ h. absurd (true-ne-false (sym component_routes.0 ∙ h)),
                        (
                          λ h. absurd (true-ne-false (sym component_routes.1 ∙ h)),
                          (λ h. file, (λ h. file, tt)),
                        ),
                      ),
                    ),
                  ),
                ),
              ),
            ),
          ),
        ),
      ),
    )
