-- ===== src/Api/V2/Redirect.antt =====
-- The discovery of a task: redirectURL and discover of dcos-log/api/v2/handlers.go.
use dcos_log.Base.{
  if◌then◌else◌, ◌&&◌, not, Bool, true, false, List, [], ◌∷◌, ◌++◌, Bytes, bytes, is_empty,
  path_join, Option, none, some, Result, ok, err,
}
use dcos_log.Mesos.Types.{Header}
use dcos_log.Api.Types.{CanonicalTaskId, NodeInfo, Reply, error_reply, no_reply, see_other, get}
use dcos_log.Api.Middleware.{Handler, authorization_header}

-- The error that redirectURL returns, and the panic of its index in front of an empty ContainerIDs.
pub data UrlError : Type 0 where
  browse_and_download : UrlError
  index_panic : UrlError

-- The panic ends the request without a reply.
unfoldable pub url_error_reply : UrlError → Reply
url_error_reply browse_and_download = error_reply 500
url_error_reply index_panic = no_reply

abbrev pub last_of : List Bytes → Option Bytes
last_of [] = none
last_of (x ∷ []) = some x
last_of (x ∷ (y ∷ ys)) = last_of (y ∷ ys)

-- The path of the logs of a task, in front of the file.
unfoldable pub task_log_url : CanonicalTaskId → Bytes → Bytes
task_log_url id container_id =
    let is_pod = not (is_empty id.executor_id) in
    bytes "/system/v1/agent/"
    ++ (id.agent_id
        ++ (bytes "/logs/v2/task/frameworks/"
            ++ (id.framework_id
                ++ (bytes "/executors/"
                    ++ ((if is_pod then id.executor_id else id.id)
                        ++ (bytes "/runs/"
                            ++ (container_id
                                ++ (if is_pod
                                    then path_join (bytes "/tasks" ∷ id.id ∷ [])
                                    else []))))))))

unfoldable pub redirect_url : CanonicalTaskId → Bytes → Bytes → Bool → Bool → Result UrlError Bytes
unfolding task_log_url
redirect_url id file raw_query browse download =
    if browse && download then err browse_and_download else (elim (last_of id.container_ids) [
      | none ↦ err index_panic
      | some container_id ↦
          let task_url = task_log_url id container_id in
          let file_url = path_join (task_url ∷ file ∷ []) in
          let target =
            if browse
            then path_join (task_url ∷ bytes "/files/browse" ∷ [])
            else if download
            then path_join (file_url ∷ bytes "/download" ∷ [])
            else file_url in
          ok (if is_empty raw_query then target else target ++ (b'?' ∷ raw_query))
    ])

-- The running task is asked for first, then the completed one.
unfoldable pub find_task : NodeInfo → Header → Bytes → Result Bytes CanonicalTaskId
find_task node_info header task_id = elim (node_info.task_canonical_id header task_id false) [
  | ok id ↦ ok id
  | err e ↦ node_info.task_canonical_id header task_id true
]

unfoldable pub discover : Bool → Bool → Handler
unfolding url_error_reply
discover browse download req = elim req.context.node_info [
  | none ↦ error_reply 500
  | some node_info ↦
      let task_id = get (bytes "taskID") req.vars in
      let named = get (bytes "file") req.vars in
      let file = if is_empty named then bytes "stdout" else named in
      if is_empty task_id then error_reply 500 else (elim req.context.token [
        | none ↦ error_reply 401
        | some token ↦ elim (find_task node_info (authorization_header token) task_id) [
          | err e ↦ error_reply 500
          | ok id ↦ elim (redirect_url id file req.raw_query browse download) [
            | err e ↦ url_error_reply e
            | ok url ↦ see_other url
          ]
        ]
      ])
]

unfoldable pub discover_handler : Handler
unfolding discover
discover_handler = discover false false

unfoldable pub browse_handler : Handler
unfolding discover
browse_handler = discover true false

unfoldable pub download_handler : Handler
unfolding discover
download_handler = discover false true
