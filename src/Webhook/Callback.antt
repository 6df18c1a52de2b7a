-- ===== src/Webhook/Callback.antt =====
-- The handler of result callbacks (`handleCallback` of pkg/webhook/listener.go).
use Prim.Native.String.{◌++◌}
use cloud_agent.Common.{
  String, none, some, ◌==◌, if◌then◌else◌, cut_prefix, ok, err, pure, raise, call, lift, attempt,
  map_err, ◌>>=◌, ◌>>◌,
}
use cloud_agent.Api.{AgentTask, completed, from_unstructured, to_unstructured}
use cloud_agent.Cluster.{message}
use cloud_agent.Webhook.Server.{
  CallbackRequest, Reply, text, Call, Request, ListenerServer, Handler,
}

-- The token that a callback presents: the header's, with or without "Bearer ", or the body's.
unfoldable pub presented_token : String → CallbackRequest → String
presented_token auth_header req = elim (cut_prefix auth_header "Bearer ") [
  | some after ↦ after
  | none ↦ if auth_header == "" then req.callback_token else auth_header
]

unfoldable pub as_completed : AgentTask → AgentTask
as_completed task = record task { status = record task.status { state = completed } }

module _ (s : ListenerServer) where
  open s use {outside, codec, namespace}

  -- `VerifyToken`, and then `DeleteToken`
  unfoldable pub redeem : String → String → Handler (Unit {0})
  redeem task_name token = do
    valid ←
        map_err (λ e. text 500 ("Failed to verify callback token: " ++ e))
          (call (Call.verify_token task_name token) (λ h. outside.verify_token h task_name token))
    if valid then pure tt else raise (text 401 "Invalid callback token")
    map_err (λ _. text 500 "Failed to invalidate callback token")
        (call (Call.delete_token task_name) (λ h. outside.delete_token h task_name))

  -- the completed status, by `UpdateStatus` or else by `Update`
  unfoldable pub complete : AgentTask → Handler Reply
  complete task = do
    u ←
        map_err (λ e. text 500 ("Failed to serialize updated AgentTask: " ++ e))
          (lift (to_unstructured codec (as_completed task)))
    first ←
        attempt (call (Call.update_status namespace u) (λ h. outside.update_status h namespace u))
    elim first [
      | ok _ ↦ pure (text 200 "Callback successful, task marked as completed")
      | err _ ↦
          map_err (λ e. text 500 ("Failed to update AgentTask state to Completed: " ++ message e))
            (call (Call.update namespace u) (λ h. outside.update h namespace u))
          >> pure (text 200 "Callback successful, task marked as completed")
    ]

  -- the comment on the issue, and then the status
  unfoldable pub answer : AgentTask → String → Handler Reply
  answer task response = do
    let owner = task.spec.repo_owner
    let repo = task.spec.repo_name
    let number = task.spec.issue_number
    map_err (λ e. text 500 ("Failed to post comment to GitHub: " ++ e))
        (call (Call.post_comment owner repo number response)
          (λ h. outside.post_comment h owner repo number response))
    complete task

  -- the handler, once the body is decoded
  unfoldable pub accept_callback : String → CallbackRequest → Handler Reply
  accept_callback auth_header req = do
    u ←
        map_err (λ _. text 404 ("AgentTask " ++ req.task_name ++ " not found"))
          (call (Call.get_task namespace req.task_name)
            (λ h. outside.get_task h namespace req.task_name))
    task ← map_err (λ _. text 500 "Failed to parse AgentTask") (lift (from_unstructured codec u))
    if presented_token auth_header req == ""
        then raise (text 401 "Missing callback token")
        else redeem req.task_name (presented_token auth_header req)
    answer task req.response

  unfoldable pub handle_callback : Request → Handler Reply
  handle_callback r = do
    body ← map_err (λ e. text 400 ("Invalid JSON payload: " ++ e)) (lift r.body)
    req ←
        map_err (λ e. text 400 ("Invalid JSON payload: " ++ e))
          (lift (outside.decode_callback body))
    accept_callback (r.header "Authorization") req
