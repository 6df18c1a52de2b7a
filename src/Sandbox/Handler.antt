-- ===== src/Sandbox/Handler.antt =====
-- The endpoints of the sandbox server (pkg/sandbox/http.go). The state is `taskAccepted`, and each
-- request is handled in one step.
use Prim.Native.String.{◌++◌}
use cloud_agent.Common.{
  ℕ, String, Bool, true, Option, none, some, List, [], ◌∷◌, ◌==◌, if◌then◌else◌, Result, ok, err,
  missing_if, show_list,
}
use cloud_agent.Sandbox.Client.{TaskRequest}

-- A reply by `c.Status`, or a `TaskResponse` with its status and message.
pub data TaskReply : Type 0 where
  bare : ℕ → TaskReply
  task_response : ℕ → String → String → TaskReply

-- A request: its method, and what the JSON decoder makes of its body.
pub record ServerRequest : Type 0 where
  pub method : String
  pub decoded : Result String TaskRequest

-- the list `missing` of `TaskHandler`
unfoldable pub missing_of : TaskRequest → List String
unfolding missing_if
missing_of req = missing_if req.task_name "taskName" (
    missing_if req.callback_token "callbackToken" (
      missing_if req.github_token "githubToken" (
        missing_if req.repo_owner "repoOwner" (
          missing_if req.repo_name "repoName" (
            missing_if req.task_type "taskType" (
              let last = missing_if req.prompt "prompt" [] in
              if req.task_type == "pr"
              then missing_if req.task_owner "taskOwner"
                  (missing_if req.task_owner_email "taskOwnerEmail" last)
              else last))))))

-- the checks of `TaskHandler`: the request that is run, or the reply that refuses it
unfoldable pub admit : Bool → ServerRequest → Result TaskReply TaskRequest
admit accepted r =
    if accepted
    then err (bare 405)
    else if r.method == "POST"
    then (elim r.decoded [
      | err e ↦ err (task_response 400 "error" ("Failed to decode JSON body: " ++ e))
      | ok req ↦ elim (missing_of req) [
        | [] ↦ ok req
        | name ∷ more ↦
            err (task_response 400 "error" ("Missing required fields: " ++ show_list (name ∷ more)))
      ]
    ])
    else err (task_response 405 "error" "Method not allowed. Only POST is supported.")

-- The reply, the new `taskAccepted`, and the request whose runner is started.
unfoldable pub task_handler : Bool → ServerRequest → TaskReply × Bool × Option TaskRequest
task_handler accepted r = elim (admit accepted r) [
  | err reply ↦ (reply, accepted, none)
  | ok req ↦ (task_response 200 "success" "Task started successfully", true, some req)
]

-- the runners that a sequence of requests starts
unfoldable pub started_by : Bool → List ServerRequest → List TaskRequest
started_by accepted [] = []
started_by accepted (r ∷ rs) =
    let (reply, accepted', runner) = task_handler accepted r in
    let rest = started_by accepted' rs in elim runner [ none ↦ rest | some req ↦ req ∷ rest ]

unfoldable pub health_check_handler : ServerRequest → TaskReply
health_check_handler r =
    if r.method == "GET"
    then task_response 200 "success" "Health check success"
    else task_response 405 "error" "Method not allowed. Only GET is supported."
