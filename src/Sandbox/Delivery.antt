-- ===== src/Sandbox/Delivery.antt =====
-- From a task of the orchestrator (pkg/orchestrator/controller.go), by the request for the sandbox
-- server (pkg/sandbox/http.go) and its runner (pkg/sandbox/server.go), to the callback
-- (pkg/webhook/client.go).
use Prim.Native.String.{◌++◌}
use cloud_agent.Common.{String, none, some, List, [], ◌∷◌, ok, ◌≡◌, Action}
use cloud_agent.Api.{AgentTask}
use cloud_agent.Api.Wire.{str, obj, field, end}
use cloud_agent.Cluster.{Call, HttpRequest, HttpResponse}
use cloud_agent.Webhook.Tokens.{TokenResponse}
use cloud_agent.Webhook.Client.{
  webhook_listener_url, get_env_with_default, new_client, callback_request,
}
use cloud_agent.Orchestrator.Submission.{task_request}
use cloud_agent.Sandbox.Machine.{Machine}
use cloud_agent.Sandbox.Runner.{Runner, new_runner, work, run}
use cloud_agent.Sandbox.Reporting.{Tries, run-Taken}

-- the runner that a task and its tokens come to
abbrev pub runner_for : Machine → AgentTask → TokenResponse → Runner
runner_for m t tokens = new_runner m.cluster.getenv (task_request t tokens)

-- what the listener is to receive for them
abbrev pub callback_for : Machine → AgentTask → TokenResponse → String → HttpRequest
callback_for m t tokens response = record {
  method = "POST";
  url =
      webhook_listener_url m.cluster.getenv
        (get_env_with_default m.cluster.getenv "KUBE_NAMESPACE" "cloud-agent")
      ++ "/callback";
  headers = ("Content-Type", "application/json") ∷ [];
  credentials = none;
  body = some (
      obj (
        field "taskName" (str t.metadata.name) (
          field "callbackToken" (str tokens.callback_token)
            (field "response" (str response) end))));
}

-- With the documented `backoff.Retry`: the run of a task that the orchestrator submitted with its
-- tokens, when it succeeds, ends with a callback to the listener's service that names the task,
-- presents the callback token issued for it and holds the response of the work, and the listener
-- answered it with status 200.
pub task_request-delivered :
    (m : Machine)
    → ((op : Action Call String (Unit {0})) (h : List Call) → Tries op (m.retry 5 op h) 5 h)
    → (t : AgentTask) (tokens : TokenResponse) (h : List Call)
    → (run m (runner_for m t tokens) h).0 ≡ ok tt
    → (response : String) × ((work m (runner_for m t tokens) h).0 ≡ ok response)
      × (h' : List Call) × ((run m (runner_for m t tokens) h).1
          ≡ Call.send (callback_for m t tokens response) ∷ h')
      × (resp : HttpResponse) × (m.cluster.send h' (callback_for m t tokens response) ≡ ok resp)
      × (resp.status ≡ 200)
unfolding new_runner new_client callback_request task_request
task_request-delivered m retries t tokens h done =
    let (response, worked, h', sent, (resp, answered, status)) =
      run-Taken m (runner_for m t tokens) retries h done in
    (response, worked, h', sent, resp, answered, status)
