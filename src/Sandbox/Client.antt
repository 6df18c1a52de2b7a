-- ===== src/Sandbox/Client.antt =====
-- The client that provisions sandboxes (pkg/sandbox/client.go). Polling takes fuel: one unit for
-- each tick of the 100 ms ticker.
use Prim.Native.String.{◌++◌}
use cloud_agent.Common.{
  ℕ, zero, suc, String, Bool, true, false, ◌&&◌, some, none, List, [], ◌∷◌, ◌==◌, nat_eq,
  if◌then◌else◌, trim_suffix, Action, pure, raise, call, attempt, asks, ◌>>=◌, ◌>>◌, Result, ok,
  err, ℤ, map_err, lift, take_bytes, decimal, pos,
}
use cloud_agent.Api.Wire.{Json, str, obj, end, put_string, put_int, field}
use cloud_agent.Cluster.{not_found, failure, message, SandboxObject, HttpRequest, Call, Cluster}

-- `TaskRequest` of pkg/sandbox/http.go
pub record TaskRequest : Type 0 where
  pub task_name : String
  pub callback_token : String
  pub github_token : String
  pub repo_owner : String
  pub repo_name : String
  pub task_owner : String
  pub task_owner_email : String
  pub task_type : String
  pub prompt : String
  pub issue_number : ℤ

-- `json.Marshal(req)`
unfoldable pub request_json : TaskRequest → Json
unfolding put_string put_int
request_json r = obj (
    field "taskName" (str r.task_name) (
      put_string "callbackToken" r.callback_token (
        put_string "githubToken" r.github_token (
          field "repoOwner" (str r.repo_owner) (
            field "repoName" (str r.repo_name) (
              put_string "taskOwner" r.task_owner (
                put_string "taskOwnerEmail" r.task_owner_email (
                  put_string "taskType" r.task_type (
                    field "prompt" (str r.prompt)
                      (put_int "issueNumber" r.issue_number end))))))))))

-- `Sandbox`, the handle; `api_url` is its client's option.
pub record Sandbox : Type 0 where
  pub api_url : String
  pub claim_name : String
  pub sandbox_name : String
  pub pod_name : String
  pub namespace : String
  pub pod_ip : String

-- How code with a loop stops short: with Go's error, or since the model's fuel ran out.
pub data Stop : Type 0 where
  failed : String → Stop
  exhausted : Stop

-- sandbox-template to sandbox-warmpool
unfoldable pub warmpool_of : String → String
warmpool_of template = trim_suffix template "-template" ++ "-warmpool"

abbrev pub namespace_or_default : String → String
namespace_or_default namespace = if namespace == "" then "default" else namespace

unfoldable pub is_ready : List (String × String) → Bool
is_ready [] = false
is_ready ((kind, status) ∷ conditions) =
    if kind == "Ready" && status == "True" then true else is_ready conditions

-- A map lookup, with Go's zero value for a missing key.
unfoldable pub annotation : String → List (String × String) → String
annotation key [] = ""
annotation key ((k, v) ∷ rest) = if k == key then v else annotation key rest

-- The pod's name once the sandbox is ready, and "" before that.
unfoldable pub pod_name_of : SandboxObject → String
pod_name_of o =
    let named = annotation "agents.x-k8s.io/pod-name" o.annotations in
    if is_ready o.conditions then (if named == "" then o.name else named) else ""

unfoldable pub first_or_empty : List String → String
first_or_empty [] = ""
first_or_empty (ip ∷ _) = ip

module _ (cluster : Cluster) where
  -- the closure `cleanup`, whose error is dropped
  unfoldable pub cleanup : String → String → Action Call Stop (Unit {0})
  cleanup namespace claim = do
    attempt (call (Call.delete_claim namespace claim) (λ h. cluster.delete_claim h namespace claim))
    pure tt

  -- the first loop of `CreateSandbox`
  unfoldable pub poll_name : ℕ → String → String → Action Call Stop String
  poll_name zero namespace claim = raise exhausted
  poll_name (suc fuel) namespace claim =
      let again = poll_name fuel namespace claim in
      do
        done ← asks cluster.done
        if done
            then cleanup namespace claim
              >> raise
                  (failed "sandbox: timeout waiting for sandbox name resolution: context canceled")
            else do
              got ←
                  attempt (
                    call (Call.get_claim namespace claim)
                      (λ h. cluster.get_claim h namespace claim))
              elim got [
                | err e ↦
                    cleanup namespace claim
                    >> raise (failed ("sandbox: failed to get SandboxClaim: " ++ message e))
                | ok name ↦ if name == "" then again else pure name
              ]

  -- the second loop
  unfoldable pub poll_pod : ℕ → String → String → String → Action Call Stop (String × List String)
  poll_pod zero namespace claim sandbox = raise exhausted
  poll_pod (suc fuel) namespace claim sandbox =
      let again = poll_pod fuel namespace claim sandbox in
      do
        done ← asks cluster.done
        if done
            then cleanup namespace claim
              >> raise (failed "sandbox: timeout waiting for sandbox readiness: context canceled")
            else do
              got ← attempt (
                  call (Call.get_sandbox namespace sandbox)
                    (λ h. cluster.get_sandbox h namespace sandbox))
              elim got [
                | err e ↦
                    cleanup namespace claim
                    >> raise (failed ("sandbox: failed to get Sandbox: " ++ message e))
                | ok o ↦ if pod_name_of o == "" then again else pure (pod_name_of o, o.pod_ips)
              ]

  -- `CreateSandbox` from the creation of the claim on
  unfoldable pub await_sandbox : ℕ → String → String → String → Action Call Stop Sandbox
  await_sandbox fuel api_url ns claim = do
    sandbox ← poll_name fuel ns claim
    found ← poll_pod fuel ns claim sandbox
    pod ← attempt (call (Call.get_pod ns found.0) (λ h. cluster.get_pod h ns found.0))
    pure (record {
      api_url = api_url;
      claim_name = claim;
      sandbox_name = sandbox;
      pod_name = found.0;
      namespace = ns;
      pod_ip = elim pod [ ok p ↦ p.pod_ip | err _ ↦ first_or_empty found.1 ];
    })

  unfoldable pub create_sandbox : ℕ → String → String → String → Action Call Stop Sandbox
  create_sandbox fuel api_url template namespace =
      if template == "" then raise (failed "sandbox: template name is required") else do
        let ns = namespace_or_default namespace
        claim ←
            map_err (λ e. failed ("sandbox: failed to create SandboxClaim: " ++ message e))
              (call (Call.create_claim ns (warmpool_of template))
                (λ h. cluster.create_claim h ns (warmpool_of template)))
        await_sandbox fuel api_url ns claim

  -- `Close`: a claim that is gone already is closed.
  unfoldable pub close : Sandbox → Action Call String (Unit {0})
  close s = if s.claim_name == "" then pure tt else do
    deleted ← attempt (
        call (Call.delete_claim s.namespace s.claim_name)
          (λ h. cluster.delete_claim h s.namespace s.claim_name))
    elim deleted [
      | ok _ ↦ pure tt
      | err (not_found _) ↦ pure tt
      | err (failure e) ↦ raise ("sandbox: failed to delete claim " ++ s.claim_name ++ ": " ++ e)
    ]

  -- the target of `SubmitTask`, and whether the router is used
  unfoldable pub target_url : Sandbox → Result String (String × Bool)
  target_url s =
      let test_url = cluster.getenv "TEST_SANDBOX_API_URL" in
      if test_url == ""
      then (if s.api_url == ""
          then err "neither TEST_SANDBOX_API_URL nor client APIURL is configured"
          else ok (trim_suffix s.api_url "/" ++ "/task", true))
      else ok (trim_suffix test_url "/" ++ "/task", false)

  unfoldable pub router_headers : Sandbox → Bool → List (String × String)
  router_headers s false = []
  router_headers s true =
      ("X-Sandbox-ID", s.sandbox_name)
      ∷ ("X-Sandbox-Namespace", s.namespace)
      ∷ ("X-Sandbox-Port", "8888")
      ∷ ("X-Sandbox-Pod-IP", s.pod_ip)
      ∷ []

  unfoldable pub submit_task : Sandbox → TaskRequest → Action Call String (Unit {0})
  submit_task s req = do
    target ← lift (target_url s)
    map_err (λ e. "failed to create http request: " ++ e) (lift (cluster.parse_url target.0))
    let request : HttpRequest = record {
      method = "POST";
      url = target.0;
      headers = ("Content-Type", "application/json") ∷ router_headers s target.1;
      credentials = none;
      body = some (request_json req);
    }
    resp ←
        map_err (λ e. "failed to send task request to " ++ target.0 ++ ": " ++ e)
          (call (Call.send request) (λ h. cluster.send h request))
    if nat_eq resp.status 200
        then pure tt
        else raise (
            "task execution returned unexpected status "
            ++ decimal (pos resp.status)
            ++ ": "
            ++ take_bytes 4096 resp.body)

-- `GetSandbox`
unfoldable pub get_sandbox : String → String → String → String → String → Sandbox
get_sandbox api_url claim sandbox pod namespace = record {
  api_url = api_url;
  claim_name = claim;
  sandbox_name = sandbox;
  pod_name = pod;
  namespace = namespace;
  pod_ip = "";
}
