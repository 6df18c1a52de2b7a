-- ===== src/Cluster.antt =====
-- What the processes in the cluster find outside themselves: the Kubernetes API server with the
-- controllers behind it, the HTTP services, the clock and the random source. Each answer is a
-- function of the calls made before, newest first, so any behaviour over time is an instance.
use cloud_agent.Common.{ℕ, ℤ, String, Bool, Option, List, Result}
use cloud_agent.Api.{Unstructured}
use cloud_agent.Api.Wire.{Json}

-- `k8serrors.IsNotFound` tells the first kind from the rest.
pub data ApiError : Type 0 where
  not_found : String → ApiError
  failure : String → ApiError

-- `err.Error()`
abbrev pub message : ApiError → String
message (not_found s) = s
message (failure s) = s

-- Of `corev1.Pod`: the phase, each container's exit code if it has terminated, and the address.
pub record Pod : Type 0 where
  pub name : String
  pub phase : String
  pub container_statuses : List (Option ℤ)
  pub pod_ip : String

-- Of a `Sandbox` resource: its conditions (type and status), the pods' addresses, annotations.
pub record SandboxObject : Type 0 where
  pub name : String
  pub annotations : List (String × String)
  pub conditions : List (String × String)
  pub pod_ips : List String

-- `corev1.Event`, without its times.
pub record Event : Type 0 where
  pub generate_name : String
  pub namespace : String
  pub involved_name : String
  pub involved_uid : String
  pub reason : String
  pub message : String
  pub event_type : String

-- `credentials` are those of `SetBasicAuth`.
pub record HttpRequest : Type 0 where
  pub method : String
  pub url : String
  pub headers : List (String × String)
  pub credentials : Option (String × String)
  pub body : Option Json

-- `document` is what the JSON decoder makes of the body.
pub record HttpResponse : Type 0 where
  pub status : ℕ
  pub body : String
  pub document : Result String Json

-- `exec.Command`, with its directory ("" where none is set).
pub record Command : Type 0 where
  pub program : String
  pub arguments : List String
  pub directory : String

-- A client of GitHub's API: its token and its base URL.
pub record GitHubAccess : Type 0 where
  pub token : String
  pub base_url : String

-- `github.NewPullRequest`; the field that lets maintainers modify it is always set.
pub record NewPullRequest : Type 0 where
  pub title : String
  pub head : String
  pub base : String
  pub body : String

-- The first argument of a call is the namespace. `activate` and `deactivate` are the writes of the
-- orchestrator's `activeTasks`, `launch` is its `go` statement, `sleep` counts nanoseconds. The
-- watches name their resource first. The last
-- five are calls of the sandbox server's runner.
pub data Call : Type 0 where
  get_task delete_task : String → String → Call
  list_tasks : String → Call
  update_status update : String → Unstructured → Call
  get_pod : String → String → Call
  create_event : Event → Call
  create_claim get_claim delete_claim get_sandbox : String → String → Call
  send : HttpRequest → Call
  activate deactivate launch : String → Call
  sleep : ℕ → Call
  open_watch close_watch : String → String → Call
  make_dir read_file : String → Call
  exec : Command → Call
  get_repository : GitHubAccess → String → String → Call
  create_pull : GitHubAccess → String → String → NewPullRequest → Call

pub record Cluster : Type 0 where
  pub get_task : List Call → String → String → Result ApiError Unstructured
  pub list_tasks : List Call → String → Result ApiError (List Unstructured)
  pub update_status : List Call → String → Unstructured → Result ApiError Unstructured
  pub update : List Call → String → Unstructured → Result ApiError Unstructured
  pub delete_task : List Call → String → String → Result ApiError (Unit {0})
  pub get_pod : List Call → String → String → Result ApiError Pod
  pub create_event : List Call → Event → Result ApiError (Unit {0})
  -- the name that the server generates for the claim
  pub create_claim : List Call → String → String → Result ApiError String
  -- `Status.SandboxStatus.Name` of the claim
  pub get_claim : List Call → String → String → Result ApiError String
  pub delete_claim : List Call → String → String → Result ApiError (Unit {0})
  pub get_sandbox : List Call → String → String → Result ApiError SandboxObject
  -- `http.NewRequest` refuses a URL that does not parse
  pub parse_url : String → Result String (Unit {0})
  pub send : List Call → HttpRequest → Result String HttpResponse
  -- whether a `select` finds the context done
  pub done : List Call → Bool
  -- `Watch`, of a resource in a namespace
  pub open_watch : List Call → String → String → Result String (Unit {0})
  -- `rand.Int63n(n)`
  pub random_below : List Call → ℕ → ℕ
  pub getenv : String → String
