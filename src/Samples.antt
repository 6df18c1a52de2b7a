-- ===== src/Samples.antt =====
-- Concrete data for the examples: a task, a codec, a cluster and an orchestrator.
use cloud_agent.Common.{pos, String, none, some, List, [], ◌∷◌, ok, err, Result, leb, length}
use cloud_agent.Api.{AgentTaskState, AgentTask, Unstructured, Codec, task_fields}
use cloud_agent.Api.Wire.{Json, obj, str, null, field, end, insert}
use cloud_agent.Cluster.{Call, HttpRequest, ApiError, Pod, SandboxObject, HttpResponse, Cluster}
use cloud_agent.Sandbox.Client.{Sandbox}
use cloud_agent.Orchestrator.Basic.{Orchestrator}

abbrev unmarshalled : Json → Result String Unstructured
unmarshalled (obj fs) = ok (record { object = fs })
unmarshalled _ = err "not an object"

abbrev pub codec : Codec
codec = record {
  marshal_json = λ u. ok (obj u.object);
  unmarshal_json = unmarshalled;
  set_api_version = λ v u. record { object = insert "apiVersion" (str v) u.object };
  set_kind = λ k u. record { object = insert "kind" (str k) u.object };
}

-- a task in a state, with its sandbox's claim and pod
abbrev pub task_in : AgentTaskState → String → String → AgentTask
task_in state claim pod = record {
  api_version = "cloudagent.mayurhalai.github.com/v1alpha1";
  kind = "AgentTask";
  metadata = record {
    name = "task-7-ab";
    namespace = "agents";
    uid = "u1";
    resource_version = "1";
  };
  spec = record {
    prompt = "Fix it";
    sandbox_template = "pi-sandbox-template";
    task_owner = "ada";
    task_owner_email = "1+ada@users.noreply.github.com";
    repo_owner = "acme";
    repo_name = "site";
    issue_number = pos 7;
    task_type = "pr";
  };
  status = record {
    state = state;
    retries = pos 0;
    sandbox_claim_name = claim;
    sandbox_name = "";
    pod_name = pod;
  };
}

abbrev pub stored : AgentTask → Unstructured
stored t = record { object = task_fields t }

abbrev pub exited_pod : Pod
exited_pod = record {
  name = "pod-1";
  phase = "Running";
  container_statuses = none ∷ some (pos 0) ∷ [];
  pod_ip = "10.0.0.1";
}

abbrev pub waiting_pod : Pod
waiting_pod = record {
  name = "pod-1";
  phase = "Running";
  container_statuses = none ∷ [];
  pod_ip = "";
}

abbrev pub ready_sandbox : SandboxObject
ready_sandbox = record {
  name = "sandbox-1";
  annotations = [];
  conditions = ("Ready", "True") ∷ [];
  pod_ips = "10.0.0.1" ∷ [];
}

abbrev tokens_document : Json
tokens_document = obj (field "gitHubToken" (str "g") (field "callbackToken" (str "c") end))

-- servers that issue tokens and take no task
abbrev pub tokens_answer : List Call → HttpRequest → Result String HttpResponse
tokens_answer h r = elim r.body [
  | none ↦ ok (record { status = 200; body = ""; document = ok tokens_document })
  | some _ ↦ ok (record { status = 500; body = "busy"; document = ok null })
]

-- A cluster that holds one task and one pod, whose claims are deleted or not, and whose servers
-- issue tokens but take no task. Its context is done once twenty calls have been made.
abbrev pub cluster_with : Unstructured → Result ApiError Pod → Result ApiError (Unit {0}) → Cluster
cluster_with u pod deleted = record {
  get_task = λ h ns name. ok u;
  list_tasks = λ h ns. ok (u ∷ []);
  update_status = λ h ns v. ok v;
  update = λ h ns v. ok v;
  delete_task = λ h ns name. ok tt;
  get_pod = λ h ns name. pod;
  create_event = λ h e. ok tt;
  create_claim = λ h ns warmpool. ok "claim-1";
  get_claim = λ h ns claim. ok "sandbox-1";
  delete_claim = λ h ns claim. deleted;
  get_sandbox = λ h ns sandbox. ok ready_sandbox;
  parse_url = λ url. ok tt;
  send = tokens_answer;
  done = λ h. leb 20 (length h);
  open_watch = λ h resource ns. ok tt;
  random_below = λ h n. 0;
  getenv = λ key. "";
}

abbrev pub orchestrator_on : Cluster → Orchestrator
orchestrator_on cluster = record {
  cluster = cluster;
  codec = codec;
  namespace = "agents";
  sandbox_url = "http://router";
  max_retries = 2;
  webhook_client = record {
    url = "http://listener";
    auth_username = "sandbox-orchestrator";
    auth_password = "pw";
  };
}

abbrev pub cluster_sending :
    Unstructured → (List Call → HttpRequest → Result String HttpResponse) → Cluster
cluster_sending u send = record (cluster_with u (ok exited_pod) (ok tt)) { send = send }

abbrev pub sandbox : Sandbox
sandbox = record {
  api_url = "http://router";
  claim_name = "claim-1";
  sandbox_name = "sandbox-1";
  pod_name = "sandbox-1";
  namespace = "agents";
  pod_ip = "10.0.0.1";
}

-- the calls that provision it
abbrev pub provisioned : List Call
provisioned =
    Call.get_pod "agents" "sandbox-1"
    ∷ Call.get_sandbox "agents" "sandbox-1"
    ∷ Call.get_claim "agents" "claim-1"
    ∷ Call.create_claim "agents" "pi-sandbox-warmpool"
    ∷ []
