-- ===== src/Api.antt =====
-- AgentTask (pkg/apis/cloudagent/v1alpha1/types.go): the type, and its conversions from and to
-- unstructured Kubernetes objects.
pub mod Wire
pub mod RoundTrip
pub mod Examples
use cloud_agent.Common.{String, ℤ, Result, ok, err, ◌==◌, if◌then◌else◌}
use Wire.{Json, null, obj, Fields, end, field, get_string, get_int, get_object, put_string, put_int}

-- `AgentTaskState` is a text: the constants, the empty text, and any other.
pub data AgentTaskState : Type 0 where
  unset pending started running completed failed deleted : AgentTaskState
  other : String → AgentTaskState

unfoldable pub state_text : AgentTaskState → String
state_text unset = ""
state_text pending = "Pending"
state_text started = "Started"
state_text running = "Running"
state_text completed = "Completed"
state_text failed = "Failed"
state_text deleted = "Deleted"
state_text (other s) = s

unfoldable pub state_of_text : String → AgentTaskState
state_of_text s =
    if s == ""
    then unset
    else if s == "Pending"
    then pending
    else if s == "Started"
    then started
    else if s == "Running"
    then running
    else if s == "Completed"
    then completed
    else if s == "Failed"
    then failed
    else if s == "Deleted"
    then deleted
    else other s

pub record AgentTaskSpec : Type 0 where
  pub prompt : String
  pub sandbox_template : String
  pub task_owner : String
  pub task_owner_email : String
  pub repo_owner : String
  pub repo_name : String
  pub issue_number : ℤ
  pub task_type : String

pub record AgentTaskStatus : Type 0 where
  pub state : AgentTaskState
  pub retries : ℤ
  pub sandbox_claim_name : String
  pub sandbox_name : String
  pub pod_name : String

-- Of `metav1.ObjectMeta`, the part that the program reads, and the version that the API server
-- compares on an update.
pub record ObjectMeta : Type 0 where
  pub name : String
  pub namespace : String
  pub uid : String
  pub resource_version : String

pub record AgentTask : Type 0 where
  pub api_version : String
  pub kind : String
  pub metadata : ObjectMeta
  pub spec : AgentTaskSpec
  pub status : AgentTaskStatus

-- `unstructured.Unstructured` is a map of the object's fields.
pub record Unstructured : Type 0 where
  pub object : Fields

-- The methods of `Unstructured` that the conversions call.
pub record Codec : Type 0 where
  pub marshal_json : Unstructured → Result String Json
  pub unmarshal_json : Json → Result String Unstructured
  pub set_api_version : String → Unstructured → Unstructured
  pub set_kind : String → Unstructured → Unstructured

infixl 5 ◌>>=◌
abbrev pub ◌>>=◌ : {E A B : Type 0} → Result E A → (A → Result E B) → Result E B
ok a >>= f = f a
err e >>= f = err e

abbrev metadata_json : ObjectMeta → Fields
metadata_json m = put_string "name" m.name (
    put_string "namespace" m.namespace
      (put_string "uid" m.uid (put_string "resourceVersion" m.resource_version end)))

abbrev spec_json : AgentTaskSpec → Fields
spec_json s = put_string "prompt" s.prompt (
    put_string "sandboxTemplate" s.sandbox_template (
      put_string "taskOwner" s.task_owner (
        put_string "taskOwnerEmail" s.task_owner_email (
          put_string "repoOwner" s.repo_owner (
            put_string "repoName" s.repo_name
              (put_int "issueNumber" s.issue_number (put_string "taskType" s.task_type end)))))))

abbrev status_json : AgentTaskStatus → Fields
status_json s = put_string "state" (state_text s.state) (
    put_int "retries" s.retries (
      put_string "sandboxClaimName" s.sandbox_claim_name
        (put_string "sandboxName" s.sandbox_name (put_string "podName" s.pod_name end))))

-- `json.Marshal(task)`
unfoldable pub task_fields : AgentTask → Fields
unfolding put_string put_int
task_fields t = put_string "kind" t.kind (
    put_string "apiVersion" t.api_version (
      field "metadata" (obj (metadata_json t.metadata))
        (field "spec" (obj (spec_json t.spec)) (field "status" (obj (status_json t.status)) end))))

metadata_of : Fields → Result String ObjectMeta
metadata_of fs = do
  name ← get_string "name" fs
  namespace ← get_string "namespace" fs
  uid ← get_string "uid" fs
  resource_version ← get_string "resourceVersion" fs
  ok (record { name = name; namespace = namespace; uid = uid; resource_version = resource_version })

spec_of : Fields → Result String AgentTaskSpec
spec_of fs = do
  prompt ← get_string "prompt" fs
  sandbox_template ← get_string "sandboxTemplate" fs
  task_owner ← get_string "taskOwner" fs
  task_owner_email ← get_string "taskOwnerEmail" fs
  repo_owner ← get_string "repoOwner" fs
  repo_name ← get_string "repoName" fs
  issue_number ← get_int "issueNumber" fs
  task_type ← get_string "taskType" fs
  ok (record {
    prompt = prompt;
    sandbox_template = sandbox_template;
    task_owner = task_owner;
    task_owner_email = task_owner_email;
    repo_owner = repo_owner;
    repo_name = repo_name;
    issue_number = issue_number;
    task_type = task_type;
  })

status_of : Fields → Result String AgentTaskStatus
status_of fs = do
  state ← get_string "state" fs
  retries ← get_int "retries" fs
  claim ← get_string "sandboxClaimName" fs
  sandbox ← get_string "sandboxName" fs
  pod ← get_string "podName" fs
  ok (record {
    state = state_of_text state;
    retries = retries;
    sandbox_claim_name = claim;
    sandbox_name = sandbox;
    pod_name = pod;
  })

-- `json.Unmarshal(data, &task)`
task_of_fields : Fields → Result String AgentTask
unfolding metadata_of spec_of status_of get_string get_int get_object
task_of_fields fs = do
  kind ← get_string "kind" fs
  api_version ← get_string "apiVersion" fs
  metadata ← metadata_of (← get_object "metadata" fs)
  spec ← spec_of (← get_object "spec" fs)
  status ← status_of (← get_object "status" fs)
  ok (record {
    api_version = api_version;
    kind = kind;
    metadata = metadata;
    spec = spec;
    status = status;
  })

unfoldable pub task_of : Json → Result String AgentTask
unfolding task_of_fields
task_of (obj fs) = task_of_fields fs
task_of null = task_of_fields end
task_of _ = err "json: cannot unmarshal into Go value of type v1alpha1.AgentTask"

module _ (codec : Codec) where
  open codec use {marshal_json, unmarshal_json, set_api_version, set_kind}

  -- `FromUnstructured`
  unfoldable pub from_unstructured : Unstructured → Result String AgentTask
  unfolding task_of
  from_unstructured u = do text ← marshal_json u; task_of text

  -- `ToUnstructured`
  unfoldable pub to_unstructured : AgentTask → Result String Unstructured
  unfolding task_fields
  to_unstructured task = do
    u ← unmarshal_json (obj (task_fields task))
    ok (set_kind "AgentTask" (set_api_version "cloudagent.mayurhalai.github.com/v1alpha1" u))
