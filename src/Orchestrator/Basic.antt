-- ===== src/Orchestrator/Basic.antt =====
-- The orchestrator's settings, its map of active tasks, and the calls that its functions share
-- (pkg/orchestrator/controller.go).
use Prim.Native.Char.{code}
use Prim.Native.String.{◌++◌}
use cloud_agent.Common.{
  missing_if, ℕ, zero, suc, ◌+◌, ◌-◌, ◌*◌, ◌^◌, ℤ, pos, negsuc, is_zero, ltb, leb, String, Bool,
  true, false, ◌&&◌, Option, none, some, List, [], ◌∷◌, ◌==◌, nat_eq, if◌then◌else◌, Action, pure,
  call, lift, attempt, map_err, ◌>>=◌, ◌>>◌, Result, ok, err, show_list,
}
use cloud_agent.Api.{
  AgentTaskState, AgentTask, AgentTaskSpec, Codec, from_unstructured, to_unstructured,
}
use cloud_agent.Cluster.{message, Event, Call, Cluster}
use cloud_agent.Webhook.Client.{Client, new_client, webhook_listener_url}

-- What a run of the orchestrator is given: the outside, `Unstructured`'s methods, and the fields
-- of `Orchestrator` that never change (`sandbox_url` is the sandbox client's `APIURL`).
pub record Orchestrator : Type 0 where
  pub cluster : Cluster
  pub codec : Codec
  pub namespace : String
  pub sandbox_url : String
  pub max_retries : ℕ
  pub webhook_client : Client

is_digit : ℕ → Bool
is_digit c = leb b'0' c && leb c b'9'

digits_value : ℕ → String → Option ℕ
digits_value acc String.[] = some acc
digits_value acc (String.◌∷◌ c s) =
    let rest = digits_value (acc * 10 + (code c - b'0')) s in
    if is_digit (code c) then rest else none

unsigned : String → Option ℕ
unfolding digits_value is_digit
unsigned s = if s == "" then none else digits_value 0 s

-- `strconv.Atoi`: a sign, digits, and the range of an int64
unfoldable pub atoi : String → Option ℤ
unfolding unsigned
atoi String.[] = none
atoi (String.◌∷◌ c s) =
    if nat_eq (code c) b'-'
    then elim (unsigned s) [
      | none ↦ none
      | some n ↦ if leb n (2 ^ 63) then some (elim n [ zero ↦ pos 0 | suc m ↦ negsuc m ]) else none
    ]
    else elim (unsigned (if nat_eq (code c) b'+' then s else String.◌∷◌ c s)) [
      | none ↦ none
      | some n ↦ if ltb n (2 ^ 63) then some (pos n) else none
    ]

-- `AGENT_RETRY_COUNT`, or no retries where it is missing, no number, or negative
unfoldable pub max_retries_of : (String → String) → ℕ
unfolding atoi
max_retries_of getenv = elim (atoi (getenv "AGENT_RETRY_COUNT")) [
  | none ↦ 0
  | some (pos n) ↦ n
  | some (negsuc _) ↦ 0
]

unfoldable pub new_orchestrator : Cluster → Codec → String → String → Orchestrator
new_orchestrator cluster codec sandbox_url namespace = record {
  cluster = cluster;
  codec = codec;
  namespace = namespace;
  sandbox_url = sandbox_url;
  max_retries = max_retries_of cluster.getenv;
  webhook_client = new_client cluster.getenv (webhook_listener_url cluster.getenv namespace);
}

-- Whether the map `activeTasks` has the task: it holds what was put in and not taken out since.
unfoldable pub is_active : String → List Call → Bool
is_active name [] = false
is_active name (Call.activate task ∷ h) = if task == name then true else is_active name h
is_active name (Call.deactivate task ∷ h) = if task == name then false else is_active name h
is_active name (_ ∷ h) = is_active name h

-- the list `missing` of `validateTask`
unfoldable pub missing_fields : AgentTaskSpec → List String
unfolding missing_if
missing_fields s = missing_if s.prompt "prompt" (
    missing_if s.repo_owner "repoOwner" (
      missing_if s.repo_name "repoName" (
        missing_if s.sandbox_template "sandboxTemplate" (
          let last = missing_if s.task_type "taskType" [] in
          if is_zero s.issue_number then "issueNumber" ∷ last else last))))

unfoldable pub validate_task : AgentTask → Result String (Unit {0})
unfolding missing_fields show_list
validate_task task = elim (missing_fields task.spec) [
  | [] ↦ ok tt
  | name ∷ more ↦ err ("missing required fields: " ++ show_list (name ∷ more))
]

unfoldable pub event_of : AgentTask → String → String → String → Event
event_of task event_type reason text = record {
  generate_name = task.metadata.name ++ "-event-";
  namespace = task.metadata.namespace;
  involved_name = task.metadata.name;
  involved_uid = task.metadata.uid;
  reason = reason;
  message = text;
  event_type = event_type;
}

module _ (o : Orchestrator) where
  open o use {cluster, codec, namespace}

  -- A failure to record the event is only logged.
  unfoldable pub record_event :
      {E : Type 0} → AgentTask → String → String → String → Action Call E (Unit {0})
  record_event task event_type reason text = do
    let event = event_of task event_type reason text
    attempt (call (Call.create_event event) (λ h. cluster.create_event h event))
    pure tt

  -- The result is what `*task` holds afterwards.
  unfoldable pub update_task_status : AgentTask → Action Call String AgentTask
  update_task_status task = do
    u ← lift (to_unstructured codec task)
    first ←
        attempt (call (Call.update_status namespace u) (λ h. cluster.update_status h namespace u))
    updated ← elim first [
      | ok u' ↦ pure u'
      | err _ ↦ map_err message (call (Call.update namespace u) (λ h. cluster.update h namespace u))
    ]
    lift (from_unstructured codec updated)

  unfoldable pub update_task_state : AgentTask → AgentTaskState → Action Call String AgentTask
  update_task_state task state =
      update_task_status (record task { status = record task.status { state = state } })
