-- ===== src/Orchestrator/Examples.antt =====
-- The orchestrator's theorems on concrete tasks.
use Prim.Native.String.{◌++◌}
use cloud_agent.Common.{
  ne_empty, ◌⊎◌, false, sym, if◌then◌else◌, decimal, take_bytes, ℤ, pos, String, List, [], ◌∷◌, ok,
  err, ◌≡◌, refl, ◌≢◌, ◌≤◌, leb, length, arith, true, eq_iff, action, Emits, Adds,
}
use cloud_agent.Api.{
  task_fields, state_text, state_of_text, AgentTask, AgentTaskState, Unstructured, started, running,
  completed, failed, from_unstructured,
}
use cloud_agent.Cluster.{SandboxObject, Call, not_found, failure}
use cloud_agent.Sandbox.Examples.{provisions}
use cloud_agent.Samples.{
  cluster_sending, tokens_answer, sandbox, provisioned, codec, task_in, stored, exited_pod,
  waiting_pod, ready_sandbox, cluster_with, orchestrator_on,
}
use cloud_agent.Orchestrator.Basic.{Orchestrator, is_active, event_of}
use cloud_agent.Orchestrator.Lifecycle.{Writes, reconcile-Writes}
use cloud_agent.Orchestrator.Reconcile.{
  reconcile, reconcile_failed, reconcile_completed, reconcile_running,
}
use cloud_agent.Orchestrator.Retries.{Budgeted, reconcile_failed-Budgeted}
use cloud_agent.Orchestrator.Running.{
  Exited, first, later, Outcome, exit_zero, exit_nonzero, succeeded, phase_failed, Moved,
  reconcile_running-Outcome,
}
use cloud_agent.Sandbox.Client.{pod_name_of, is_ready, annotation, Stop, submit_task, target_url}
use cloud_agent.Sandbox.Calls.{Sends}
use cloud_agent.Webhook.Client.{generate_tokens, send_request}
use cloud_agent.Webhook.Tokens.{decode_tokens, TokenResponse}
use cloud_agent.Orchestrator.Submission.{
  try_submit_to_sandbox, run_sandbox_submission, task_request,
}
use cloud_agent.Orchestrator.Submitting.{Submissions, run_sandbox_submission-Submissions}
use cloud_agent.Orchestrator.Cleanup.{try_submit_to_sandbox_leaks, run_sandbox_submission_returns}
use cloud_agent.Orchestrator.Cases.{Gone, Deleted, reconcile_completed_order}

abbrev failed_task : AgentTask
failed_task = task_in failed "" ""

abbrev done_task : AgentTask
done_task = task_in completed "claim-1" "pod-1"

abbrev running_task : AgentTask
running_task = task_in running "claim-1" "pod-1"

-- the orchestrator on a cluster that holds a task, and that deletes claims
abbrev on_task : AgentTask → Orchestrator
on_task t = orchestrator_on (cluster_with (stored t) (ok exited_pod) (ok tt))

abbrev stuck : Orchestrator
stuck = orchestrator_on (cluster_with (stored done_task) (ok exited_pod) (err (failure "denied")))

read : from_unstructured codec (stored running_task) ≡ ok running_task
unfolding from_unstructured task_fields state_text state_of_text
read = refl

reconcile-Writes_example :
    Adds
      (Writes (on_task running_task) running)
      []
      (reconcile (on_task running_task) "task-7-ab" []).1
reconcile-Writes_example = reconcile-Writes (on_task running_task) "task-7-ab" [] refl read

reconcile_failed-Budgeted_example :
    Emits (Budgeted (on_task failed_task)) (reconcile_failed (on_task failed_task) failed_task)
reconcile_failed-Budgeted_example = reconcile_failed-Budgeted (on_task failed_task) failed_task refl

abbrev done_claim : Call
done_claim = Call.delete_claim "agents" "claim-1"

-- the claim cannot be deleted
reconcile_completed_order_example :
    let (r, h') = reconcile_completed stuck done_task [] in
    let answer = stuck.cluster.delete_claim [] "agents" "claim-1" in
    ((done_task.status.sandbox_claim_name ≡ "")
      × (h' ≡ Call.delete_task "agents" "task-7-ab" ∷ [])
      × Deleted stuck done_task [] r)
    ⊎ ((done_task.status.sandbox_claim_name ≢ "")
        × Gone answer
        × (h' ≡ Call.delete_task "agents" "task-7-ab" ∷ done_claim ∷ [])
        × Deleted stuck done_task (done_claim ∷ []) r)
    ⊎ ((done_task.status.sandbox_claim_name ≢ "")
        × (e : String) × (answer ≡ err (failure e))
        × (r ≢ ok tt)
        × (h'
            ≡ Call.create_event (
                event_of done_task "Warning" "SandboxCloseFailed"
                  ("sandbox: failed to delete claim " ++ "claim-1" ++ ": " ++ e))
              ∷ done_claim
              ∷ []))
reconcile_completed_order_example = reconcile_completed_order stuck done_task []

abbrev spent_task : AgentTask
spent_task = record failed_task { status = record failed_task.status { retries = pos 2 } }

reconcile_running-Outcome_example :
    Moved
      (on_task running_task)
      running_task
      completed
      (Call.get_pod "agents" "pod-1" ∷ [])
      (reconcile_running (on_task running_task) running_task [])
reconcile_running-Outcome_example =
    reconcile_running-Outcome (on_task running_task) running_task [] exited_pod completed
      (ne_empty _ refl) refl (exit_zero (later first))

abbrev waiting : Orchestrator
waiting = orchestrator_on (cluster_with (stored running_task) (ok waiting_pod) (ok tt))

no_exit : {code : ℤ} → ¬ Exited code []
no_exit x = elim x [ ]

undecided : (s : AgentTaskState) → ¬ Outcome waiting_pod s
undecided _ (exit_zero (later x)) = absurd (no_exit x)
undecided _ (exit_nonzero code bad (later x)) = absurd (no_exit x)
undecided _ (succeeded alive phase) = absurd (ground (arith, eq_iff "Running" "Succeeded"))
undecided _ (phase_failed alive phase) = absurd (ground (arith, eq_iff "Running" "Failed"))

abbrev lost : Orchestrator
lost = orchestrator_on (cluster_with (stored running_task) (err (not_found "gone")) (ok tt))

abbrev started_task : AgentTask
started_task = task_in started "" ""

abbrev trying : Orchestrator
trying = orchestrator_on (cluster_with (stored started_task) (ok exited_pod) (ok tt))

run_sandbox_submission-Submissions_example :
    Submissions trying 30 "task-7-ab" [] (run_sandbox_submission trying 30 30 "task-7-ab" []).1
run_sandbox_submission-Submissions_example =
    run_sandbox_submission-Submissions trying 30 30 "task-7-ab" []

abbrev refusing : Orchestrator
refusing = orchestrator_on (cluster_sending (stored running_task) (λ h r. err "refused"))

refused :
    (generate_tokens refusing.cluster refusing.webhook_client "task-7-ab" provisioned).0
    ≡ err "failed to request tokens: refused"
unfolding generate_tokens action send_request
refused = refl

abbrev busy : Orchestrator
busy = orchestrator_on (cluster_sending (stored running_task) tokens_answer)

granted :
    (generate_tokens busy.cluster busy.webhook_client "task-7-ab" provisioned).0
    ≡ ok (record { github_token = "g"; callback_token = "c" })
unfolding generate_tokens action send_request decode_tokens
granted = refl

abbrev granted_tokens : TokenResponse
granted_tokens = record { github_token = "g"; callback_token = "c" }

abbrev granted_history : List Call
granted_history = (generate_tokens busy.cluster busy.webhook_client "task-7-ab" provisioned).1

abbrev busy_error : String
busy_error = "task execution returned unexpected status 500: busy"

rejected :
    (submit_task busy.cluster sandbox (task_request running_task granted_tokens) granted_history).0
    ≡ err busy_error
unfolding submit_task action target_url decimal take_bytes
rejected = refl

try_submit_to_sandbox_leaks_example :
    ((try_submit_to_sandbox busy 30 running_task []).0
      ≡ err (Stop.failed ("failed to execute task inside sandbox: " ++ busy_error)))
    × Adds Sends granted_history (try_submit_to_sandbox busy 30 running_task []).1
try_submit_to_sandbox_leaks_example =
    try_submit_to_sandbox_leaks busy 30 running_task [] sandbox provisioned granted_tokens
      busy_error (provisions (stored running_task) tokens_answer) granted rejected

-- The context is never done, every request to a sandbox is answered with 500, and the task is read
-- as started until twenty calls have been made, and then as running.
abbrev moving : Orchestrator
moving = record busy {
  cluster = record busy.cluster {
    done = λ h. false;
    get_task = λ h ns name.
        if leb 20 (length h) then ok (stored running_task) else ok (stored started_task);
  };
}

moving_named :
    (h : List Call) (ns claim : String)
    → 20 ≤ length h
    → moving.cluster.get_claim h ns claim ≢ ok ""
moving_named h ns claim late e =
    let same : ◌≡◌ {A = String} "sandbox-1" "" = cc in absurd (ne_empty "sandbox-1" refl same)

moving_ready :
    (h : List Call) (ns name : String) (object : SandboxObject)
    → 20 ≤ length h
    → moving.cluster.get_sandbox h ns name ≡ ok object
    → pod_name_of object ≢ ""
unfolding pod_name_of is_ready annotation
moving_ready h ns name object late e =
    let same : ready_sandbox ≡ object = cc in
    rw (sym same) (ne_empty (pod_name_of ready_sandbox) refl)

moving_on :
    (h : List Call) (u : Unstructured) (task : AgentTask)
    → 20 ≤ length h
    → moving.cluster.get_task h "agents" "task-7-ab" ≡ ok u
    → from_unstructured codec u ≡ ok task
    → task.status.state ≢ started
moving_on h u task late got parsed begun =
    let over : leb 20 (length h) ≡ true = ground arith in
    let same : stored running_task ≡ u = ground arith in
    let found : running_task ≡ task = cc read in
    let state : running ≡ started = cc in absurd (ground arith)

run_sandbox_submission_returns_example :
    let (r, h') = run_sandbox_submission moving 30 30 "task-7-ab" [] in
    (r ≡ ok tt) × (is_active "task-7-ab" h' ≡ false)
run_sandbox_submission_returns_example =
    run_sandbox_submission_returns moving 20 moving_named moving_ready "task-7-ab" moving_on 30 30
      [] (omega arith) (omega arith)
