-- ===== src/Orchestrator/Submission.antt =====
-- The goroutine that hands a started task to a sandbox (`trySubmitToSandbox` and
-- `runSandboxSubmission` of pkg/orchestrator/controller.go). `polls` bounds each polling loop of
-- the sandbox client, and the fuel of `submission_loop` its rounds. Durations are in nanoseconds.
use Prim.Native.String.{◌++◌}
use cloud_agent.Common.{
  ℕ, zero, suc, ◌+◌, ◌*◌, ltb, String, Bool, true, false, if◌then◌else◌, Action, pure, raise, call,
  attempt, map_err, asks, tell, ◌>>=◌, ◌>>◌, ok, err,
}
use cloud_agent.Api.{AgentTaskState, started, running, AgentTask, from_unstructured}
use cloud_agent.Cluster.{Call}
use cloud_agent.Sandbox.Client.{
  Sandbox, TaskRequest, Stop, failed, exhausted, create_sandbox, close, submit_task,
}
use cloud_agent.Webhook.Tokens.{TokenResponse}
use cloud_agent.Webhook.Client.{generate_tokens}
use cloud_agent.Orchestrator.Basic.{Orchestrator, is_active, record_event, update_task_status}

abbrev pub second : ℕ
second = 1_000_000_000

abbrev pub max_backoff : ℕ
max_backoff = 10 * second

-- `sleepTime`, for a backoff and its jitter
unfoldable pub sleep_time : ℕ → ℕ → ℕ
sleep_time backoff jitter =
    if ltb max_backoff (backoff + jitter) then max_backoff else backoff + jitter

unfoldable pub next_backoff : ℕ → ℕ
next_backoff backoff = if ltb max_backoff (backoff * 2) then max_backoff else backoff * 2

abbrev pub wrap : String → Stop → Stop
wrap context (failed e) = failed (context ++ e)
wrap context exhausted = exhausted

unfoldable pub is_started : AgentTaskState → Bool
is_started started = true
is_started _ = false

unfoldable pub task_request : AgentTask → TokenResponse → TaskRequest
task_request task tokens = record {
  task_name = task.metadata.name;
  callback_token = tokens.callback_token;
  github_token = tokens.github_token;
  repo_owner = task.spec.repo_owner;
  repo_name = task.spec.repo_name;
  task_owner = task.spec.task_owner;
  task_owner_email = task.spec.task_owner_email;
  task_type = task.spec.task_type;
  prompt = task.spec.prompt;
  issue_number = task.spec.issue_number;
}

-- the task as `runSandboxSubmission` writes it after a submission
unfoldable pub as_running : AgentTask → Sandbox → AgentTask
as_running task sandbox = record task {
  status = record task.status {
    state = running;
    sandbox_claim_name = sandbox.claim_name;
    sandbox_name = sandbox.sandbox_name;
    pod_name = sandbox.pod_name;
  };
}

module _ (o : Orchestrator) (polls : ℕ) where
  open o use {cluster, codec, namespace, sandbox_url, webhook_client}

  -- The deferred cleanup reads the function's own `err`. The failure of `SubmitTask` is held in an
  -- `err` of the `if` statement, so there the cleanup does nothing and `closeFailed` is still
  -- false.
  unfoldable pub try_submit_to_sandbox : AgentTask → Action Call Stop Sandbox
  try_submit_to_sandbox task = do
    sandbox ←
        map_err (wrap "failed to create sandbox: ")
          (create_sandbox cluster polls sandbox_url task.spec.sandbox_template namespace)
    tokens ← attempt (generate_tokens cluster webhook_client task.metadata.name)
    elim tokens [
      | err e ↦
          attempt (close cluster sandbox) >> raise (failed ("failed to generate tokens: " ++ e))
      | ok t ↦ do
        map_err (λ e. failed ("failed to execute task inside sandbox: " ++ e))
            (submit_task cluster sandbox (task_request task t))
        pure sandbox
    ]

  unfoldable pub submission_loop : ℕ → ℕ → String → Action Call Stop (Unit {0})
  submission_loop zero backoff name = raise exhausted
  submission_loop (suc rounds) backoff name =
      let again = submission_loop rounds (next_backoff backoff) name in
      do
        done ← asks cluster.done
        if done then pure tt else do
          got ←
              attempt (call (Call.get_task namespace name) (λ h. cluster.get_task h namespace name))
          elim got [
            | err _ ↦ pure tt
            | ok u ↦ elim (from_unstructured codec u) [
              | err _ ↦ pure tt
              | ok task ↦
                  if is_started task.status.state
                  then (do
                    submitted ← attempt (try_submit_to_sandbox task)
                    elim submitted [
                      | ok sandbox ↦
                          attempt (update_task_status o (as_running task sandbox)) >> pure tt
                      | err exhausted ↦ raise exhausted
                      | err (failed e) ↦ do
                        record_event o task "Warning" "SandboxSubmissionFailed" e
                        jitter ← asks (λ h. cluster.random_below h backoff)
                        tell (Call.sleep (sleep_time backoff jitter))
                        cancelled ← asks cluster.done
                        if cancelled then pure tt else again
                    ])
                  else pure tt
            ]
          ]

  -- The deferred removal runs when the loop returns.
  unfoldable pub run_sandbox_submission : ℕ → String → Action Call Stop (Unit {0})
  run_sandbox_submission rounds name = do
    submission_loop rounds second name
    active ← asks (is_active name)
    if active then tell (Call.deactivate name) else pure tt
