-- ===== src/Orchestrator/Reconcile.antt =====
-- One synchronisation step for a task (`Reconcile` of pkg/orchestrator/controller.go), a function
-- for each state of the task.
use Prim.Native.String.{◌++◌}
use cloud_agent.Common.{
  ℤ, pos, ltb_ℤ, inc, is_zero, decimal, String, Option, none, some, List, [], ◌∷◌, ◌==◌,
  if◌then◌else◌, Action, pure, raise, call, lift, attempt, map_err, asks, tell, ◌>>=◌, ◌>>◌, ok,
  err,
}
use cloud_agent.Api.{
  AgentTaskState, unset, pending, started, running, completed, failed, AgentTask, from_unstructured,
}
use cloud_agent.Cluster.{not_found, failure, Pod, Call}
use cloud_agent.Sandbox.Client.{Sandbox, get_sandbox, close}
use cloud_agent.Orchestrator.Basic.{
  Orchestrator, is_active, validate_task, record_event, update_task_status, update_task_state,
}

-- The exit code of the first container that has terminated.
unfoldable pub first_terminated : List (Option ℤ) → Option ℤ
first_terminated [] = none
first_terminated (some code ∷ _) = some code
first_terminated (none ∷ statuses) = first_terminated statuses

-- the handle of a task's sandbox
unfoldable pub sandbox_of : Orchestrator → AgentTask → Sandbox
sandbox_of o task =
    get_sandbox o.sandbox_url task.status.sandbox_claim_name task.status.sandbox_name
      task.status.pod_name task.metadata.namespace

-- the task once its sandbox is closed
unfoldable pub without_sandbox : AgentTask → AgentTask
without_sandbox task = record task {
  status = record task.status { sandbox_claim_name = ""; sandbox_name = ""; pod_name = "" };
}

-- the task as a retry writes it
unfoldable pub retried : AgentTask → AgentTask
retried task = record task {
  status = record task.status { retries = inc task.status.retries; state = started };
}

module _ (o : Orchestrator) where
  open o use {cluster, codec, namespace, max_retries}

  -- `if err := o.updateTaskState(…); err != nil { return fmt.Errorf(…) }; return nil`
  unfoldable pub move_to : AgentTask → AgentTaskState → String → Action Call String (Unit {0})
  move_to task state context =
      map_err (λ e. context ++ e) (update_task_state o task state) >> pure tt

  -- closes the task's sandbox, and records an event if that fails
  unfoldable pub close_sandbox : AgentTask → Action Call String (Unit {0})
  close_sandbox task = do
    closed ← attempt (close cluster (sandbox_of o task))
    elim closed [
      | ok _ ↦ pure tt
      | err e ↦
          record_event o task "Warning" "SandboxCloseFailed" e
          >> raise ("failed to close sandbox: " ++ e)
    ]

  unfoldable pub reconcile_pending : AgentTask → Action Call String (Unit {0})
  reconcile_pending task = elim (validate_task task) [
    | err e ↦ record_event o task "Warning" "ValidationFailed" e
    | ok _ ↦ move_to task started "failed to update task state to Started: "
  ]

  unfoldable pub reconcile_started : AgentTask → Action Call String (Unit {0})
  reconcile_started task = do
    active ← asks (is_active task.metadata.name)
    if active
        then pure tt
        else tell (Call.activate task.metadata.name) >> tell (Call.launch task.metadata.name)

  -- what a pod that was found means for its task
  unfoldable pub reconcile_pod : AgentTask → Pod → Action Call String (Unit {0})
  reconcile_pod task pod =
      let update_context = λ (state : String).
        "failed to update task " ++ task.metadata.name ++ " state to " ++ state ++ ": " in
      let complete = move_to task completed (update_context "Completed") in
      let fail = move_to task failed (update_context "Failed") in
      elim (first_terminated pod.container_statuses) [
        | some code ↦
            if is_zero code
            then complete
            else record_event o task "Warning" "PodTerminatedWithFailure"
                ("Sandbox pod terminated with exit code " ++ decimal code)
              >> fail
        | none ↦
            if pod.phase == "Succeeded"
            then complete
            else if pod.phase == "Failed"
            then record_event o task "Warning" "PodFailed" "Sandbox pod failed" >> fail
            else pure tt
      ]

  unfoldable pub reconcile_running : AgentTask → Action Call String (Unit {0})
  reconcile_running task =
      let name = task.status.pod_name in
      if name == "" then pure tt else do
        got ← attempt (call (Call.get_pod namespace name) (λ h. cluster.get_pod h namespace name))
        elim got [
          | ok pod ↦ reconcile_pod task pod
          | err (not_found _) ↦
              record_event o task "Warning" "PodNotFound"
                ("Sandbox pod " ++ name ++ " was not found")
              >> move_to task failed "failed to update task status to Failed: "
          | err (failure e) ↦ raise ("failed to get pod " ++ name ++ ": " ++ e)
        ]

  unfoldable pub reconcile_completed : AgentTask → Action Call String (Unit {0})
  reconcile_completed task = do
    if task.status.sandbox_claim_name == "" then pure tt else close_sandbox task
    let name = task.metadata.name
    let ns = task.metadata.namespace
    gone ← attempt (call (Call.delete_task ns name) (λ h. cluster.delete_task h ns name))
    elim gone [
      | ok _ ↦ pure tt
      | err (not_found _) ↦ pure tt
      | err (failure e) ↦ raise ("failed to delete completed task: " ++ e)
    ]

  -- the end of `case StateFailed`
  unfoldable pub retry_or_give_up : AgentTask → Action Call String (Unit {0})
  retry_or_give_up task =
      if ltb_ℤ task.status.retries (pos max_retries)
      then map_err (λ e. "failed to transition task to Started state: " ++ e)
          (update_task_status o (retried task))
        >> pure tt
      else record_event o task "Warning" "RetriesExhausted"
          ("Task failed after exhausting " ++ decimal (pos max_retries) ++ " retries")

  unfoldable pub reconcile_failed : AgentTask → Action Call String (Unit {0})
  reconcile_failed task = do
    task' ←
        if task.status.sandbox_claim_name == ""
        then pure task
        else close_sandbox task
          >> map_err (λ e. "failed to update status after closing sandbox: " ++ e)
              (update_task_status o (without_sandbox task))
    retry_or_give_up task'

  -- The `switch`, on the state that was read; the default is to do nothing.
  unfoldable pub dispatch : AgentTaskState → AgentTask → Action Call String (Unit {0})
  dispatch pending task = reconcile_pending task
  dispatch started task = reconcile_started task
  dispatch running task = reconcile_running task
  dispatch completed task = reconcile_completed task
  dispatch failed task = reconcile_failed task
  dispatch _ task = pure tt

  -- A task with no state is made pending first, and is then handled as a pending one.
  unfoldable pub reconcile_unset : AgentTask → Action Call String (Unit {0})
  reconcile_unset task = do
    task' ←
        map_err (λ e. "failed to initialize task state to Pending: " ++ e)
          (update_task_state o task pending)
    reconcile_pending task'

  unfoldable pub reconcile_state : AgentTaskState → AgentTask → Action Call String (Unit {0})
  reconcile_state unset task = reconcile_unset task
  reconcile_state state task = dispatch state task

  unfoldable pub reconcile : String → Action Call String (Unit {0})
  reconcile name = do
    got ← attempt (call (Call.get_task namespace name) (λ h. cluster.get_task h namespace name))
    elim got [
      | err (not_found _) ↦ pure tt
      | err (failure e) ↦ raise ("failed to get AgentTask: " ++ e)
      | ok u ↦ do
        task ← map_err (λ e. "failed to parse AgentTask: " ++ e) (lift (from_unstructured codec u))
        reconcile_state task.status.state task
    ]
