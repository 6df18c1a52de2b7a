-- ===== src/Orchestrator/Cases.antt =====
-- What `Reconcile` does in each state of a task.
use Prim.Native.String.{◌++◌}
use cloud_agent.Common.{
  String, decimal, true, List, ◌∷◌, ok, err, ◌≡◌, refl, ◌≢◌, ◌↔◌, inl, inr, arith, eq_iff, eq_refl,
  pos, ◌≤ℤ◌, ◌<ℤ◌, action, Result-cases, Bool-cases, Result, ◌⊎◌, ◌==◌,
}
use cloud_agent.Api.{started, AgentTask, AgentTaskSpec}
use cloud_agent.Cluster.{not_found, failure, ApiError, Call}
use cloud_agent.Sandbox.Client.{close, get_sandbox}
use cloud_agent.Orchestrator.Basic.{
  Orchestrator, is_active, event_of, missing_fields, validate_task, record_event,
  update_task_status,
}
use cloud_agent.Orchestrator.Reconcile.{
  sandbox_of, close_sandbox, reconcile_started, reconcile_completed, reconcile_failed,
  retry_or_give_up, retried,
}

-- The fields that a task needs, as a specification of its own.
pub record IsComplete (s : AgentTaskSpec) : Type 0 where
  pub has_prompt : s.prompt ≢ ""
  pub has_repo_owner : s.repo_owner ≢ ""
  pub has_repo_name : s.repo_name ≢ ""
  pub has_template : s.sandbox_template ≢ ""
  pub has_issue : s.issue_number ≢ pos 0
  pub has_type : s.task_type ≢ ""

ruleset required = (arith, eq_iff)

-- `validateTask` accepts a task exactly when each required field is set.
validate_task_iff : (t : AgentTask) → (validate_task t ≡ ok tt) ↔ IsComplete t.spec
unfolding validate_task missing_fields
validate_task_iff t = ground (
  arith,
  eq_iff t.spec.prompt "",
  eq_iff t.spec.repo_owner "",
  eq_iff t.spec.repo_name "",
  eq_iff t.spec.sandbox_template "",
  eq_iff t.spec.task_type "",
)

-- An object that was deleted, or was not there.
abbrev pub Gone : Result ApiError (Unit {0}) → Type 0
Gone answer = (answer ≡ ok tt) ⊎ ((x : String) × (answer ≡ err (not_found x)))

-- The result of a reconciliation whose last call, behind a history, deletes the task.
abbrev pub Deleted : Orchestrator → AgentTask → List Call → Result String (Unit {0}) → Type 0
Deleted o t h r =
    let answer = o.cluster.delete_task h t.metadata.namespace t.metadata.name in
    (Gone answer × (r ≡ ok tt)) ⊎ ((e : String) × (answer ≡ err (failure e)) × (r ≢ ok tt))

-- what the reconciliation makes of the answer to the deletion of its task
deletion : Result ApiError (Unit {0}) → Result String (Unit {0})
deletion (ok _) = ok tt
deletion (err (not_found _)) = ok tt
deletion (err (failure e)) = err ("failed to delete completed task: " ++ e)

deletion_cases :
    (answer : Result ApiError (Unit {0})) (r : Result String (Unit {0}))
    → r ≡ deletion answer
    → (Gone answer × (r ≡ ok tt)) ⊎ ((e : String) × (answer ≡ err (failure e)) × (r ≢ ok tt))
unfolding deletion
deletion_cases (ok _) r e = inl (inl refl, e)
deletion_cases (err (not_found x)) r e = inl (inr (x, refl), e)
deletion_cases (err (failure x)) r e = inr (x, refl, λ same. absurd (ground arith))

module _ (o : Orchestrator) (t : AgentTask) (h : List Call) where
  open o use {cluster}

  -- The reconciliation of a started task succeeds, and the task is in `activeTasks` afterwards, so
  -- that reconciling it again does nothing. It does nothing the first time exactly when the task
  -- was in there before.
  reconcile_started_once :
      let (r, h') = reconcile_started o t h in
      (r ≡ ok tt)
      × (is_active t.metadata.name h' ≡ true)
      × (reconcile_started o t h' ≡ (ok tt, h'))
      × ((h' ≡ h) ↔ (is_active t.metadata.name h ≡ true))
  unfolding reconcile_started action is_active
  reconcile_started_once = ground (arith, eq_refl t.metadata.name)

  -- A completed task has its claim deleted first, if it names one. If that fails, otherwise than as
  -- not found, the task is kept: an event says why, no deletion of the task follows, and the
  -- reconciliation fails. If it does not, or if there is no claim, the deletion of the task is the
  -- next and the last call, and the reconciliation succeeds exactly when that one does not fail.
  pub reconcile_completed_order :
      let ns = t.metadata.namespace in
      let claim = t.status.sandbox_claim_name in
      let closing = Call.delete_claim ns claim ∷ h in
      let (r, h') = reconcile_completed o t h in
      ((claim ≡ "") × (h' ≡ Call.delete_task ns t.metadata.name ∷ h) × Deleted o t h r)
      ⊎ ((claim ≢ "")
          × Gone (cluster.delete_claim h ns claim)
          × (h' ≡ Call.delete_task ns t.metadata.name ∷ closing)
          × Deleted o t closing r)
      ⊎ ((claim ≢ "")
          × (e : String) × (cluster.delete_claim h ns claim ≡ err (failure e))
          × (r ≢ ok tt)
          × (h'
              ≡ Call.create_event (
                  event_of t "Warning" "SandboxCloseFailed"
                    ("sandbox: failed to delete claim " ++ claim ++ ": " ++ e))
                ∷ closing))
  unfolding reconcile_completed close_sandbox close sandbox_of get_sandbox record_event action
      deletion
  reconcile_completed_order =
      let ns = t.metadata.namespace in
      let claim = t.status.sandbox_claim_name in
      elim (Bool-cases (claim == "")) [
        | inl free ↦
            inl (ground (arith, eq_iff claim ""), ground arith, deletion_cases _ _ (ground arith))
        | inr bound ↦
            let named : claim ≢ "" = λ e. ground (arith, eq_iff claim "") in
            elim (Result-cases (cluster.delete_claim h ns claim)) [
              | inl (done, e) ↦
                  inr (inl (named, inl e, ground arith, deletion_cases _ _ (ground arith)))
              | inr (not_found x, e) ↦
                  inr (inl (named, inr (x, e), ground arith, deletion_cases _ _ (ground arith)))
              | inr (failure x, e) ↦ inr (inr (named, x, e, ground arith, ground arith))
            ]
      ]

  -- A failed task without a sandbox and with retries left is written as started, with one retry
  -- more, and nothing else is called; the new count is within the limit.
  reconcile_failed_retry :
      t.status.sandbox_claim_name ≡ ""
      → t.status.retries <ℤ pos o.max_retries
      → ((retried t).status.retries ≤ℤ pos o.max_retries)
        × ((retried t).status.state ≡ started)
        × ((reconcile_failed o t h).1 ≡ (update_task_status o (retried t) h).1)
  unfolding reconcile_failed retry_or_give_up record_event retried action
  reconcile_failed_retry free left =
      (ground arith, refl, ground (arith, eq_iff t.status.sandbox_claim_name ""))

  -- A failed task without a sandbox and without retries left is not written any more: the one call
  -- is an event that says that the retries are exhausted.
  reconcile_failed_exhausted :
      t.status.sandbox_claim_name ≡ ""
      → pos o.max_retries ≤ℤ t.status.retries
      → reconcile_failed o t h ≡ (
        ok tt,
        Call.create_event (
              event_of t "Warning" "RetriesExhausted"
                ("Task failed after exhausting " ++ decimal (pos o.max_retries) ++ " retries"))
            ∷ h,
      )
  unfolding reconcile_failed retry_or_give_up record_event retried action
  reconcile_failed_exhausted free spent = ground (arith, eq_iff t.status.sandbox_claim_name "")
