-- ===== src/Orchestrator/Submitting.antt =====
-- What the submission goroutine (`runSandboxSubmission` of pkg/orchestrator/controller.go) does to
-- the outside, told from the tasks that it reads.
use mathlib.Core.Path.{subst}
use cloud_agent.Common.{
  sym, ℕ, zero, suc, ◌≤◌, String, ◌≢◌, List, ◌∷◌, ok, err, ◌≡◌, inl, inr, arith, action,
  Result-cases, Bool-cases, Keeps, Keeps-pure, Keeps-asks, Keeps-tell, Keeps-if, Keeps-bind,
}
use cloud_agent.Api.{started, AgentTask, Unstructured, from_unstructured}
use cloud_agent.Cluster.{ApiError, Call}
use cloud_agent.Sandbox.Client.{failed, exhausted}
use cloud_agent.Orchestrator.Basic.{Orchestrator, record_event}
use cloud_agent.Orchestrator.Backoff.{next_backoff_bounds, try_submit_to_sandbox-Emits}
use cloud_agent.Orchestrator.Submission.{
  second, max_backoff, next_backoff, is_started, try_submit_to_sandbox, submission_loop,
  run_sandbox_submission,
}
use cloud_agent.Orchestrator.Attempts.{
  is_started-started, started-is_started, update_task_status-Recorded, Attempt, unfinished,
  accepted, waited, Attempt-waited,
}

module _ (o : Orchestrator) (polls : ℕ) where
  open o use {cluster, codec, namespace}

  -- The calls of the goroutine for a task's name: it reads the task, and attempts a submission just
  -- when it reads it as started; and it leaves `activeTasks`.
  pub data Submissions (name : String) (h : List Call) : List Call → Type 0 where
    begun : Submissions name h h
    missed :
        {g : List Call} {x : ApiError}
        → Submissions name h g
        → cluster.get_task g namespace name ≡ err x
        → Submissions name h (Call.get_task namespace name ∷ g)
    unparsed :
        {g : List Call} {u : Unstructured} {e : String}
        → Submissions name h g
        → cluster.get_task g namespace name ≡ ok u
        → from_unstructured codec u ≡ err e
        → Submissions name h (Call.get_task namespace name ∷ g)
    moved_on :
        {g : List Call} {u : Unstructured} {t : AgentTask}
        → Submissions name h g
        → cluster.get_task g namespace name ≡ ok u
        → from_unstructured codec u ≡ ok t
        → t.status.state ≢ started
        → Submissions name h (Call.get_task namespace name ∷ g)
    attempted :
        {g h' : List Call} {u : Unstructured} {t : AgentTask}
        → Submissions name h g
        → cluster.get_task g namespace name ≡ ok u
        → from_unstructured codec u ≡ ok t
        → t.status.state ≡ started
        → Attempt o polls t (Call.get_task namespace name ∷ g) h'
        → Submissions name h h'
    left : {g : List Call} → Submissions name h g → Submissions name h (Call.deactivate name ∷ g)

  module _ (name : String) (h : List Call) where
    submission_loop-Keeps :
        (rounds backoff : ℕ) (g : List Call)
        → second ≤ backoff
        → backoff ≤ max_backoff
        → Submissions name h g
        → Submissions name h (submission_loop o polls rounds backoff name g).1
    unfolding submission_loop record_event action
    submission_loop-Keeps zero backoff g low high before = before
    submission_loop-Keeps (suc rounds) backoff g low high before =
        let looking = Call.get_task namespace name ∷ g in
        let after : (h' : List Call)
            → Submissions name h h'
            → (submission_loop o polls (suc rounds) backoff name g).1 ≡ h'
            → Submissions name h (submission_loop o polls (suc rounds) backoff name g).1 =
          λ h' made same. subst (Submissions name h) (sym same) made in
        elim (Bool-cases (cluster.done g)) [
          | inl over ↦ after _ before (ground arith)
          | inr going ↦ elim (Result-cases (cluster.get_task g namespace name)) [
            | inr (x, lost) ↦ after _ (missed before lost) (ground arith)
            | inl (u, got) ↦ elim (Result-cases (from_unstructured codec u)) [
              | inr (x, unread) ↦ after _ (unparsed before got unread) (ground arith)
              | inl (t, read) ↦ elim (Bool-cases (is_started t.status.state)) [
                | inr other ↦
                    after _ (moved_on before got read (started-is_started t.status.state other))
                      (ground arith)
                | inl ready ↦
                    let tried = (try_submit_to_sandbox-Emits o polls t).from looking in
                    let found = is_started-started t.status.state ready in
                    elim (Result-cases (try_submit_to_sandbox o polls t looking).0) [
                      | inl (s, taken) ↦
                          after _
                            (attempted before got read found
                              (accepted taken tried (update_task_status-Recorded o polls t s _)))
                            (ground arith)
                      | inr (exhausted, stopped) ↦
                          after _ (attempted before got read found (unfinished stopped tried))
                            (ground arith)
                      | inr (failed e, stopped) ↦
                          let slept = waited o polls t backoff e looking in
                          let made : Submissions name h slept =
                            attempted before got read found
                              (Attempt-waited o polls t backoff e looking low high stopped) in
                          let (low', high') = next_backoff_bounds backoff low in
                          elim (Bool-cases (cluster.done slept)) [
                            | inl over ↦ after _ made (ground arith)
                            | inr on ↦
                                after _
                                  (submission_loop-Keeps rounds (next_backoff backoff) slept low'
                                    high' made)
                                  (ground arith)
                          ]
                    ]
              ]
            ]
          ]
        ]

-- However long the goroutine runs, and however it ends, its calls are those of `Submissions`:
-- behind each read of the task it attempts a submission exactly when the task was read as started,
-- and it writes a status only for that task, after the submission has succeeded, as running in the
-- sandbox that it was submitted to. An attempt that fails leaves the task's status, and with it the
-- count of its retries, as it is: it records an event and waits between one and ten seconds.
pub run_sandbox_submission-Submissions :
    (o : Orchestrator) (polls rounds : ℕ) (name : String) (h : List Call)
    → Submissions o polls name h (run_sandbox_submission o polls rounds name h).1
unfolding run_sandbox_submission
run_sandbox_submission-Submissions o polls rounds name h = whole.keeps h begun
  where
    whole : Keeps (Submissions o polls name h) (run_sandbox_submission o polls rounds name)
    whole =
        Keeps-bind _
          (record {
            keeps = λ g before.
                submission_loop-Keeps o polls name h rounds second g (omega arith) (omega arith)
                  before;
          })
          λ _. Keeps-bind _ (Keeps-asks _ _) λ active.
            Keeps-if _ active (λ _. Keeps-tell _ λ g before. left before) λ _. Keeps-pure _ tt
