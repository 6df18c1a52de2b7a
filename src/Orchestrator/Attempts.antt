-- ===== src/Orchestrator/Attempts.antt =====
-- One attempt of the submission goroutine (a round of `runSandboxSubmission`,
-- pkg/orchestrator/controller.go), and what is written behind it.
use mathlib.Core.Path.{subst}
use cloud_agent.Common.{
  sym, ℕ, ◌≤◌, String, true, false, ◌≢◌, List, ◌∷◌, ok, err, ◌≡◌, refl, inl, inr, arith, action,
  Result-cases, Adds,
}
use cloud_agent.Api.{AgentTaskState, started, running, AgentTask, Unstructured, to_unstructured}
use cloud_agent.Cluster.{ApiError, Call}
use cloud_agent.Sandbox.Client.{Sandbox, failed, exhausted}
use cloud_agent.Orchestrator.Basic.{Orchestrator, event_of, update_task_status}
use cloud_agent.Orchestrator.Backoff.{Tries, sleep_time_bounds, try_submit_to_sandbox-Emits}
use cloud_agent.Orchestrator.Submission.{
  second, max_backoff, sleep_time, is_started, as_running, try_submit_to_sandbox,
}

pub is_started-started : (s : AgentTaskState) → is_started s ≡ true → s ≡ started
unfolding is_started
is_started-started started e = refl
is_started-started _ e = absurd (ground arith)

pub started-is_started : (s : AgentTaskState) → is_started s ≡ false → s ≢ started
unfolding is_started
started-is_started s other same =
    let begun : is_started s ≡ true = rw (same, is_started) refl in absurd (ground arith)

-- a task that runs in a sandbox
abbrev pub running_in : AgentTask → Sandbox → AgentTask
running_in t s = record t {
  status = record t.status {
    state = running;
    sandbox_claim_name = s.claim_name;
    sandbox_name = s.sandbox_name;
    pod_name = s.pod_name;
  };
}

module _ (o : Orchestrator) (polls : ℕ) where
  open o use {cluster, codec, namespace}

  -- What is written of a task after a submission: its status goes to the status subresource, and
  -- the whole object when that is refused; a task that cannot be converted is not written.
  pub data Recorded (t : AgentTask) (s : Sandbox) (h : List Call) : List Call → Type 0 where
    unwritable : {e : String} → to_unstructured codec (running_in t s) ≡ err e → Recorded t s h h
    written :
        {u v : Unstructured}
        → to_unstructured codec (running_in t s) ≡ ok u
        → cluster.update_status h namespace u ≡ ok v
        → Recorded t s h (Call.update_status namespace u ∷ h)
    rewritten :
        {u : Unstructured} {x : ApiError}
        → to_unstructured codec (running_in t s) ≡ ok u
        → cluster.update_status h namespace u ≡ err x
        → Recorded t s h (Call.update namespace u ∷ Call.update_status namespace u ∷ h)

  pub update_task_status-Recorded :
      (t : AgentTask) (s : Sandbox) (h : List Call)
      → Recorded t s h (update_task_status o (as_running t s) h).1
  unfolding update_task_status as_running action
  update_task_status-Recorded t s h =
      let after : (h' : List Call)
          → Recorded t s h h'
          → (update_task_status o (as_running t s) h).1 ≡ h'
          → Recorded t s h (update_task_status o (as_running t s) h).1 =
        λ h' made same. subst (Recorded t s h) (sym same) made in
      elim (Result-cases (to_unstructured codec (running_in t s))) [
        | inr (e, lost) ↦ after _ (unwritable lost) (ground arith)
        | inl (u, converted) ↦ elim (Result-cases (cluster.update_status h namespace u)) [
          | inl (v, taken) ↦ after _ (written converted taken) (ground arith)
          | inr (x, failing) ↦ after _ (rewritten converted failing) (ground arith)
        ]
      ]

  -- One round for a task, behind a history. It tries to submit the task. While that goes on, that
  -- is all; if it fails, an event says so, and a wait of one to ten seconds follows; if it
  -- succeeds, the task's status is written, as running in the sandbox that it was submitted to.
  pub data Attempt (t : AgentTask) (h : List Call) : List Call → Type 0 where
    unfinished :
        (try_submit_to_sandbox o polls t h).0 ≡ err exhausted
        → Adds Tries h (try_submit_to_sandbox o polls t h).1
        → Attempt t h (try_submit_to_sandbox o polls t h).1
    refused :
        {e : String} {n : ℕ}
        → (try_submit_to_sandbox o polls t h).0 ≡ err (failed e)
        → Adds Tries h (try_submit_to_sandbox o polls t h).1
        → second ≤ n
        → n ≤ max_backoff
        → Attempt t h (
            Call.sleep n
            ∷ Call.create_event (event_of t "Warning" "SandboxSubmissionFailed" e)
            ∷ (try_submit_to_sandbox o polls t h).1)
    accepted :
        {s : Sandbox} {h' : List Call}
        → (try_submit_to_sandbox o polls t h).0 ≡ ok s
        → Adds Tries h (try_submit_to_sandbox o polls t h).1
        → Recorded t s (try_submit_to_sandbox o polls t h).1 h'
        → Attempt t h h'

  -- what an attempt that fails leaves, with the wait behind it
  abbrev pub waited : AgentTask → ℕ → String → List Call → List Call
  waited t backoff e h =
      let noted =
        Call.create_event (event_of t "Warning" "SandboxSubmissionFailed" e)
        ∷ (try_submit_to_sandbox o polls t h).1 in
      Call.sleep (sleep_time backoff (cluster.random_below noted backoff)) ∷ noted

  pub Attempt-waited :
      (t : AgentTask) (backoff : ℕ) (e : String) (h : List Call)
      → second ≤ backoff
      → backoff ≤ max_backoff
      → (try_submit_to_sandbox o polls t h).0 ≡ err (failed e)
      → Attempt t h (waited t backoff e h)
  Attempt-waited t backoff e h low high stopped =
      let (at_least, at_most) = sleep_time_bounds backoff _ high in
      refused stopped ((try_submit_to_sandbox-Emits o polls t).from h)
        (omega (arith, low, at_least)) at_most
