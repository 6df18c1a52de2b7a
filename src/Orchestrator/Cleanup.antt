-- ===== src/Orchestrator/Cleanup.antt =====
-- What is left behind by a failed submission, and how the goroutine ends.
use Prim.Native.String.{◌++◌}
use mathlib.Core.Path.{subst}
use cloud_agent.Common.{
  sym, ℕ, zero, suc, ◌+◌, ◌≤◌, ◌<◌, leb, String, true, false, List, ◌∷◌, ok, err, ◌≡◌, ◌≢◌, inl,
  inr, arith, action, length, Result-cases, Bool-cases, Adds, Adds-length, eq_iff, eq_refl,
}
use cloud_agent.Api.{started, AgentTask, Unstructured, from_unstructured}
use cloud_agent.Cluster.{SandboxObject, Call}
use cloud_agent.Sandbox.Client.{
  Sandbox, failed, exhausted, pod_name_of, create_sandbox, close, submit_task,
}
use cloud_agent.Sandbox.Calls.{Sends, submit_task-Emits}
use cloud_agent.Sandbox.Settling.{create_sandbox_settles}
use cloud_agent.Webhook.Tokens.{TokenResponse}
use cloud_agent.Webhook.Client.{generate_tokens}
use cloud_agent.Orchestrator.Basic.{Orchestrator, is_active, event_of, record_event}
use cloud_agent.Orchestrator.Backoff.{try_submit_to_sandbox-Emits}
use cloud_agent.Orchestrator.Attempts.{is_started-started}
use cloud_agent.Orchestrator.Submission.{
  second, sleep_time, next_backoff, is_started, task_request, try_submit_to_sandbox,
  submission_loop, run_sandbox_submission,
}

module _ (o : Orchestrator) (polls : ℕ) (t : AgentTask) (h : List Call) where
  open o use {cluster, sandbox_url, namespace, webhook_client}

  -- A submission that has its sandbox and cannot get its tokens fails, and the deletion of the
  -- claim is its last call.
  try_submit_to_sandbox_tokens :
      (s : Sandbox) (h' : List Call) (e : String)
      → create_sandbox cluster polls sandbox_url t.spec.sandbox_template namespace h ≡ (ok s, h')
      → s.claim_name ≢ ""
      → (generate_tokens cluster webhook_client t.metadata.name h').0 ≡ err e
      → try_submit_to_sandbox o polls t h ≡ (
        err (failed ("failed to generate tokens: " ++ e)),
        Call.delete_claim s.namespace s.claim_name
            ∷ (generate_tokens cluster webhook_client t.metadata.name h').1,
      )
  unfolding try_submit_to_sandbox close action
  try_submit_to_sandbox_tokens s h' e created claimed refused =
      ground (arith, eq_iff s.claim_name "")

  -- A submission that has its sandbox and its tokens, and whose request the sandbox server does not
  -- take, fails and deletes no claim: nothing but requests follows the tokens, so the claim is
  -- left.
  pub try_submit_to_sandbox_leaks :
      (s : Sandbox) (h' : List Call) (granted : TokenResponse) (e : String)
      → create_sandbox cluster polls sandbox_url t.spec.sandbox_template namespace h ≡ (ok s, h')
      → let tokens = generate_tokens cluster webhook_client t.metadata.name h' in
        tokens.0 ≡ ok granted
        → (submit_task cluster s (task_request t granted) tokens.1).0 ≡ err e
        → ((try_submit_to_sandbox o polls t h).0
            ≡ err (failed ("failed to execute task inside sandbox: " ++ e)))
          × Adds Sends tokens.1 (try_submit_to_sandbox o polls t h).1
  unfolding try_submit_to_sandbox action
  try_submit_to_sandbox_leaks s h' granted e created issued rejected =
      let tokens = generate_tokens cluster webhook_client t.metadata.name h' in
      let request = task_request t granted in
      let same : (try_submit_to_sandbox o polls t h).1
          ≡ (submit_task cluster s request tokens.1).1 =
        ground arith in
      (
        ground arith,
        subst (Adds Sends tokens.1) (sym same)
            ((submit_task-Emits cluster s request).from tokens.1),
      )

-- Once `deadline` calls have been made, a claim that is found has a sandbox, a sandbox that is
-- found is ready, and the task of the given name is not read as started.
module _ (o : Orchestrator) (deadline : ℕ)
    (named : (h : List Call) (ns claim : String)
      → deadline ≤ length h
      → o.cluster.get_claim h ns claim ≢ ok "")
    (ready : (h : List Call) (ns sandbox : String) (object : SandboxObject)
      → deadline ≤ length h
      → o.cluster.get_sandbox h ns sandbox ≡ ok object
      → pod_name_of object ≢ "")
    (name : String)
    (moved : (h : List Call) (u : Unstructured) (task : AgentTask)
      → deadline ≤ length h
      → o.cluster.get_task h o.namespace name ≡ ok u
      → from_unstructured o.codec u ≡ ok task
      → task.status.state ≢ started)
    (polls : ℕ) (patient : deadline < polls) where
  open o use {cluster, codec, sandbox_url, namespace}

  lt_of_started :
      (h : List Call) {u : Unstructured} {task : AgentTask}
      → cluster.get_task h namespace name ≡ ok u
      → from_unstructured codec u ≡ ok task
      → is_started task.status.state ≡ true
      → length h < deadline
  lt_of_started h got read begun = elim (Bool-cases (leb deadline (length h))) [
    | inl late ↦ absurd (moved h _ _ (ground arith) got read (is_started-started _ begun))
    | inr early ↦ ground arith
  ]

  try_submit_to_sandbox_ends :
      (t : AgentTask) (h : List Call) → (try_submit_to_sandbox o polls t h).0 ≢ err exhausted
  unfolding try_submit_to_sandbox close action
  try_submit_to_sandbox_ends t h = ground (
    arith,
    create_sandbox_settles cluster deadline named ready polls sandbox_url t.spec.sandbox_template
        namespace h patient,
  )

  submission_loop_ends :
      (rounds backoff : ℕ) (h : List Call)
      → 0 < rounds
      → deadline < rounds + length h
      → (submission_loop o polls rounds backoff name h).0 ≡ ok tt
  unfolding submission_loop record_event action
  submission_loop_ends zero backoff h some_fuel enough = absurd (omega arith)
  submission_loop_ends (suc rounds) backoff h some_fuel enough =
      let looked = Call.get_task namespace name ∷ h in
      elim (Bool-cases (cluster.done h)) [
        | inl over ↦ ground arith
        | inr going ↦ elim (Result-cases (cluster.get_task h namespace name)) [
          | inr (x, lost) ↦ ground arith
          | inl (u, got) ↦ elim (Result-cases (from_unstructured codec u)) [
            | inr (x, unread) ↦ ground arith
            | inl (task, read) ↦ elim (Bool-cases (is_started task.status.state)) [
              | inr other ↦ ground arith
              | inl begun ↦ elim (Result-cases (try_submit_to_sandbox o polls task looked).0) [
                | inl (s, accepted) ↦ ground arith
                | inr (exhausted, stopped) ↦ absurd (try_submit_to_sandbox_ends task looked stopped)
                | inr (failed e, stopped) ↦
                    let tried = (try_submit_to_sandbox o polls task looked).1 in
                    let noted =
                      Call.create_event (event_of task "Warning" "SandboxSubmissionFailed" e)
                      ∷ tried in
                    let slept =
                      Call.sleep (sleep_time backoff (cluster.random_below noted backoff))
                      ∷ noted in
                    let early = lt_of_started h got read begun in
                    let grown =
                      Adds-length ((try_submit_to_sandbox-Emits o polls task).from looked) in
                    ground (
                      arith,
                      submission_loop_ends rounds (next_backoff backoff) slept (omega arith)
                          (omega arith),
                    )
              ]
            ]
          ]
        ]
      ]

-- If, once `deadline` calls have been made, every claim that is found has its sandbox, every
-- sandbox that is found is ready, and the task is not found as started any more (because it has
-- been written otherwise, or deleted), then with rounds and polls above the deadline the goroutine
-- returns, even when its context is never done and every submission fails, and the task is no
-- longer in `activeTasks`: it can be submitted again.
pub run_sandbox_submission_returns :
    (o : Orchestrator) (deadline : ℕ)
    → ((h : List Call) (ns claim : String)
        → deadline ≤ length h
        → o.cluster.get_claim h ns claim ≢ ok "")
    → ((h : List Call) (ns sandbox : String) (object : SandboxObject)
        → deadline ≤ length h
        → o.cluster.get_sandbox h ns sandbox ≡ ok object
        → pod_name_of object ≢ "")
    → (name : String)
    → ((h : List Call) (u : Unstructured) (task : AgentTask)
        → deadline ≤ length h
        → o.cluster.get_task h o.namespace name ≡ ok u
        → from_unstructured o.codec u ≡ ok task
        → task.status.state ≢ started)
    → (polls rounds : ℕ) (h : List Call) → deadline < polls
    → deadline < rounds
    → let (r, h') = run_sandbox_submission o polls rounds name h in
      (r ≡ ok tt) × (is_active name h' ≡ false)
unfolding run_sandbox_submission is_active action
run_sandbox_submission_returns o deadline named ready name moved polls rounds h patient enough =
    ground (
      arith,
      eq_refl name,
      submission_loop_ends o deadline named ready name moved polls patient rounds second h
          (omega arith) (omega arith),
    )
