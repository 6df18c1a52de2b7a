-- ===== src/Sandbox/Exiting.antt =====
-- The exit code of the sandbox server's process (pkg/sandbox/http.go), by which the orchestrator
-- (pkg/orchestrator/controller.go) tells what became of a run (pkg/sandbox/server.go).
use mathlib.Core.Path.{subst}
use cloud_agent.Common.{
  ℕ, ◌<◌, ◌%◌, ◌-◌, ℤ, pos, negsuc, String, none, some, Option, List, ◌∷◌, ok, err, Result, ◌≡◌,
  ◌≢◌, ◌⊎◌, inl, inr, refl, sym, ap, ◌∙◌, arith, ◌==◌, action, trim_space, Fails, Fails-pure,
  Fails-raise, Fails-attempt, Fails-map_err, Fails-map_err-call, Fails-if, Fails-bind, Option-cases,
}
use cloud_agent.Cluster.{Call, Command}
use cloud_agent.Api.{AgentTask, AgentTaskState, completed}
use cloud_agent.Cluster.{Pod}
use cloud_agent.Orchestrator.Basic.{Orchestrator}
use cloud_agent.Orchestrator.Reconcile.{reconcile_running}
use cloud_agent.Orchestrator.Running.{
  Exited, Outcome, exit_zero, exit_nonzero, Moved, reconcile_running-Outcome,
}
use cloud_agent.Sandbox.Machine.{Finished, Machine, Failure, failed, fatal}
use cloud_agent.Sandbox.Runner.{
  Runner, execute, git_failure, run_git, clone_failure, clone, configure, read_model, resolve_model,
  agent_failure, invoke_agent, publish, publish_changes, work, report, run, is_pr, exit_code,
}

-- The exit status that a container shows of `os.Exit(code)`.
abbrev pub as_status : ℤ → ℤ
as_status (pos n) = pos (n % 256)
as_status (negsuc n) = pos (255 - n % 256)

-- `ExitError.ExitCode` is documented to be -1 for a signal, and otherwise is the command's status.
abbrev pub IsExitCode : ℤ → Type 0
IsExitCode code = (code ≡ negsuc 0) ⊎ ((n : ℕ) × (code ≡ pos n) × (0 < n) × (n < 256))

as_status_nonzero : (code : ℤ) → IsExitCode code → as_status code ≢ pos 0
as_status_nonzero code (inl signal) e = absurd (ground arith)
as_status_nonzero code (inr (n, same, low, high)) e = absurd (ground arith)

agent_status_nonzero :
    (code : Option ℤ)
    → ((n : ℤ) → code ≡ some n → IsExitCode n)
    → as_status (elim code [ none ↦ pos 1 | some n ↦ n ]) ≢ pos 0
agent_status_nonzero none exits e = absurd (ground arith)
agent_status_nonzero (some n) exits e = as_status_nonzero n (exits n refl) e

-- A failure that the process shows by another status than 0.
abbrev pub Shown : Failure → Type 0
Shown (failed code _) = as_status code ≢ pos 0
Shown (fatal _) = Unit

abbrev ShownAfter : Failure → List Call → Type 0
ShownAfter e _ = Shown e

module _ (m : Machine) (r : Runner) where
  shown_one : as_status (pos 1) ≢ pos 0
  shown_one e = absurd (ground arith)

  execute-Fails :
      (c : Command) (describe : Finished → String → Option ℤ → Failure)
      → ((h : List Call) (e : String) (code : Option ℤ)
          → (m.exec h c).failure ≡ some (e, code)
          → Shown (describe (m.exec h c) e code))
      → Fails ShownAfter (execute m r c describe)
  unfolding execute action
  execute-Fails c describe k = record {
    stops = λ h x failed. elim (Option-cases (m.exec h c).failure) [
      | inl fine ↦ absurd (ground arith)
      | inr ((e, code), broke) ↦
          let same : describe (m.exec h c) e code ≡ x = ground arith in
          rw (sym same) (k h e code broke)
    ];
  }

  run_git-Fails : (arguments : List String) → Fails ShownAfter (run_git m r arguments)
  unfolding run_git git_failure
  run_git-Fails arguments = execute-Fails _ _ λ h e code broke. shown_one

  clone-Fails : Fails ShownAfter (clone m r)
  unfolding clone clone_failure
  clone-Fails =
      Fails-bind _ (Fails-map_err-call _ _ _ λ h x. shown_one)
        λ _. execute-Fails _ _ λ h e code broke. shown_one

  configure-Fails : Fails ShownAfter (configure m r)
  unfolding configure
  configure-Fails =
      Fails-if _ (is_pr m r)
        (λ _. Fails-bind _ (run_git-Fails _) λ _.
          Fails-bind _ (run_git-Fails _) λ _. Fails-bind _ (run_git-Fails _) λ _. Fails-pure _ tt)
        λ _. Fails-pure _ tt

  read_model-Fails : (path : String) → Fails ShownAfter (read_model m r path)
  unfolding read_model
  read_model-Fails path = Fails-bind _ (Fails-attempt _ _) λ _. Fails-pure _ _

  resolve_model-Fails : Fails ShownAfter (resolve_model m r)
  unfolding resolve_model
  resolve_model-Fails =
      Fails-bind _ (Fails-if _ (is_pr m r) (λ _. read_model-Fails _) λ _. Fails-pure _ _)
        λ model. Fails-if _ (model == "") (λ _. read_model-Fails _) λ _. Fails-pure _ _

  publish-Fails : Fails ShownAfter (publish m r)
  unfolding publish publish_changes
  publish-Fails = Fails-bind _ (run_git-Fails _) λ changes.
      Fails-if _ (trim_space changes == "") (λ _. Fails-raise _ λ h. shown_one)
        λ _. Fails-bind _ (run_git-Fails _) λ _. Fails-bind _ (run_git-Fails _) λ _.
          Fails-bind _ (run_git-Fails _) λ _.
            Fails-bind _ (Fails-map_err-call _ _ _ λ h x. shown_one) λ base.
              Fails-bind _ (Fails-map_err-call _ _ _ λ h x. shown_one) λ number. Fails-pure _ _

  module _
      (exits : (h : List Call) (c : Command) (e : String) (code : ℤ)
        → (m.exec h c).failure ≡ some (e, some code)
        → IsExitCode code) where
    invoke_agent-Fails : Fails ShownAfter (invoke_agent m r)
    unfolding invoke_agent agent_failure
    invoke_agent-Fails =
        Fails-if _ (m.cluster.getenv "AGENT_BIN" == "") (λ _. Fails-raise _ λ h. tt)
          λ _. Fails-bind _ resolve_model-Fails λ model.
            Fails-bind _
              (execute-Fails _ _ λ h e code broke.
                agent_status_nonzero code
                  λ n same. exits h _ e n (broke ∙ ap (λ c. some (e, c)) same))
              λ output. Fails-pure _ _

    run-Fails : Fails ShownAfter (run m r)
    unfolding run work report
    run-Fails =
        Fails-bind _
          (Fails-bind _ clone-Fails λ _. Fails-bind _ configure-Fails λ _.
            Fails-bind _ invoke_agent-Fails
              λ response. Fails-if _ (is_pr m r) (λ _. publish-Fails) λ _. Fails-pure _ _)
          λ response. Fails-map_err _ _ _ λ h x. shown_one

    status-Shown :
        (result : Result Failure (Unit {0})) (code : ℤ) (pod : Pod)
        → ((e : Failure) → result ≡ err e → Shown e)
        → exit_code m.cluster.getenv result ≡ some code
        → Exited (as_status code) pod.container_statuses
        → ((result ≡ ok tt) × Outcome pod completed)
          ⊎ ((e : Failure) × (result ≡ err e) × Outcome pod AgentTaskState.failed)
    unfolding exit_code
    status-Shown (ok _) code pod shows exit exited =
        let zero_code : code ≡ pos 0 = ground arith in
        inl (
          refl,
          exit_zero (subst (λ c. Exited (as_status c) pod.container_statuses) zero_code exited),
        )
    status-Shown (err (fatal text)) code pod shows exit exited =
        let one : pos 1 ≡ code = ground arith in
        inr (fatal text, refl, exit_nonzero (as_status code) (rw (sym one) shown_one) exited)
    status-Shown (err (failed n text)) code pod shows exit exited =
        let same : n ≡ code = ground arith in
        inr (
          failed n text,
          refl,
          exit_nonzero (as_status code) (rw (sym same) (shows (failed n text) refl)) exited,
        )

    -- With the documented exit codes of commands: when the process of a run has exited, and the
    -- first container of the pod that has exited shows that status, then the reconciliation of the
    -- running task moves it to completed if the run succeeded, and to failed if it failed, as
    -- `Moved` says.
    pub run-Moved :
        (h : List Call) (code : ℤ)
        → exit_code m.cluster.getenv (run m r h).0 ≡ some code
        → (o : Orchestrator) (t : AgentTask) (pod : Pod) (past : List Call) → t.status.pod_name ≢ ""
        → o.cluster.get_pod past o.namespace t.status.pod_name ≡ ok pod
        → Exited (as_status code) pod.container_statuses
        → let seen = Call.get_pod o.namespace t.status.pod_name ∷ past in
          (((run m r h).0 ≡ ok tt) × Moved o t completed seen (reconcile_running o t past))
          ⊎ ((e : Failure) × ((run m r h).0 ≡ err e)
              × Moved o t AgentTaskState.failed seen (reconcile_running o t past))
    run-Moved h code exit o t pod past named got exited =
        elim (status-Shown (run m r h).0 code pod (run-Fails.stops h) exit exited) [
          | inl (done, decided) ↦
              inl (done, reconcile_running-Outcome o t past pod completed named got decided)
          | inr (e, broke, decided) ↦ inr (
            e,
            broke,
            reconcile_running-Outcome o t past pod AgentTaskState.failed named got decided,
          )
        ]
