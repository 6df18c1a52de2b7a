-- ===== src/Sandbox/ExitExamples.antt =====
-- A run that fails, its exit code, and the task's fate.
use cloud_agent.Common.{
  pos, ℤ, String, none, some, List, [], ◌∷◌, ok, err, ◌≡◌, ◌⊎◌, inr, refl, arith, ne_empty,
}
use cloud_agent.Api.{AgentTask, AgentTaskState, running, completed}
use cloud_agent.Cluster.{Call, Command, Pod}
use cloud_agent.Samples.{task_in, stored, waiting_pod, cluster_with, orchestrator_on}
use cloud_agent.Orchestrator.Basic.{Orchestrator}
use cloud_agent.Orchestrator.Reconcile.{reconcile_running}
use cloud_agent.Orchestrator.Running.{Exited.first, Exited.later, Moved}
use cloud_agent.Sandbox.Machine.{Failure}
use cloud_agent.Sandbox.Runner.{run, exit_code}
use cloud_agent.Sandbox.Exiting.{IsExitCode, run-Moved}
use cloud_agent.Sandbox.RunnerExamples.{broken, runner_of, run_broken}

-- every command on the broken machine exits with 128
exits :
    (h : List Call) (c : Command) (e : String) (code : ℤ)
    → (broken.exec h c).failure ≡ some (e, some code)
    → IsExitCode code
exits h c e code broke = let same : code ≡ pos 128 = cc in inr (128, same, omega arith, omega arith)

exited : exit_code broken.cluster.getenv (run broken (runner_of "pr") []).0 ≡ some (pos 1)
unfolding exit_code
exited = rw run_broken refl

abbrev task : AgentTask
task = task_in running "claim-1" "pod-1"

abbrev pod : Pod
pod = record waiting_pod { container_statuses = none ∷ some (pos 1) ∷ [] }

abbrev o : Orchestrator
o = orchestrator_on (cluster_with (stored task) (ok pod) (ok tt))

run-Moved_example :
    let seen = Call.get_pod "agents" "pod-1" ∷ [] in
    (((run broken (runner_of "pr") []).0 ≡ ok tt)
      × Moved o task completed seen (reconcile_running o task []))
    ⊎ ((e : Failure) × ((run broken (runner_of "pr") []).0 ≡ err e)
        × Moved o task AgentTaskState.failed seen (reconcile_running o task []))
run-Moved_example =
    run-Moved broken (runner_of "pr") exits [] (pos 1) exited o task pod [] (ne_empty _ refl) refl
      (later first)
