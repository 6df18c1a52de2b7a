-- ===== src/Sandbox/Working.antt =====
-- Which calls the work of the runner (pkg/sandbox/server.go) makes.
use cloud_agent.Common.{
  ℤ, String, none, some, Option, List, ◌==◌, ◌≡◌, refl, pure, raise, Emits, Emits-pure, Emits-raise,
  Emits-call, Emits-attempt, Emits-if, Emits-bind, Emits-map_err, trim_space,
}
use cloud_agent.Cluster.{Call, Command}
use cloud_agent.Sandbox.Machine.{Finished, Machine, Failure}
use cloud_agent.Sandbox.Runner.{
  Runner, execute, run_git, clone, configure, read_model, resolve_model, invoke_agent, publish,
  publish_changes, work, report, is_pr,
}

-- What the steps of the work add, for any predicate that allows their calls.
module _ (m : Machine) (r : Runner) (P : Call → Type 0) where
  open m use {cluster}

  pub execute-Emits :
      (c : Command) (report : Finished → String → Option ℤ → Failure)
      → P (Call.exec c)
      → Emits P (execute m r c report)
  unfolding execute
  execute-Emits c report allowed =
      Emits-bind _ (Emits-call _ _ allowed) λ done. outcome done done.failure
    where
      outcome :
          (done : Finished) (f : Option (String × Option ℤ))
          → Emits P (elim f [
            | none ↦ pure {E = Failure} done.stdout
            | some (e, code) ↦ raise (report done e code)
          ])
      outcome done none = Emits-pure _ _
      outcome done (some (e, code)) = Emits-raise _ _

  module _ (reads : (path : String) → P (Call.read_file path)) where
    read_model-Emits : (path : String) → Emits P (read_model m r path)
    unfolding read_model
    read_model-Emits path =
        Emits-bind _ (Emits-attempt _ (Emits-call _ _ (reads path))) λ _. Emits-pure _ _

    resolve_model-Emits : Emits P (resolve_model m r)
    unfolding resolve_model
    resolve_model-Emits =
        Emits-bind _ (Emits-if _ (is_pr m r) (λ _. read_model-Emits _) λ _. Emits-pure _ _)
          λ model. Emits-if _ (model == "") (λ _. read_model-Emits _) λ _. Emits-pure _ _

    pub invoke_agent-Emits :
        ((c : Command) → c.program ≡ cluster.getenv "AGENT_BIN" → P (Call.exec c))
        → Emits P (invoke_agent m r)
    unfolding invoke_agent
    invoke_agent-Emits runs =
        Emits-if _ (cluster.getenv "AGENT_BIN" == "") (λ _. Emits-raise _ _)
          λ _.
            Emits-bind _ resolve_model-Emits
              λ model. Emits-bind _ (execute-Emits _ _ (runs _ refl)) λ output. Emits-pure _ _

-- The calls of the work: files, commands and GitHub's API.
abbrev pub Works : Call → Type 0
Works (Call.make_dir _) = Unit
Works (Call.read_file _) = Unit
Works (Call.exec _) = Unit
Works (Call.get_repository _ _ _) = Unit
Works (Call.create_pull _ _ _ _) = Unit
Works _ = ⊥

module _ (m : Machine) (r : Runner) where
  run_git-Works : (arguments : List String) → Emits Works (run_git m r arguments)
  unfolding run_git
  run_git-Works arguments = execute-Emits m r Works _ _ tt

  clone-Works : Emits Works (clone m r)
  unfolding clone
  clone-Works =
      Emits-bind _ (Emits-map_err _ _ (Emits-call _ _ tt)) λ _. execute-Emits m r Works _ _ tt

  configure-Works : Emits Works (configure m r)
  unfolding configure
  configure-Works =
      Emits-if _ (is_pr m r)
        (λ _. Emits-bind _ (run_git-Works _) λ _.
          Emits-bind _ (run_git-Works _) λ _. Emits-bind _ (run_git-Works _) λ _. Emits-pure _ tt)
        λ _. Emits-pure _ tt

  invoke_agent-Works : Emits Works (invoke_agent m r)
  invoke_agent-Works = invoke_agent-Emits m r Works (λ _. tt) λ _ _. tt

  publish-Works : Emits Works (publish m r)
  unfolding publish publish_changes
  publish-Works = Emits-bind _ (run_git-Works _) λ changes.
      Emits-if _ (trim_space changes == "") (λ _. Emits-raise _ _)
        λ _. Emits-bind _ (run_git-Works _) λ _. Emits-bind _ (run_git-Works _) λ _.
          Emits-bind _ (run_git-Works _) λ _.
            Emits-bind _ (Emits-map_err _ _ (Emits-call _ _ tt))
              λ base. Emits-bind _ (Emits-map_err _ _ (Emits-call _ _ tt)) λ number. Emits-pure _ _

  pub work-Works : Emits Works (work m r)
  unfolding work
  work-Works = Emits-bind _ clone-Works λ _. Emits-bind _ configure-Works λ _.
      Emits-bind _ invoke_agent-Works
        λ response. Emits-if _ (is_pr m r) (λ _. publish-Works) λ _. Emits-pure _ _
