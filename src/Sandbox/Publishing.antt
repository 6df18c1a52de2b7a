-- ===== src/Sandbox/Publishing.antt =====
-- What the runner (pkg/sandbox/server.go) does for a task that is answered, and for one that makes
-- changes.
use Prim.Native.String.{◌++◌}
use cloud_agent.Common.{
  String, false, List, ◌∷◌, [], ◌≡◌, refl, ◌⊎◌, inl, inr, arith, Adds, Emits, Emits-pure,
  Emits-call, Emits-if, Emits-bind, Emits-map_err,
}
use cloud_agent.Cluster.{Call, Command}
use cloud_agent.Sandbox.Machine.{Machine}
use cloud_agent.Sandbox.Runner.{
  Runner, workspace_dir, clone_url, branch_name, github_access, clone, configure, work, is_pr,
}
use cloud_agent.Sandbox.Working.{execute-Emits, invoke_agent-Emits}

module _ (m : Machine) (r : Runner) where
  open m use {cluster}

  abbrev pub clone_command : Command
  clone_command = record {
    program = "git";
    arguments = "clone" ∷ clone_url m r ∷ workspace_dir m r ∷ [];
    directory = "";
  }

  abbrev pub git_command : List String → Command
  git_command arguments = record {
    program = "git";
    arguments = arguments;
    directory = workspace_dir m r;
  }

  -- The calls of a task that is only answered: a clone, the models' files, and the coding agent.
  abbrev pub Answers : Call → Type 0
  Answers (Call.make_dir _) = Unit
  Answers (Call.read_file _) = Unit
  Answers (Call.exec c) = (c ≡ clone_command) ⊎ (c.program ≡ cluster.getenv "AGENT_BIN")
  Answers _ = ⊥

  -- The work on a task of another type than "pr" makes the workspace directory, reads files and
  -- runs two kinds of command only, the clone and the coding agent: there is no other git command,
  -- and no call of GitHub's API.
  pub work-Answers : is_pr m r ≡ false → (h : List Call) → Adds Answers h (work m r h).1
  unfolding work clone configure
  work-Answers answered h = whole.from h
    where
      whole : Emits Answers (work m r)
      whole =
          Emits-bind _
            (Emits-bind _ (Emits-map_err _ _ (Emits-call _ _ tt))
              λ _. execute-Emits m r Answers _ _ (inl refl))
            λ _.
              Emits-bind _
                (Emits-if _ (is_pr m r) (λ pr. absurd (ground arith)) λ _. Emits-pure _ tt)
                λ _.
                  Emits-bind _ (invoke_agent-Emits m r Answers (λ _. tt) λ _ e. inr e) λ response.
                    Emits-if _ (is_pr m r) (λ pr. absurd (ground arith)) λ _. Emits-pure _ _

  abbrev pub add_command : Command
  add_command = git_command ("add" ∷ "-A" ∷ [])

  abbrev pub commit_command : Command
  commit_command =
      git_command
        ("commit" ∷ "-m" ∷ ("cloud-agent: automated commit for task " ++ r.task_name) ∷ [])

  abbrev pub push_command : Command
  push_command = git_command ("push" ∷ "-f" ∷ "origin" ∷ branch_name m r ∷ [])

  abbrev pub pushed : List Call → List Call
  pushed h = Call.exec push_command ∷ Call.exec commit_command ∷ Call.exec add_command ∷ h

  abbrev pub looked_up : List Call → List Call
  looked_up h = Call.get_repository (github_access m r) r.repo_owner r.repo_name ∷ pushed h
