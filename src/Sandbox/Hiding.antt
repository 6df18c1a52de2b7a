-- ===== src/Sandbox/Hiding.antt =====
-- The errors of the runner (pkg/sandbox/server.go) do not give away the GitHub token.
use cloud_agent.Common.{
  pos, Fails-attempt, ℤ, String, true, false, none, some, Option, List, ◌∷◌, [], err, ◌≡◌, ◌≢◌,
  arith, ◌==◌, eq_iff, contains, starless, contains-replace_all, Fails, Fails-pure, Fails-raise,
  Fails-call-ok, Fails-map_err-call, Fails-if, Fails-bind, trim_space, pure, raise,
}
use cloud_agent.Cluster.{Call, Command}
use cloud_agent.Sandbox.Machine.{Finished, Machine, Failure, failed, sanitize_error}
use cloud_agent.Sandbox.Runner.{
  Runner, execute, git_failure, run_git, clone_failure, clone, configure, read_model, resolve_model,
  agent_failure, invoke_agent, publish, publish_changes, work, is_pr,
}

-- Without its token, if it has one with no "*" in it, is what `sanitizeError` makes of an error.
pub contains-sanitize_error :
    (message token : String)
    → token ≢ ""
    → starless token ≡ true
    → contains (sanitize_error message token) token ≡ false
unfolding sanitize_error
contains-sanitize_error message token given free =
    ground (arith, eq_iff token "", contains-replace_all message token free given)

-- The text of a failure whose last call was a command is without the token.
abbrev pub Hides : String → Failure → List Call → Type 0
Hides token (failed _ message) (Call.exec _ ∷ h) = contains message token ≡ false
Hides token _ _ = Unit

Hides-failed :
    (token : String) (code : ℤ) (message : String) (h : List Call)
    → contains message token ≡ false
    → Hides token (failed code message) h
Hides-failed token code message [] e = tt
Hides-failed token code message (Call.exec _ ∷ h) e = e
Hides-failed token code message (_ ∷ h) e = tt

module _ (m : Machine) (r : Runner) (given : r.github_token ≢ "")
    (free : starless r.github_token ≡ true) where
  sanitized :
      (code : ℤ) (message : String) (h : List Call)
      → Hides r.github_token (failed code (sanitize_error message r.github_token)) h
  sanitized code message h =
      Hides-failed r.github_token code _ h
        (contains-sanitize_error message r.github_token given free)

  execute-Fails :
      (c : Command) (report : Finished → String → Option ℤ → Failure)
      → ((done : Finished) (e : String) (code : Option ℤ) (h : List Call)
          → Hides r.github_token (report done e code) h)
      → Fails (Hides r.github_token) (execute m r c report)
  unfolding execute
  execute-Fails c report k = Fails-bind _ (Fails-call-ok _ _ _) λ done. outcome done done.failure
    where
      outcome :
          (done : Finished) (f : Option (String × Option ℤ))
          → Fails (Hides r.github_token) (elim f [
            | none ↦ pure {E = Failure} done.stdout
            | some (e, code) ↦ raise (report done e code)
          ])
      outcome done none = Fails-pure _ _
      outcome done (some (e, code)) = Fails-raise _ (k done e code)

  run_git-Fails : (arguments : List String) → Fails (Hides r.github_token) (run_git m r arguments)
  unfolding run_git git_failure
  run_git-Fails arguments = execute-Fails _ _ λ done e code h. sanitized (pos 1) _ h

  clone-Fails : Fails (Hides r.github_token) (clone m r)
  unfolding clone clone_failure
  clone-Fails =
      Fails-bind _ (Fails-map_err-call _ _ _ λ h x. tt)
        λ _. execute-Fails _ _ λ done e code h. sanitized (pos 1) _ h

  configure-Fails : Fails (Hides r.github_token) (configure m r)
  unfolding configure
  configure-Fails =
      Fails-if _ (is_pr m r)
        (λ _. Fails-bind _ (run_git-Fails _) λ _.
          Fails-bind _ (run_git-Fails _) λ _. Fails-bind _ (run_git-Fails _) λ _. Fails-pure _ tt)
        λ _. Fails-pure _ tt

  read_model-Fails : (path : String) → Fails (Hides r.github_token) (read_model m r path)
  unfolding read_model
  read_model-Fails path = Fails-bind _ (Fails-attempt _ _) λ _. Fails-pure _ _

  resolve_model-Fails : Fails (Hides r.github_token) (resolve_model m r)
  unfolding resolve_model
  resolve_model-Fails =
      Fails-bind _ (Fails-if _ (is_pr m r) (λ _. read_model-Fails _) λ _. Fails-pure _ _)
        λ model. Fails-if _ (model == "") (λ _. read_model-Fails _) λ _. Fails-pure _ _

  invoke_agent-Fails : Fails (Hides r.github_token) (invoke_agent m r)
  unfolding invoke_agent agent_failure
  invoke_agent-Fails =
      Fails-if _ (m.cluster.getenv "AGENT_BIN" == "") (λ _. Fails-raise _ λ h. tt)
        λ _. Fails-bind _ resolve_model-Fails λ model.
          Fails-bind _
            (execute-Fails _ _
              λ done e code h. sanitized (elim code [ none ↦ pos 1 | some n ↦ n ]) _ h)
            λ output. Fails-pure _ _

  -- the message that no command has a part in
  module _
      (plain : contains "failed to make any changes to the repository" r.github_token ≡ false) where
    publish-Fails : Fails (Hides r.github_token) (publish m r)
    unfolding publish publish_changes
    publish-Fails = Fails-bind _ (run_git-Fails _) λ changes.
        Fails-if _ (trim_space changes == "")
          (λ _. Fails-raise _ λ h. Hides-failed r.github_token (pos 1) _ h plain)
          λ _. Fails-bind _ (run_git-Fails _) λ _. Fails-bind _ (run_git-Fails _) λ _.
            Fails-bind _ (run_git-Fails _) λ _.
              Fails-bind _ (Fails-map_err-call _ _ _ λ h x. tt)
                λ base. Fails-bind _ (Fails-map_err-call _ _ _ λ h x. tt) λ number. Fails-pure _ _

    -- For a token that has no "*", and is no part of the runner's own message on a repository
    -- without changes: when the work of the runner fails at a command, be it git or the coding
    -- agent, the text of the error does not have the token in it, whatever the command printed.
    pub work-Hides :
        (h : List Call) (e : Failure)
        → (work m r h).0 ≡ err e
        → Hides r.github_token e (work m r h).1
    unfolding work
    work-Hides = whole.stops
      where
        whole : Fails (Hides r.github_token) (work m r)
        whole = Fails-bind _ clone-Fails λ _. Fails-bind _ configure-Fails λ _.
            Fails-bind _ invoke_agent-Fails
              λ response. Fails-if _ (is_pr m r) (λ _. publish-Fails) λ _. Fails-pure _ _
