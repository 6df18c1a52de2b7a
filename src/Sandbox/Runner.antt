-- ===== src/Sandbox/Runner.antt =====
-- The runner of the sandbox server (pkg/sandbox/server.go), and what becomes of the process when it
-- returns (the goroutine of `TaskHandler` in pkg/sandbox/http.go).
use Prim.Native.String.{◌++◌}
use cloud_agent.Common.{
  ℤ, pos, decimal, String, Bool, Option, none, some, List, [], ◌∷◌, ◌==◌, if◌then◌else◌, trim_space,
  show_list, Result, ok, err, Action, pure, raise, call, attempt, map_err, ◌>>=◌, ◌>>◌,
}
use cloud_agent.Cluster.{Call, Command, GitHubAccess, NewPullRequest}
use cloud_agent.Webhook.Client.{
  Client, new_client, webhook_listener_url, get_env_with_default, call_back,
}
use cloud_agent.Sandbox.Client.{TaskRequest}
use cloud_agent.Sandbox.FilePath.{join}
use cloud_agent.Sandbox.Machine.{Finished, Machine, Failure, failed, fatal, sanitize_error}

-- `getAgentHomeDir`
unfoldable pub agent_home_dir : (String → String) → String
agent_home_dir getenv =
    if getenv "AGENT_HOME_DIR" == "" then "/home/node" else getenv "AGENT_HOME_DIR"

pub record Runner : Type 0 where
  pub task_name : String
  pub callback_token : String
  pub github_token : String
  pub repo_owner : String
  pub repo_name : String
  pub task_owner : String
  pub task_owner_email : String
  pub task_type : String
  pub prompt : String
  pub issue_number : ℤ
  pub webhooks_client : Client

-- `NewRunner`, of a request
unfoldable pub new_runner : (String → String) → TaskRequest → Runner
new_runner getenv req = record {
  task_name = req.task_name;
  callback_token = req.callback_token;
  github_token = req.github_token;
  repo_owner = req.repo_owner;
  repo_name = req.repo_name;
  task_owner = req.task_owner;
  task_owner_email = req.task_owner_email;
  task_type = if req.task_type == "" then "comment" else req.task_type;
  prompt = req.prompt;
  issue_number = req.issue_number;
  webhooks_client =
      new_client getenv
        (webhook_listener_url getenv (get_env_with_default getenv "KUBE_NAMESPACE" "cloud-agent"));
}

-- the arguments for the coding agent
unfoldable pub agent_arguments : String → String → String → List String
agent_arguments bin prompt model =
    let model_arguments = if model == "" then [] else "--model" ∷ model ∷ [] in
    if bin == "pi"
    then "-p" ∷ prompt ∷ model_arguments
    else if bin == "opencode"
    then "run" ∷ prompt ∷ model_arguments
    else model_arguments

module _ (m : Machine) (r : Runner) where
  open m use {cluster}

  abbrev getenv : String → String
  getenv = cluster.getenv

  unfoldable pub workspace_dir : String
  unfolding agent_home_dir
  workspace_dir = agent_home_dir getenv ++ "/" ++ r.repo_name

  unfoldable pub clone_url : String
  clone_url =
      if getenv "GIT_REMOTE_URL" == ""
      then "https://x-access-token:" ++ r.github_token ++ "@github.com/" ++ r.repo_owner ++ "/"
        ++ r.repo_name ++ ".git"
      else getenv "GIT_REMOTE_URL"

  -- Runs a command. Its output, or the failure that the exit code and the message make of its own.
  unfoldable pub execute :
      Command → (Finished → String → Option ℤ → Failure) → Action Call Failure String
  execute c report = do
    done ← call (Call.exec c) (λ h. ok (m.exec h c))
    elim done.failure [ none ↦ pure done.stdout | some (e, code) ↦ raise (report done e code) ]

  -- `runGit` and `runGitOutput`, with `return 1, err` behind them
  unfoldable pub git_failure : List String → Finished → String → Option ℤ → Failure
  git_failure arguments done e code = failed (pos 1) (
      sanitize_error
        ("git " ++ show_list arguments ++ " failed: " ++ e ++ " (stderr: " ++ done.stderr ++ ")")
        r.github_token)

  unfoldable pub run_git : List String → Action Call Failure String
  run_git arguments =
      execute (record { program = "git"; arguments = arguments; directory = workspace_dir })
        (git_failure arguments)

  -- the workspace directory, and the clone
  unfoldable pub clone_failure : Finished → String → Option ℤ → Failure
  clone_failure done e code = failed (pos 1) (
      sanitize_error ("failed to clone repository: " ++ e ++ " (stderr: " ++ done.stderr ++ ")")
        r.github_token)

  unfoldable pub clone : Action Call Failure String
  clone = do
    map_err
        (λ e.
          failed (pos 1) ("failed to create workspace directory " ++ workspace_dir ++ ": " ++ e))
        (call (Call.make_dir workspace_dir) (λ h. m.make_dir h workspace_dir))
    execute
        (record {
          program = "git";
          arguments = "clone" ∷ clone_url ∷ workspace_dir ∷ [];
          directory = "";
        })
        clone_failure

  unfoldable pub branch_name : String
  branch_name = "attribution-test-" ++ r.task_name

  unfoldable pub is_pr : Bool
  is_pr = r.task_type == "pr"

  unfoldable pub configure : Action Call Failure (Unit {0})
  configure =
      if is_pr
      then (do
        run_git ("config" ∷ "user.name" ∷ r.task_owner ∷ [])
        run_git ("config" ∷ "user.email" ∷ r.task_owner_email ∷ [])
        run_git ("checkout" ∷ "-b" ∷ branch_name ∷ [])
        pure tt)
      else pure tt

  -- `readModelFromFile`
  unfoldable pub read_model : String → Action Call Failure String
  read_model path = do
    data' ← attempt (call (Call.read_file path) (λ h. m.read_file h path))
    pure (elim data' [ err _ ↦ "" | ok text ↦ trim_space text ])

  unfoldable pub resolve_model : Action Call Failure String
  unfolding get_env_with_default
  resolve_model = do
    let dir = get_env_with_default getenv "MODELS_DIR" "/etc/cloud-agent/models"
    model ← if is_pr then read_model (join dir "model.pr") else pure ""
    if model == "" then read_model (join dir "model.general") else pure model

  unfoldable pub agent_failure : String → Finished → String → Option ℤ → Failure
  agent_failure bin done e code =
      failed (elim code [ none ↦ pos 1 | some n ↦ n ])
        (sanitize_error ("agent " ++ bin ++ " failed: " ++ e ++ " (stderr: " ++ done.stderr ++ ")")
          r.github_token)

  -- the coding agent, and its response
  unfoldable pub invoke_agent : Action Call Failure String
  invoke_agent =
      let bin = getenv "AGENT_BIN" in
      if bin == "" then raise (fatal "AGENT_BIN is not set") else do
        model ← resolve_model
        output ←
            execute
              (record {
                program = bin;
                arguments = agent_arguments bin r.prompt model;
                directory = workspace_dir;
              })
              (agent_failure bin)
        pure (trim_space output)

  unfoldable pub github_access : GitHubAccess
  github_access =
      let url = getenv "GITHUB_API_URL" in
      record {
        token = r.github_token;
        base_url =
            if url == ""
            then "https://api.github.com/"
            else elim (cluster.parse_url url) [ ok _ ↦ url | err _ ↦ "https://api.github.com/" ];
      }

  unfoldable pub new_pull_request : String → NewPullRequest
  new_pull_request base = record {
    title = "Automated PR: " ++ r.task_name;
    head = branch_name;
    base = base;
    body = "Resolves #" ++ decimal r.issue_number;
  }

  -- the commit, the push and the pull request, with its response
  unfoldable pub publish_changes : Action Call Failure String
  publish_changes = do
    run_git ("add" ∷ "-A" ∷ [])
    run_git ("commit" ∷ "-m" ∷ ("cloud-agent: automated commit for task " ++ r.task_name) ∷ [])
    run_git ("push" ∷ "-f" ∷ "origin" ∷ branch_name ∷ [])
    base ←
        map_err (λ e. failed (pos 1) ("failed to get repository: " ++ e))
          (call (Call.get_repository github_access r.repo_owner r.repo_name)
            (λ h. m.get_repository h github_access r.repo_owner r.repo_name))
    number ←
        map_err (λ e. failed (pos 1) ("failed to create PR: " ++ e))
          (call (Call.create_pull github_access r.repo_owner r.repo_name (new_pull_request base))
            (λ h. m.create_pull h github_access r.repo_owner r.repo_name (new_pull_request base)))
    pure ("I have created a PR #" ++ decimal number)

  -- the changes, if there are any
  unfoldable pub publish : Action Call Failure String
  publish = do
    changes ← run_git ("status" ∷ "--porcelain" ∷ [])
    if trim_space changes == ""
        then raise (failed (pos 1) "failed to make any changes to the repository")
        else publish_changes

  -- `Run` up to the callback: the response
  unfoldable pub work : Action Call Failure String
  work = do clone; configure; response ← invoke_agent; if is_pr then publish else pure response

  unfoldable pub report : String → Action Call Failure (Unit {0})
  report response =
      map_err (λ e. failed (pos 1) ("failed to callback: " ++ e))
        (m.retry 5 (call_back cluster r.webhooks_client r.callback_token r.task_name response))

  -- `Run`; its exit code is 0 when it succeeds
  unfoldable pub run : Action Call Failure (Unit {0})
  run = work >>= report

-- The exit code of the process when `Run` is through; it goes on where the test URL is set.
unfoldable pub exit_code : (String → String) → Result Failure (Unit {0}) → Option ℤ
exit_code getenv (err (fatal _)) = some (pos 1)
exit_code getenv (err (failed code _)) =
    if getenv "TEST_SANDBOX_API_URL" == "" then some code else none
exit_code getenv (ok _) = if getenv "TEST_SANDBOX_API_URL" == "" then some (pos 0) else none
