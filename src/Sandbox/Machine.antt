-- ===== src/Sandbox/Machine.antt =====
-- What the runner of the sandbox server (pkg/sandbox/server.go) finds outside itself, and how it
-- reports a failure.
use cloud_agent.Common.{
  ℕ, ℤ, String, Option, List, Result, Action, ◌==◌, if◌then◌else◌, replace_all,
}
use cloud_agent.Cluster.{Call, Cluster, Command, GitHubAccess, NewPullRequest}

-- A command that has run: its output, and for a failure the text of the error, with the exit code
-- if the command ran and exited with one (`exec.ExitError`).
pub record Finished : Type 0 where
  pub stdout : String
  pub stderr : String
  pub failure : Option (String × Option ℤ)

-- The file system, the commands and GitHub's API, with `backoff.Retry` under a limit of tries.
pub record Machine : Type 0 where
  pub cluster : Cluster
  pub make_dir : List Call → String → Result String (Unit {0})
  pub read_file : List Call → String → Result String String
  pub exec : List Call → Command → Finished
  -- the default branch
  pub get_repository : List Call → GitHubAccess → String → String → Result String String
  -- the number of the pull request
  pub create_pull : List Call → GitHubAccess → String → String → NewPullRequest → Result String ℤ
  pub retry : ℕ → Action Call String (Unit {0}) → Action Call String (Unit {0})

-- The exit code and the error that `Run` returns, or `log.Fatalf`.
pub data Failure : Type 0 where
  failed : ℤ → String → Failure
  fatal : String → Failure

-- `sanitizeError`, on the text of an error
unfoldable pub sanitize_error : String → String → String
sanitize_error message token = if token == "" then message else replace_all message token "***"
