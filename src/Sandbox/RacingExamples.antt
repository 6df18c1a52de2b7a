-- ===== src/Sandbox/RacingExamples.antt =====
-- Two requests that reach the sandbox server at the same time.
use cloud_agent.Common.{◌≤◌, pos, false, true, [], ◌∷◌, ok, ◌≡◌, refl}
use cloud_agent.Sandbox.Client.{TaskRequest}
use cloud_agent.Sandbox.Handler.{ServerRequest, admit, missing_of}
use cloud_agent.Sandbox.Racing.{
  Server, fresh, Step.started, Steps, Steps.none_yet, Steps.then_step, Admitted.no_more,
  Admitted.one_more, running, race-Steps, Steps-running,
}

abbrev task : TaskRequest
task = record {
  task_name = "task-7-ab";
  callback_token = "c1";
  github_token = "ghs1";
  repo_owner = "acme";
  repo_name = "site";
  task_owner = "ada";
  task_owner_email = "1+ada@users.noreply.github.com";
  task_type = "pr";
  prompt = "Fix it";
  issue_number = pos 7;
}

abbrev post : ServerRequest
post = record { method = "POST"; decoded = ok task }

complete : admit false post ≡ ok task
unfolding admit missing_of
complete = refl

race-Steps_example : (s : Server) × Steps fresh s × (s.runners ≡ task ∷ task ∷ [])
race-Steps_example =
    race-Steps (post ∷ post ∷ []) (task ∷ task ∷ [])
      (one_more post task complete (one_more post task complete no_more))

-- one runner, and one handler that is still checking
abbrev half : Server
half = record { accepted = true; checking = post ∷ []; runners = task ∷ [] }

abbrev both : Server
both = record { accepted = true; checking = []; runners = task ∷ task ∷ [] }

Steps-running_example : (true ≡ true) × (running both ≤ running half)
Steps-running_example =
    Steps-running half both refl (then_step none_yet (started [] post [] task refl complete))
