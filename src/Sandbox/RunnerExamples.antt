-- ===== src/Sandbox/RunnerExamples.antt =====
-- The runner's theorems on concrete machines.
use cloud_agent.Common.{
  ℕ, zero, suc, ◌+◌, ◌≤◌, pos, ℤ, String, true, false, none, some, Option, List, [], ◌∷◌, ok, err,
  Result, ◌≡◌, inl, inr, refl, arith, ne_empty, ◌==◌, if◌then◌else◌, length, Action, Adds, action,
  Result-cases, contains, starless, trim_space, replaced, replace_all,
}
use cloud_agent.Api.{pending}
use cloud_agent.Cluster.{Call, HttpRequest, HttpResponse, Cluster}
use cloud_agent.Samples.{task_in, stored, cluster_sending}
use cloud_agent.Api.Wire.{null}
use cloud_agent.Webhook.Client.{callback_request, call_back, send_request, get_env_with_default}
use cloud_agent.Sandbox.FilePath.{join}
use cloud_agent.Sandbox.Machine.{Machine, Failure, failed, sanitize_error}
use cloud_agent.Sandbox.Runner.{
  Runner, agent_home_dir, agent_arguments, workspace_dir, clone_url, branch_name, github_access,
  new_pull_request, execute, git_failure, run_git, clone_failure, clone, configure, read_model,
  resolve_model, agent_failure, invoke_agent, publish, publish_changes, work, report, run, is_pr,
}
use cloud_agent.Sandbox.Hiding.{Hides, work-Hides}
use cloud_agent.Sandbox.Working.{Works}
use cloud_agent.Sandbox.Reporting.{
  Tries, Tries.stopped, Tries.again, CallsBack, run_fails_silently, run_reports,
}
use cloud_agent.Webhook.Tokens.{TokenResponse}
use cloud_agent.Webhook.Client.{new_client}
use cloud_agent.Orchestrator.Submission.{task_request}
use cloud_agent.Sandbox.Runner.{new_runner}
use cloud_agent.Sandbox.Delivery.{runner_for, callback_for, task_request-delivered}
use cloud_agent.Sandbox.Publishing.{Answers, clone_command, work-Answers}

-- tries again until the first success, within the limit
pub retry : ℕ → Action Call String (Unit {0}) → Action Call String (Unit {0})
retry zero op h = op h
retry (suc zero) op h = op h
retry (suc (suc n)) op h = elim (op h).0 [ ok done ↦ op h | err e ↦ retry (suc n) op (op h).1 ]

retry-Tries :
    (n : ℕ) (op : Action Call String (Unit {0})) (h : List Call)
    → Tries op (retry (suc n) op h) (suc n) h
unfolding retry
retry-Tries zero op h = stopped refl
retry-Tries (suc n) op h = elim (Result-cases (op h).0) [
  | inl (done, e) ↦ stopped (ground arith)
  | inr (x, e) ↦ again e (rw (e, retry) (retry-Tries n op (op h).1))
]

abbrev accepted : List Call → HttpRequest → Result String HttpResponse
accepted h request = ok (record { status = 200; body = ""; document = ok null })

abbrev cluster : Cluster
cluster = record (cluster_sending (stored (task_in pending "" "")) accepted) {
  getenv = λ key. if key == "AGENT_BIN" then "pi" else "";
}

-- git prints the same for every command, and every command succeeds or fails
abbrev machine_with : Option (String × Option ℤ) → Machine
machine_with failure = record {
  cluster = cluster;
  make_dir = λ h path. ok tt;
  read_file = λ h path. err "no such file";
  exec =
      λ h command. record { stdout = "M a\n"; stderr = "remote: ghs1 denied"; failure = failure };
  get_repository = λ h access owner repo. ok "main";
  create_pull = λ h access owner repo pull. ok (pos 12);
  retry = retry;
}

abbrev machine : Machine
machine = machine_with none

-- every command fails, and prints the token
abbrev pub broken : Machine
broken = machine_with (some ("exit status 128", some (pos 128)))

abbrev pub runner_of : String → Runner
runner_of task_type = record {
  task_name = "task-7-ab";
  callback_token = "c1";
  github_token = "ghs1";
  repo_owner = "acme";
  repo_name = "site";
  task_owner = "ada";
  task_owner_email = "1+ada@users.noreply.github.com";
  task_type = task_type;
  prompt = "Fix it";
  issue_number = pos 7;
  webhooks_client = record {
    url = "http://listener";
    auth_username = "sandbox-orchestrator";
    auth_password = "pw";
  };
}

runs : Unit {0}
unfolding work clone configure invoke_agent publish publish_changes execute run_git git_failure
    clone_failure agent_failure resolve_model read_model workspace_dir agent_home_dir clone_url
    branch_name is_pr github_access new_pull_request agent_arguments action sanitize_error
    trim_space get_env_with_default
runs = tt

answered : (work machine (runner_of "comment") []).0 ≡ ok "M a"
unfolding runs
answered = refl

clone_fails :
    (work broken (runner_of "pr") []).0
    ≡ err
        (failed (pos 1) "failed to clone repository: exit status 128 (stderr: remote: *** denied)")
unfolding runs replace_all replaced
clone_fails = refl

work-Answers_example :
    Adds (Answers machine (runner_of "comment")) [] (work machine (runner_of "comment") []).1
unfolding is_pr
work-Answers_example = work-Answers machine (runner_of "comment") refl []

clone_failed :
    (work broken (runner_of "pr") []).1
    ≡ Call.exec (clone_command broken (runner_of "pr")) ∷ Call.make_dir "/home/node/site" ∷ []
unfolding runs
clone_failed = refl

abbrev pub clone_error : Failure
clone_error =
    failed (pos 1) "failed to clone repository: exit status 128 (stderr: remote: *** denied)"

given_free : starless "ghs1" ≡ true
unfolding starless
given_free = refl

plain : contains "failed to make any changes to the repository" "ghs1" ≡ false
unfolding contains
plain = refl

-- the token is in what git printed
work-Hides_example : Hides "ghs1" clone_error (work broken (runner_of "pr") []).1
work-Hides_example =
    work-Hides broken (runner_of "pr") (ne_empty _ refl) given_free plain [] clone_error clone_fails

run_fails_silently_example :
    (run broken (runner_of "pr") [] ≡ (err clone_error, (work broken (runner_of "pr") []).1))
    × Adds Works [] (run broken (runner_of "pr") []).1
run_fails_silently_example = run_fails_silently broken (runner_of "pr") [] clone_error clone_fails

pub run_broken : (run broken (runner_of "pr") []).0 ≡ err clone_error
unfolding runs run replace_all replaced
run_broken = refl

tries : (op : Action Call String (Unit {0})) (h : List Call) → Tries op (machine.retry 5 op h) 5 h
tries op h = retry-Tries 4 op h

run_reports_example :
    let r = runner_of "comment" in
    Adds (CallsBack machine r "M a") (work machine r []).1 (run machine r []).1
    × (length (run machine r []).1 ≤ 5 + length (work machine r []).1)
run_reports_example = run_reports machine (runner_of "comment") tries [] "M a" answered

abbrev issued : TokenResponse
issued = record { github_token = "ghs1"; callback_token = "c1" }

delivers : (run machine (runner_for machine (task_in pending "" "") issued) []).0 ≡ ok tt
unfolding runs run report retry call_back send_request callback_request new_runner new_client
    task_request
delivers = refl

task_request-delivered_example :
    let t = task_in pending "" "" in
    let r = runner_for machine t issued in
    (response : String) × ((work machine r []).0 ≡ ok response)
    × (h' : List Call) × ((run machine r []).1
        ≡ Call.send (callback_for machine t issued response) ∷ h')
    × (resp : HttpResponse) × (machine.cluster.send h' (callback_for machine t issued response)
        ≡ ok resp)
    × (resp.status ≡ 200)
task_request-delivered_example =
    task_request-delivered machine tries (task_in pending "" "") issued [] delivers

join_parent : join "/etc/./models/../agent/" "model.pr" ≡ "/etc/agent/model.pr"
unfolding join
join_parent = refl

join_relative : join "../a//b" "model.general" ≡ "../a/b/model.general"
unfolding join
join_relative = refl
