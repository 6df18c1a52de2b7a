-- ===== src/Sandbox/AcceptExamples.antt =====
-- The sandbox server on concrete requests.
use cloud_agent.Common.{String, false, List, [], ◌∷◌, Result, ok, err, ◌≡◌, refl, arith, ne_empty}
use cloud_agent.Api.{AgentTask, started}
use cloud_agent.Samples.{task_in}
use cloud_agent.Webhook.Tokens.{TokenResponse}
use cloud_agent.Sandbox.Client.{TaskRequest}
use cloud_agent.Sandbox.Handler.{task_handler, ServerRequest, admit, started_by, missing_of}
use cloud_agent.Sandbox.Accepting.{first_admitted, started_by-first_admitted, task_request-admitted}
use cloud_agent.Orchestrator.Cases.{IsComplete}
use cloud_agent.Orchestrator.Submission.{task_request}

abbrev task : AgentTask
task = task_in started "" ""

abbrev tokens : TokenResponse
tokens = record { github_token = "g"; callback_token = "c" }

complete : IsComplete task.spec
complete = record {
  has_prompt = ne_empty _ refl;
  has_repo_owner = ne_empty _ refl;
  has_repo_name = ne_empty _ refl;
  has_template = ne_empty _ refl;
  has_issue = λ e. ground arith;
  has_type = ne_empty _ refl;
}

abbrev post : Result String TaskRequest → ServerRequest
post decoded = record { method = "POST"; decoded = decoded }

task_request-admitted_example :
    admit false (post (ok (task_request task tokens))) ≡ ok (task_request task tokens)
task_request-admitted_example =
    task_request-admitted task tokens complete (ne_empty _ refl) (ne_empty _ refl) (ne_empty _ refl)
      (ne_empty _ refl) (ne_empty _ refl)

abbrev requests : List ServerRequest
requests =
    post (err "EOF")
    ∷ post (ok (task_request task tokens))
    ∷ post (ok (task_request task tokens))
    ∷ []

started_by-first_admitted_example : started_by false requests ≡ first_admitted requests
started_by-first_admitted_example = started_by-first_admitted requests

-- the run is of the one request that is complete
one_runner : started_by false requests ≡ task_request task tokens ∷ []
unfolding started_by task_handler admit missing_of task_request
one_runner = refl
