-- ===== src/Sandbox/Accepting.antt =====
-- Which requests the sandbox server (pkg/sandbox/http.go) runs.
use cloud_agent.Common.{
  true, false, List, [], ◌∷◌, eq_iff, ok, err, ◌≡◌, refl, ◌≢◌, arith, Result-cases, inl, inr,
}
use cloud_agent.Api.{AgentTask}
use cloud_agent.Webhook.Tokens.{TokenResponse}
use cloud_agent.Sandbox.Client.{TaskRequest}
use cloud_agent.Sandbox.Handler.{ServerRequest, missing_of, admit, task_handler, started_by}
use cloud_agent.Orchestrator.Cases.{IsComplete}
use cloud_agent.Orchestrator.Submission.{task_request}

-- the first request of a sequence that a fresh server admits
abbrev pub first_admitted : List ServerRequest → List TaskRequest
first_admitted [] = []
first_admitted (r ∷ rs) = elim (admit false r) [ ok req ↦ req ∷ [] | err reply ↦ first_admitted rs ]

started_by-accepted : (rs : List ServerRequest) → started_by true rs ≡ []
unfolding started_by task_handler admit
started_by-accepted [] = refl
started_by-accepted (r ∷ rs) = started_by-accepted rs

-- Of requests that come one after another, a fresh server runs the first that it admits, and no
-- other.
pub started_by-first_admitted : (rs : List ServerRequest) → started_by false rs ≡ first_admitted rs
unfolding started_by task_handler
started_by-first_admitted [] = refl
started_by-first_admitted (r ∷ rs) = elim (Result-cases (admit false r)) [
  | inl (req, admitted) ↦ ground (arith, started_by-accepted rs)
  | inr (reply, refused) ↦ ground (arith, started_by-first_admitted rs)
]

-- The request that the orchestrator makes of a task that passed its validation is admitted by a
-- fresh server, if the task has a name, an owner and the owner's address, and neither token is
-- empty.
pub task_request-admitted :
    (t : AgentTask) (tokens : TokenResponse)
    → IsComplete t.spec
    → t.metadata.name ≢ ""
    → t.spec.task_owner ≢ ""
    → t.spec.task_owner_email ≢ ""
    → tokens.github_token ≢ ""
    → tokens.callback_token ≢ ""
    → admit false (record { method = "POST"; decoded = ok (task_request t tokens) })
      ≡ ok (task_request t tokens)
unfolding admit missing_of task_request
task_request-admitted t tokens complete named owner address github callback = ground (
  arith,
  complete.has_prompt,
  complete.has_repo_owner,
  complete.has_repo_name,
  complete.has_type,
  eq_iff t.metadata.name "",
  eq_iff t.spec.task_owner "",
  eq_iff t.spec.task_owner_email "",
  eq_iff tokens.github_token "",
  eq_iff tokens.callback_token "",
  eq_iff t.spec.prompt "",
  eq_iff t.spec.repo_owner "",
  eq_iff t.spec.repo_name "",
  eq_iff t.spec.task_type "",
)
