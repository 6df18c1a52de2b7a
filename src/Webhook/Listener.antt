-- ===== src/Webhook/Listener.antt =====
-- The handler of GitHub's webhooks (`handleWebhook` and `formatPrompt` of pkg/webhook/listener.go).
use Prim.Native.String.{◌++◌}
use cloud_agent.Common.{
  ℕ, ℤ, pos, decimal, String, Bool, false, Option, none, some, List, [], ◌∷◌, is_nil, ◌==◌,
  if◌then◌else◌, contains, to_lower, ok, err, pure, raise, call, lift, attempt, map_err, asks,
  ◌>>=◌, ◌>>◌,
}
use cloud_agent.Api.{AgentTask, pending, to_unstructured}
use cloud_agent.Cluster.{message}
use cloud_agent.Webhook.Signature.{validate_signature}
use cloud_agent.Webhook.Server.{
  EventComment, GitHubWebhookEvent, Reply, text, Call, Request, ListenerServer, Handler,
  generate_random_hex, get_agent_label, get_agent_name,
}
use cloud_agent.GitHub.Api.{IssueComment}

-- the loop over the comments
unfoldable pub comment_lines : List IssueComment → String
comment_lines [] = ""
comment_lines (c ∷ cs) = "- [" ++ c.author ++ "]: " ++ c.body ++ "\n" ++ comment_lines cs

-- `formatPrompt`
unfoldable pub format_prompt : String → String → List IssueComment → String
unfolding comment_lines
format_prompt title body comments =
    "Issue Title: "
    ++ title
    ++ "\n\nIssue Body:\n"
    ++ body
    ++ "\n\nComments:\n"
    ++ comment_lines comments

abbrev pub enhanced_comment_prompt : String
enhanced_comment_prompt = "\n\nPlease **answer** based on the above issue and comments."

abbrev pub enhanced_label_prompt : String
enhanced_label_prompt =
    "\n\nPlease **make changes** on the repository based on the above issue and comments."

abbrev too_many_comments : String
too_many_comments = "The agent does not support issues with more than 30 comments."

abbrev pr_refusal : String
pr_refusal = "Adding label on a PR is not supported."

-- `fmt.Sprintf("%d+%s@users.noreply.github.com", id, login)`
unfoldable pub noreply_address : ℤ → String → String
noreply_address id login = decimal id ++ "+" ++ login ++ "@users.noreply.github.com"

-- what the `switch` sets
pub record Plan : Type 0 where
  pub task_type : String
  pub prompt : String
  pub task_owner : String
  pub task_owner_email : String

module _ (s : ListenerServer) where
  open s use {outside, codec, namespace, webhook_secret}
  open outside use {getenv}

  unfoldable pub authenticate : Request → List ℕ → Handler (Unit {0})
  authenticate req body =
      let signature = req.header "X-Hub-Signature-256" in
      if is_nil webhook_secret
      then pure tt
      else if signature == ""
      then raise (text 401 "Missing X-Hub-Signature-256 header")
      else if validate_signature outside.hmac webhook_secret body signature
      then pure tt
      else raise (text 401 "Invalid webhook signature")

  -- the comments of the issue, if there are no more than 30
  unfoldable pub issue_prompt : GitHubWebhookEvent → String → Handler String
  issue_prompt event suffix = do
    let owner = event.owner_login
    let repo = event.repository_name
    let number = event.issue_number
    fetched ←
        map_err (λ e. text 500 ("Failed to fetch issue comments: " ++ e))
          (call (Call.get_issue_comments owner repo number)
            (λ h. outside.get_issue_comments h owner repo number))
    if fetched.1
        then attempt (
            call (Call.post_comment owner repo number too_many_comments)
              (λ h. outside.post_comment h owner repo number too_many_comments))
          >> raise (text 200 too_many_comments)
        else pure (format_prompt event.issue_title event.issue_body fetched.0 ++ suffix)

  unfoldable pub plan_comment : GitHubWebhookEvent → Option EventComment → Handler Plan
  plan_comment event none = raise (text 400 "Missing comment object for created action")
  plan_comment event (some c) =
      if contains (to_lower outside.lower c.body)
        ("@" ++ to_lower outside.lower (get_agent_name getenv))
      then (do
        prompt ← issue_prompt event enhanced_comment_prompt
        pure (record {
          task_type = "comment";
          prompt = prompt;
          task_owner = c.user_login;
          task_owner_email = noreply_address c.user_id c.user_login;
        }))
      else raise (text 200 "Ignored comment without mention")

  -- `event.Label != nil && event.Label.Name == agentLabel`
  unfoldable pub has_agent_label : Option String → Bool
  has_agent_label none = false
  has_agent_label (some name) = name == get_agent_label getenv

  unfoldable pub plan_label : GitHubWebhookEvent → Handler Plan
  plan_label event =
      if has_agent_label event.label_name
      then (if event.has_pull_request
          then (map_err (λ e. text 500 ("Failed to post comment to GitHub: " ++ e))
                (call
                  (Call.post_comment event.owner_login event.repository_name event.issue_number
                    pr_refusal)
                  (λ h.
                    outside.post_comment h event.owner_login event.repository_name
                      event.issue_number pr_refusal))
              >> raise (text 200 pr_refusal))
          else (do
            prompt ← issue_prompt event enhanced_label_prompt
            pure (record {
              task_type = "pr";
              prompt = prompt;
              task_owner = event.sender_login;
              task_owner_email = noreply_address event.sender_id event.sender_login;
            })))
      else raise (text 200 ("Ignored non-" ++ get_agent_label getenv ++ " label event"))

  -- the `switch` on the action
  unfoldable pub plan : GitHubWebhookEvent → Handler Plan
  plan event =
      if event.action_name == "created"
      then plan_comment event event.comment
      else if event.action_name == "labeled"
      then plan_label event
      else raise (text 200 "Ignored unsupported action")

  -- `SYSTEM_AGENT`'s template, unless the repository's `.cloud-agent.yaml` names one
  unfoldable pub default_template : String
  default_template =
      if getenv "SYSTEM_AGENT" == "opencode"
      then "opencode-sandbox-template"
      else "pi-sandbox-template"

  unfoldable pub sandbox_template : GitHubWebhookEvent → Handler String
  sandbox_template event = do
    file ← attempt (
        call (Call.get_file event.owner_login event.repository_name ".cloud-agent.yaml")
          (λ h. outside.get_file h event.owner_login event.repository_name ".cloud-agent.yaml"))
    elim file [
      | err _ ↦ pure default_template
      | ok bytes ↦ elim (outside.decode_config bytes) [
        | err _ ↦ pure default_template
        | ok template ↦ pure (if template == "" then default_template else template)
      ]
    ]

  unfoldable pub new_task : GitHubWebhookEvent → Plan → String → String → AgentTask
  new_task event p template task_id = record {
    api_version = "cloudagent.mayurhalai.github.com/v1alpha1";
    kind = "AgentTask";
    metadata = record { name = task_id; namespace = namespace; uid = ""; resource_version = "" };
    spec = record {
      prompt = p.prompt;
      sandbox_template = template;
      task_owner = p.task_owner;
      task_owner_email = p.task_owner_email;
      repo_owner = event.owner_login;
      repo_name = event.repository_name;
      issue_number = event.issue_number;
      task_type = p.task_type;
    };
    status = record {
      state = pending;
      retries = pos 0;
      sandbox_claim_name = "";
      sandbox_name = "";
      pod_name = "";
    };
  }

  -- from the plan to the reply
  unfoldable pub create_task : GitHubWebhookEvent → Plan → Handler Reply
  create_task event p = do
    template ← sandbox_template event
    hex ← asks (generate_random_hex outside 4)
    let task_id = "task-" ++ decimal event.issue_number ++ "-" ++ hex
    u ←
        map_err (λ e. text 500 ("Failed to serialize AgentTask: " ++ e))
          (lift (to_unstructured codec (new_task event p template task_id)))
    map_err (λ e. text 500 ("Failed to create AgentTask CRD: " ++ message e))
        (call (Call.create_task namespace u) (λ h. outside.create_task h namespace u))
    pure (text 201 ("Created task " ++ task_id))

  unfoldable pub handle_webhook : Request → Handler Reply
  handle_webhook req = do
    body ← map_err (λ _. text 400 "Failed to read body") (lift req.body)
    authenticate req body
    event ← map_err (λ _. text 400 "Invalid JSON payload") (lift (outside.decode_event body))
    p ← plan event
    create_task event p
