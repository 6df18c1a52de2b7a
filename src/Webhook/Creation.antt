-- ===== src/Webhook/Creation.antt =====
-- The tasks that `handleWebhook` (pkg/webhook/listener.go) creates.
use Prim.Native.String.{◌++◌}
use text.Mathlib.TextLemmas.{append-ne-nil_of_right_ne-nil}
use cloud_agent.Common.{
  ne_empty, ◌==◌, false, ℕ, contains, to_lower, Yields-bind-Yields, Yields-cases,
  Yields-map_err-lift, String, Bool, true, List, ok, err, none, some, Option, ◌≡◌, refl, ◌≢◌, ◌⊎◌,
  inl, inr, arith, eq_iff, Emits, Adds, Emits-pure, Emits-raise, Emits-bind, Emits-lift,
  Emits-map_err, Emits-cases, Emits-attempt, Emits-call, Emits-asks, Emits-if, Emits-bind-Yields,
  Yields, Yields-pure, Yields-raise, Yields-if, Yields-bind, if◌then◌else◌, is_nil,
}
use cloud_agent.Api.{AgentTask, pending, to_unstructured}
use cloud_agent.Webhook.Server.{
  get_agent_name, Call, Request, ListenerServer, GitHubWebhookEvent, EventComment,
}
use cloud_agent.Webhook.Signature.{validate_signature}
use cloud_agent.Webhook.Listener.{
  enhanced_comment_prompt, enhanced_label_prompt, authenticate, issue_prompt, plan_comment,
  plan_label, has_agent_label, plan, Plan, default_template, sandbox_template, new_task,
  create_task, handle_webhook,
}

-- What the listener decides of a plan: there is a prompt, and the type is one that the runner
-- knows.
IsPlan : Plan → Type 0
IsPlan p = (p.prompt ≢ "") × ((p.task_type ≡ "comment") ⊎ (p.task_type ≡ "pr"))

if_given : (b : Bool) {x y : String} → x ≢ "" → y ≢ "" → (if b then x else y) ≢ ""
if_given true h k = h
if_given false h k = k

module _ (s : ListenerServer) where
  open s use {outside, namespace, codec}

  -- What a webhook may do: it reads, comments, and creates pending tasks, in the namespace of the
  -- listener, with a prompt, a template and a type that the runner knows.
  abbrev pub Creates : Call → Type 0
  Creates (Call.create_task ns u) =
      (t : AgentTask) × (to_unstructured codec t ≡ ok u)
      × (ns ≡ namespace)
      × (t.status.state ≡ pending)
      × (t.spec.prompt ≢ "")
      × (t.spec.sandbox_template ≢ "")
      × ((t.spec.task_type ≡ "comment") ⊎ (t.spec.task_type ≡ "pr"))
  Creates (Call.get_issue_comments _ _ _) = Unit
  Creates (Call.post_comment _ _ _ _) = Unit
  Creates (Call.get_file _ _ _) = Unit
  Creates _ = ⊥

  issue_prompt-Emits :
      (event : GitHubWebhookEvent) (suffix : String) → Emits Creates (issue_prompt s event suffix)
  unfolding issue_prompt
  issue_prompt-Emits event suffix = Emits-bind _ (Emits-map_err _ _ (Emits-call _ _ tt)) λ fetched.
      Emits-if _ fetched.1
        (λ _. Emits-bind _ (Emits-attempt _ (Emits-call _ _ tt)) λ _. Emits-raise _ _)
        λ _. Emits-pure _ _

  issue_prompt-Yields :
      (event : GitHubWebhookEvent) (suffix : String)
      → suffix ≢ ""
      → Yields (λ prompt. prompt ≢ "") (issue_prompt s event suffix)
  unfolding issue_prompt
  issue_prompt-Yields event suffix given = Yields-bind _ λ fetched.
      Yields-if fetched.1 (λ _. Yields-bind _ λ _. Yields-raise _)
        λ _. Yields-pure _ (append-ne-nil_of_right_ne-nil _ given)

  abbrev is_mentioned : EventComment → Bool
  is_mentioned c =
      contains (to_lower outside.lower c.body)
        ("@" ++ to_lower outside.lower (get_agent_name outside.getenv))

  plan_comment-Emits :
      (event : GitHubWebhookEvent) (c : Option EventComment)
      → Emits Creates (plan_comment s event c)
  unfolding plan_comment
  plan_comment-Emits event none = Emits-raise _ _
  plan_comment-Emits event (some c) =
      Emits-if _ (is_mentioned c)
        (λ _. Emits-bind _ (issue_prompt-Emits event _) λ _. Emits-pure _ _) λ _. Emits-raise _ _

  plan_label-Emits : (event : GitHubWebhookEvent) → Emits Creates (plan_label s event)
  unfolding plan_label
  plan_label-Emits event =
      Emits-if _ (has_agent_label s event.label_name)
        (λ _.
          Emits-if _ event.has_pull_request
            (λ _. Emits-bind _ (Emits-map_err _ _ (Emits-call _ _ tt)) λ _. Emits-raise _ _)
            λ _. Emits-bind _ (issue_prompt-Emits event _) λ _. Emits-pure _ _)
        λ _. Emits-raise _ _

  plan-Emits : (event : GitHubWebhookEvent) → Emits Creates (plan s event)
  unfolding plan
  plan-Emits event =
      Emits-if _ (event.action_name == "created") (λ _. plan_comment-Emits event event.comment)
        λ _.
          Emits-if _ (event.action_name == "labeled") (λ _. plan_label-Emits event)
            λ _. Emits-raise _ _

  plan_comment-Yields :
      (event : GitHubWebhookEvent) (c : Option EventComment)
      → Yields IsPlan (plan_comment s event c)
  unfolding plan_comment IsPlan
  plan_comment-Yields event none = Yields-raise _
  plan_comment-Yields event (some c) =
      Yields-if (is_mentioned c)
        (λ _.
          Yields-bind-Yields (issue_prompt-Yields event enhanced_comment_prompt (ne_empty _ refl))
            λ prompt given. Yields-pure _ (given, inl refl))
        λ _. Yields-raise _

  plan_label-Yields : (event : GitHubWebhookEvent) → Yields IsPlan (plan_label s event)
  unfolding plan_label IsPlan
  plan_label-Yields event =
      Yields-if (has_agent_label s event.label_name)
        (λ _.
          Yields-if event.has_pull_request (λ _. Yields-bind _ λ _. Yields-raise _)
            λ _.
              Yields-bind-Yields (issue_prompt-Yields event enhanced_label_prompt (ne_empty _ refl))
                λ prompt given. Yields-pure _ (given, inr refl))
        λ _. Yields-raise _

  plan-Yields : (event : GitHubWebhookEvent) → Yields IsPlan (plan s event)
  unfolding plan
  plan-Yields event =
      Yields-if (event.action_name == "created") (λ _. plan_comment-Yields event event.comment)
        λ _.
          Yields-if (event.action_name == "labeled") (λ _. plan_label-Yields event)
            λ _. Yields-raise _

  default_template-given : default_template s ≢ ""
  unfolding default_template
  default_template-given =
      if_given (outside.getenv "SYSTEM_AGENT" == "opencode") (ne_empty _ refl) (ne_empty _ refl)

  sandbox_template-Emits : (event : GitHubWebhookEvent) → Emits Creates (sandbox_template s event)
  unfolding sandbox_template
  sandbox_template-Emits event = Emits-bind _ (Emits-attempt _ (Emits-call _ _ tt)) λ file.
      Emits-cases _ file
        (λ bytes.
          Emits-cases _ (outside.decode_config bytes) (λ _. Emits-pure _ _) λ _. Emits-pure _ _)
        λ _. Emits-pure _ _

  sandbox_template-Yields :
      (event : GitHubWebhookEvent) → Yields (λ template. template ≢ "") (sandbox_template s event)
  unfolding sandbox_template
  sandbox_template-Yields event = Yields-bind _ (elim [
    | err _ ↦ Yields-pure _ default_template-given
    | ok bytes ↦
        Yields-cases (outside.decode_config bytes)
          (λ template. Yields-pure _ (ground (arith, eq_iff template "", default_template-given)))
          λ _. Yields-pure _ default_template-given
  ])

  create_task-Emits :
      (event : GitHubWebhookEvent) (p : Plan) → IsPlan p → Emits Creates (create_task s event p)
  unfolding create_task IsPlan new_task
  create_task-Emits event p (prompt, type) =
      Emits-bind-Yields (sandbox_template-Emits event) (sandbox_template-Yields event)
        λ template given. Emits-bind _ (Emits-asks _ _) λ hex.
          Emits-bind-Yields (Emits-map_err _ _ (Emits-lift _ _)) (Yields-map_err-lift _ _)
            λ u written.
              Emits-bind _
                (Emits-map_err _ _ (Emits-call _ _ (_, written, refl, refl, prompt, given, type)))
                λ _. Emits-pure _ _

  authenticate-Emits : (r : Request) (body : List ℕ) → Emits Creates (authenticate s r body)
  unfolding authenticate
  authenticate-Emits r body =
      Emits-if _ (is_nil s.webhook_secret) (λ _. Emits-pure _ tt)
        λ _.
          Emits-if _ (r.header "X-Hub-Signature-256" == "") (λ _. Emits-raise _ _)
            λ _.
              Emits-if _
                (validate_signature outside.hmac s.webhook_secret body
                  (r.header "X-Hub-Signature-256"))
                (λ _. Emits-pure _ tt) λ _. Emits-raise _ _

  handle_webhook-Emits : (r : Request) → Emits Creates (handle_webhook s r)
  unfolding handle_webhook
  handle_webhook-Emits r = Emits-bind _ (Emits-map_err _ _ (Emits-lift _ _)) λ body.
      Emits-bind _ (authenticate-Emits r body) λ _.
        Emits-bind _ (Emits-map_err _ _ (Emits-lift _ _)) λ event.
          Emits-bind-Yields (plan-Emits event) (plan-Yields event)
            λ p planned. create_task-Emits event p planned

  -- Whatever a webhook carries, every task that it creates is pending, in the listener's namespace,
  -- with a prompt, a template and the type "comment" or "pr"; and no status is written, and no
  -- token is minted, stored, checked or deleted.
  pub handle_webhook-Creates :
      (r : Request) (h : List Call) → Adds Creates h (handle_webhook s r h).1
  handle_webhook-Creates r h = (handle_webhook-Emits r).from h
