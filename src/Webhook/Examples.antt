-- ===== src/Webhook/Examples.antt =====
-- The webhook listener's theorems on a concrete server.
use Prim.Native.String.{◌++◌}
use cloud_agent.Common.{
  ne_empty, false, cut_prefix, pos, String, true, none, some, List, [], ◌∷◌, ok, err, ◌≡◌, refl,
  ◌≢◌, ◌↔◌, arith, ◌==◌, action, Adds, nothing, Option, ◌⊎◌, Result, if◌then◌else◌,
}
use cloud_agent.Api.{AgentTask, running, from_unstructured, task_fields, state_text, state_of_text}
use cloud_agent.Api.Wire.{Json, obj, str, field, end}
use cloud_agent.Samples.{codec, task_in, stored}
use cloud_agent.Webhook.Hex.{decode_hex}
use cloud_agent.Webhook.Signature.{validate_signature, validate_signature_iff}
use cloud_agent.Webhook.Server.{
  generate_random_hex, Call, Outside, Request, ListenerServer, CallbackRequest, GitHubWebhookEvent,
  text, json, abort, status, respond,
}
use cloud_agent.Webhook.Store.{get_token, verify_token, tokens_after}
use cloud_agent.Webhook.Tokens.{TokenResponse, decode_tokens}
use cloud_agent.Webhook.Listener.{handle_webhook}
use cloud_agent.Webhook.TokenHandler.{
  authorize, is_orchestrator, issue_tokens, token_reply, handle_generate_tokens,
}
use cloud_agent.Webhook.Callback.{presented_token, accept_callback}
use cloud_agent.Webhook.Authentic.{handle_webhook_unsigned, handle_generate_tokens_unauthorized}
use cloud_agent.Webhook.Creation.{Creates, handle_webhook-Creates}
use cloud_agent.Webhook.Redeem.{InMemory, accept_callback_unconfirmed, accept_callback_once}
use cloud_agent.Webhook.Issue.{handle_generate_tokens_issues}

-- the task "task-7-ab", running
abbrev pub task : AgentTask
task = task_in running "claim-1" "pod-1"

abbrev pub event : GitHubWebhookEvent
event = record {
  action_name = "labeled";
  issue_number = pos 7;
  issue_title = "Broken link";
  issue_body = "";
  has_pull_request = false;
  comment = none;
  label_name = some "cloud-agent";
  sender_login = "ada";
  sender_id = pos 1;
  repository_name = "site";
  owner_login = "acme";
}

-- An outside with the in-memory store, where a comment fails when `comments` says so.
abbrev outside_with : Result String (Unit {0}) → Outside
outside_with comments = record {
  get_issue_comments = λ h owner repo n. ok ([], false);
  post_comment = λ h owner repo n body. comments;
  get_file = λ h owner repo path. err "404";
  mint_token = λ h owner repo. ok "g";
  get_task = λ h ns name. ok (stored task);
  create_task = λ h ns u. ok u;
  update_status = λ h ns u. ok u;
  update = λ h ns u. ok u;
  store_token = λ h id token. ok tt;
  verify_token = λ h id token. ok (verify_token id token (tokens_after h));
  delete_token = λ h id. ok tt;
  decode_event = λ bytes. ok event;
  decode_callback = λ bytes. err "no callback";
  decode_config = λ bytes. err "no config";
  lower = λ c. c;
  hmac = λ secret payload. 18 ∷ 255 ∷ [];
  random_bytes = λ h n. some (1 ∷ 2 ∷ []);
  getenv = λ key. "";
}

abbrev server_with : Result String (Unit {0}) → ListenerServer
server_with comments = record {
  outside = outside_with comments;
  codec = codec;
  namespace = "agents";
  webhook_secret = 115 ∷ [];
  tokens_auth_secret = "pw";
}

abbrev pub server : ListenerServer
server = server_with (ok tt)

abbrev request : String → Option (String × String) → Request
request signature credentials = record {
  body = ok (123 ∷ 125 ∷ []);
  header = λ name. if name == "X-Hub-Signature-256" then signature else "";
  basic_auth = credentials;
}

validate_signature_iff_example :
    (validate_signature server.outside.hmac [] [] "sha256=12FF" ≡ true) ↔ (
      (hex : String) × ("sha256=12FF" ≡ "sha256=" ++ hex) × (decode_hex hex ≡ some (18 ∷ 255 ∷ [])))
validate_signature_iff_example = validate_signature_iff server.outside.hmac [] [] "sha256=12FF"

secret_set : server.webhook_secret ≢ []
secret_set e = cc

forged :
    validate_signature server.outside.hmac server.webhook_secret (123 ∷ 125 ∷ []) "sha256=12ff00"
    ≡ false
unfolding validate_signature decode_hex cut_prefix
forged = refl

handle_webhook_unsigned_example :
    (status (respond (handle_webhook server (request "sha256=12ff00" none)) []).0 ≡ 401)
    × ((respond (handle_webhook server (request "sha256=12ff00" none)) []).1 ≡ [])
handle_webhook_unsigned_example =
    handle_webhook_unsigned server (request "sha256=12ff00" none) [] (123 ∷ 125 ∷ []) refl
      secret_set forged

handle_generate_tokens_unauthorized_example :
    respond (handle_generate_tokens server (request "" none) "task-7-ab") [] ≡ (abort 401, [])
handle_generate_tokens_unauthorized_example =
    handle_generate_tokens_unauthorized server (request "" none) [] "task-7-ab" (ne_empty _ refl)
      (λ e. absurd cc)

handle_webhook-Creates_example :
    Adds (Creates server) [] (handle_webhook server (request "sha256=12ff" none) []).1
handle_webhook-Creates_example = handle_webhook-Creates server (request "sha256=12ff" none) []

abbrev callback : CallbackRequest
callback = record { task_name = "task-7-ab"; callback_token = ""; response = "done" }

-- the orchestrator has stored a token
abbrev issued : List Call
issued = Call.store_token "task-7-ab" "c1" ∷ []

refused :
    server.outside.verify_token
      (Call.get_task "agents" "task-7-ab" ∷ issued)
      "task-7-ab"
      (presented_token "Bearer guess" callback)
    ≢ ok true
unfolding verify_token presented_token tokens_after get_token cut_prefix
refused e = absurd (ground arith)

accept_callback_unconfirmed_example :
    let seen = Call.get_task "agents" "task-7-ab" ∷ issued in
    let after = (respond (accept_callback server "Bearer guess" callback) issued).1 in
    (after ≡ seen)
    ⊎ (after ≡ Call.verify_token "task-7-ab" (presented_token "Bearer guess" callback) ∷ seen)
accept_callback_unconfirmed_example =
    accept_callback_unconfirmed server "Bearer guess" callback issued refused

-- GitHub refuses the comment
abbrev failing : ListenerServer
failing = server_with (err "rate limit")

in_memory : InMemory failing "task-7-ab"
unfolding from_unstructured task_fields state_text state_of_text
in_memory = ((λ h token. refl), (λ h. refl), λ h. (stored task, task, refl, refl))

valid : verify_token "task-7-ab" (presented_token "Bearer c1" callback) (tokens_after issued) ≡ true
unfolding verify_token presented_token tokens_after get_token cut_prefix
valid = refl

presented : presented_token "Bearer c1" callback ≢ ""
unfolding presented_token cut_prefix
presented = ne_empty _ refl

abbrev after_failure : List Call
after_failure = (respond (accept_callback failing "Bearer c1" callback) issued).1

-- the retry of a callback whose comment failed
accept_callback_once_example :
    respond (accept_callback failing "Bearer c1" callback) after_failure ≡ (
      text 401 "Invalid callback token",
      Call.verify_token "task-7-ab" (presented_token "Bearer c1" callback)
          ∷ Call.get_task "agents" "task-7-ab"
          ∷ after_failure,
    )
accept_callback_once_example =
    accept_callback_once failing callback callback "Bearer c1" "Bearer c1" issued after_failure
      in_memory refl presented presented valid nothing

abbrev pub orchestrators : Request
orchestrators = request "" (some ("sandbox-orchestrator", "pw"))

abbrev pub reply_document : Json
reply_document = obj (field "gitHubToken" (str "g") (field "callbackToken" (str "0102") end))

pub replies :
    (handle_generate_tokens server orchestrators "task-7-ab" []).0 ≡ ok (json 200 reply_document)
unfolding handle_generate_tokens action authorize is_orchestrator from_unstructured task_fields
    state_text issue_tokens token_reply generate_random_hex
replies = refl

handle_generate_tokens_issues_example :
    (document : Json) × (resp : TokenResponse) × (json 200 reply_document ≡ json 200 document)
    × (decode_tokens document ≡ ok resp)
    × (verify_token "task-7-ab" resp.callback_token
          (tokens_after (handle_generate_tokens server orchestrators "task-7-ab" []).1)
        ≡ true)
handle_generate_tokens_issues_example =
    handle_generate_tokens_issues server "task-7-ab" orchestrators [] (json 200 reply_document)
      replies
