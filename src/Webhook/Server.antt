-- ===== src/Webhook/Server.antt =====
-- The webhook listener (pkg/webhook/listener.go): its requests and replies, and what it finds
-- outside itself. Each answer is a function of the calls made before, newest first.
use Prim.Native.Char.{Char}
use cloud_agent.Common.{
  ℕ, ℤ, String, Bool, Option, none, some, List, Result, ok, err, ◌==◌, if◌then◌else◌, Action,
}
use cloud_agent.Api.{Unstructured, Codec}
use cloud_agent.Api.Wire.{Json}
use cloud_agent.Cluster.{ApiError}
use cloud_agent.GitHub.Api.{IssueComment}
use cloud_agent.Webhook.Hex.{encode_hex}

-- `GitHubWebhookEvent`; of the pull request only whether it is there counts.
pub record EventComment : Type 0 where
  pub body : String
  pub user_login : String
  pub user_id : ℤ

pub record GitHubWebhookEvent : Type 0 where
  pub action_name : String
  pub issue_number : ℤ
  pub issue_title : String
  pub issue_body : String
  pub has_pull_request : Bool
  pub comment : Option EventComment
  pub label_name : Option String
  pub sender_login : String
  pub sender_id : ℤ
  pub repository_name : String
  pub owner_login : String

pub record CallbackRequest : Type 0 where
  pub task_name : String
  pub callback_token : String
  pub response : String

pub data Reply : Type 0 where
  text : ℕ → String → Reply
  json : ℕ → Json → Reply
  -- `AbortWithStatus`, behind the header `WWW-Authenticate`
  abort : ℕ → Reply

abbrev pub status : Reply → ℕ
status (text code _) = code
status (json code _) = code
status (abort code) = code

-- The calls of the GitHub client, of the API server and of the token store.
pub data Call : Type 0 where
  get_issue_comments : String → String → ℤ → Call
  post_comment : String → String → ℤ → String → Call
  get_file : String → String → String → Call
  mint_token : String → String → Call
  get_task : String → String → Call
  create_task update_status update : String → Unstructured → Call
  store_token verify_token : String → String → Call
  delete_token : String → Call

-- `github.Client`, the API server and `TokenStore`, then the libraries that the handlers call:
-- the JSON and YAML decoders on the bytes of a body, the mapping of one code point to lower case,
-- HMAC-SHA256, and the random source (`random_bytes n` is `none` where reading fails).
pub record Outside : Type 0 where
  pub get_issue_comments :
      List Call → String → String → ℤ → Result String (List IssueComment × Bool)
  pub post_comment : List Call → String → String → ℤ → String → Result String (Unit {0})
  pub get_file : List Call → String → String → String → Result String (List ℕ)
  pub mint_token : List Call → String → String → Result String String
  pub get_task : List Call → String → String → Result ApiError Unstructured
  pub create_task : List Call → String → Unstructured → Result ApiError Unstructured
  pub update_status : List Call → String → Unstructured → Result ApiError Unstructured
  pub update : List Call → String → Unstructured → Result ApiError Unstructured
  pub store_token : List Call → String → String → Result String (Unit {0})
  pub verify_token : List Call → String → String → Result String Bool
  pub delete_token : List Call → String → Result String (Unit {0})
  pub decode_event : List ℕ → Result String GitHubWebhookEvent
  pub decode_callback : List ℕ → Result String CallbackRequest
  pub decode_config : List ℕ → Result String String
  pub lower : Char → Char
  pub hmac : List ℕ → List ℕ → List ℕ
  pub random_bytes : List Call → ℕ → Option (List ℕ)
  pub getenv : String → String

-- Of a request: what reading its body gives, its headers ("" where there is none), and the
-- credentials of basic authentication.
pub record Request : Type 0 where
  pub body : Result String (List ℕ)
  pub header : String → String
  pub basic_auth : Option (String × String)

-- `ListenerServer`, with `Unstructured`'s methods
pub record ListenerServer : Type 0 where
  pub outside : Outside
  pub codec : Codec
  pub namespace : String
  pub webhook_secret : List ℕ
  pub tokens_auth_secret : String

unfoldable pub new_listener_server : Outside → Codec → String → List ℕ → ListenerServer
new_listener_server outside codec namespace webhook_secret = record {
  outside = outside;
  codec = codec;
  namespace = namespace;
  webhook_secret = webhook_secret;
  tokens_auth_secret = outside.getenv "TOKENS_AUTH_SECRET";
}

-- A handler stops at its first reply, as `c.String(…); return` does.
abbrev pub Handler : Type 0 → Type 0
Handler A = Action Call Reply A

-- the reply, and the calls made
unfoldable pub respond : Handler Reply → List Call → Reply × List Call
respond m h = let (r, h') = m h in elim r [ ok reply ↦ (reply, h') | err reply ↦ (reply, h') ]

-- `generateRandomHex`
unfoldable pub generate_random_hex : Outside → ℕ → List Call → String
unfolding encode_hex
generate_random_hex outside n h = elim (outside.random_bytes h n) [
  | none ↦ "abcd"
  | some bytes ↦ encode_hex bytes
]

-- `getAgentLabel` and `getAgentName`
unfoldable pub get_agent_label : (String → String) → String
get_agent_label getenv = if getenv "AGENT_LABEL" == "" then "cloud-agent" else getenv "AGENT_LABEL"

unfoldable pub get_agent_name : (String → String) → String
get_agent_name getenv =
    if getenv "AGENT_GITHUB_NAME" == "" then "cloud-agent" else getenv "AGENT_GITHUB_NAME"
