-- ===== src/Webhook/Client.antt =====
-- The client of the webhook listener (pkg/webhook/client.go), as the orchestrator's process and the
-- sandbox server use it, with the listener's URL (pkg/util/util.go).
use Prim.Native.String.{◌++◌}
use cloud_agent.Common.{
  pos, String, none, some, [], ◌∷◌, ◌==◌, nat_eq, if◌then◌else◌, Action, pure, raise, call, lift,
  map_err, ◌>>=◌, ◌>>◌, take_bytes, decimal,
}
use cloud_agent.Api.Wire.{str, obj, end, field}
use cloud_agent.Webhook.Tokens.{TokenResponse, decode_tokens}
use cloud_agent.Cluster.{HttpRequest, HttpResponse, Call, Cluster}

-- `GetEnvWithDefault`
unfoldable pub get_env_with_default : (String → String) → String → String → String
get_env_with_default getenv key default = if getenv key == "" then default else getenv key

-- `GetWebhookListenerURL`
unfoldable pub webhook_listener_url : (String → String) → String → String
unfolding get_env_with_default
webhook_listener_url getenv namespace =
    get_env_with_default getenv "WEBHOOK_LISTENER_URL"
      ("http://webhook-listener." ++ namespace ++ ".svc.cluster.local:8080")

pub record Client : Type 0 where
  pub url : String
  pub auth_username : String
  pub auth_password : String

unfoldable pub new_client : (String → String) → String → Client
new_client getenv base_url = record {
  url = base_url;
  auth_username = "sandbox-orchestrator";
  auth_password = getenv "TOKENS_AUTH_SECRET";
}

-- the request of `Callback`
unfoldable pub callback_request : Client → String → String → String → HttpRequest
callback_request client callback_token task_name response = record {
  method = "POST";
  url = client.url ++ "/callback";
  headers = ("Content-Type", "application/json") ∷ [];
  credentials = none;
  body = some (
      obj (
        field "taskName" (str task_name)
          (field "callbackToken" (str callback_token) (field "response" (str response) end))));
}

module _ (cluster : Cluster) (client : Client) where
  -- the method `do`: any status but 200 is an error
  unfoldable pub send_request : HttpRequest → Action Call String HttpResponse
  send_request request = do
    resp ← call (Call.send request) (λ h. cluster.send h request)
    if nat_eq resp.status 200
        then pure resp
        else raise (
            "API returned status "
            ++ decimal (pos resp.status)
            ++ ": "
            ++ take_bytes 2048 resp.body)

  unfoldable pub generate_tokens : String → Action Call String TokenResponse
  generate_tokens task_id = do
    let url = client.url ++ "/task/" ++ task_id ++ "/tokens"
    map_err (λ e. "failed to create token request: " ++ e) (lift (cluster.parse_url url))
    let request : HttpRequest = record {
      method = "POST";
      url = url;
      headers = [];
      credentials =
          if client.auth_password == ""
          then none
          else some (client.auth_username, client.auth_password);
      body = none;
    }
    resp ← map_err (λ e. "failed to request tokens: " ++ e) (send_request request)
    document ← map_err (λ e. "failed to decode token response: " ++ e) (lift resp.document)
    map_err (λ e. "failed to decode token response: " ++ e) (lift (decode_tokens document))

  -- `Callback`
  unfoldable pub call_back : String → String → String → Action Call String (Unit {0})
  unfolding callback_request
  call_back callback_token task_name response = do
    let request = callback_request client callback_token task_name response
    map_err (λ e. "failed to create callback request: " ++ e) (lift (cluster.parse_url request.url))
    map_err (λ e. "failed to send callback: " ++ e) (send_request request)
    pure tt
