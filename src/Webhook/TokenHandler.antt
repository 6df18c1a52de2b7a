-- ===== src/Webhook/TokenHandler.antt =====
-- The handler of token requests (`handleGenerateTokens` of pkg/webhook/listener.go).
use Prim.Native.String.{◌++◌}
use cloud_agent.Common.{
  String, Bool, false, Option, none, some, ◌==◌, ◌&&◌, ◌||◌, if◌then◌else◌, pure, raise, call, lift,
  map_err, asks, ◌>>=◌, ◌>>◌,
}
use cloud_agent.Api.{AgentTask, from_unstructured}
use cloud_agent.Api.Wire.{str, obj, end, field}
use cloud_agent.Webhook.Server.{
  Reply, text, json, abort, Call, Request, ListenerServer, Handler, generate_random_hex,
}
use cloud_agent.Webhook.Tokens.{TokenResponse}

-- `c.JSON(http.StatusOK, resp)`
unfoldable pub token_reply : TokenResponse → Reply
token_reply resp = json 200 (
    obj (
      field "gitHubToken" (str resp.github_token)
        (field "callbackToken" (str resp.callback_token) end)))

unfoldable pub is_orchestrator : String → Option (String × String) → Bool
is_orchestrator secret none = false
is_orchestrator secret (some (username, password)) =
    username == "sandbox-orchestrator" && password == secret

module _ (s : ListenerServer) where
  open s use {outside, codec, namespace, tokens_auth_secret}

  unfoldable pub authorize : Option (String × String) → Handler (Unit {0})
  authorize credentials =
      if tokens_auth_secret == ""
      then pure tt
      else if is_orchestrator tokens_auth_secret credentials
      then pure tt
      else raise (abort 401)

  -- the minted GitHub token, and a stored callback token
  unfoldable pub issue_tokens : String → AgentTask → Handler TokenResponse
  issue_tokens task_id task = do
    let owner = task.spec.repo_owner
    let repo = task.spec.repo_name
    github_token ←
        map_err (λ e. text 500 ("Failed to mint github token: " ++ e))
          (call (Call.mint_token owner repo) (λ h. outside.mint_token h owner repo))
    callback_token ← asks (generate_random_hex outside 16)
    map_err (λ e. text 500 ("Failed to store callback token: " ++ e))
        (call (Call.store_token task_id callback_token)
          (λ h. outside.store_token h task_id callback_token))
    pure (record { github_token = github_token; callback_token = callback_token })

  unfoldable pub handle_generate_tokens : Request → String → Handler Reply
  handle_generate_tokens r task_id = do
    authorize r.basic_auth
    u ←
        map_err (λ _. text 404 ("AgentTask " ++ task_id ++ " not found"))
          (call (Call.get_task namespace task_id) (λ h. outside.get_task h namespace task_id))
    task ← map_err (λ _. text 500 "Failed to parse AgentTask") (lift (from_unstructured codec u))
    if task.spec.repo_owner == "" || task.spec.repo_name == ""
        then raise (text 400 "Missing repository owner or name in spec")
        else pure tt
    resp ← issue_tokens task_id task
    pure (token_reply resp)
