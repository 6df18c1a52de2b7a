-- ===== src/Webhook/Authentic.antt =====
-- Which requests the listener acts on (`handleWebhook` and `handleGenerateTokens` of
-- pkg/webhook/listener.go).
use cloud_agent.Common.{
  ℕ, String, false, Option, none, some, List, ok, ◌≡◌, refl, ◌≢◌, arith, action, eq_iff,
}
use cloud_agent.Webhook.Signature.{validate_signature}
use cloud_agent.Webhook.Server.{abort, status, Call, Request, ListenerServer, respond}
use cloud_agent.Webhook.Listener.{authenticate, handle_webhook}
use cloud_agent.Webhook.TokenHandler.{is_orchestrator, authorize, handle_generate_tokens}

same_credentials :
    {username password secret : String}
    → username ≡ "sandbox-orchestrator"
    → password ≡ secret
    → ◌≡◌ {A = Option (String × String)}
        (some (username, password))
        (some ("sandbox-orchestrator", secret))
same_credentials e f = cc

is_orchestrator-false :
    (secret : String) (credentials : Option (String × String))
    → credentials ≢ some ("sandbox-orchestrator", secret)
    → is_orchestrator secret credentials ≡ false
unfolding is_orchestrator
is_orchestrator-false secret none h = refl
is_orchestrator-false secret (some (username, password)) h =
    ground (arith, eq_iff username "sandbox-orchestrator", eq_iff password secret, strange)
  where
    strange : username ≡ "sandbox-orchestrator" → password ≢ secret
    strange e f = h (same_credentials e f)

module _ (s : ListenerServer) (r : Request) (h : List Call) where
  -- With a webhook secret set, a request whose body could be read and whose signature is not valid
  -- is answered by 401, and nothing is called: no task comes of it.
  pub handle_webhook_unsigned :
      (body : List ℕ)
      → r.body ≡ ok body
      → s.webhook_secret ≢ List.[]
      → validate_signature s.outside.hmac s.webhook_secret body (r.header "X-Hub-Signature-256")
        ≡ false
      → (status (respond (handle_webhook s r) h).0 ≡ 401) × ((respond (handle_webhook s r) h).1 ≡ h)
  unfolding handle_webhook authenticate respond action
  handle_webhook_unsigned body read secret invalid = ground arith

  -- With a secret for the token endpoint set, credentials other than the orchestrator's are
  -- answered by 401, and nothing is called: no token is minted and none is stored.
  pub handle_generate_tokens_unauthorized :
      (task_id : String)
      → s.tokens_auth_secret ≢ ""
      → r.basic_auth ≢ some ("sandbox-orchestrator", s.tokens_auth_secret)
      → respond (handle_generate_tokens s r task_id) h ≡ (abort 401, h)
  unfolding handle_generate_tokens authorize respond action
  handle_generate_tokens_unauthorized task_id secret stranger = ground (
    arith,
    eq_iff s.tokens_auth_secret "",
    is_orchestrator-false s.tokens_auth_secret r.basic_auth stranger,
  )
