-- ===== src/Webhook/Issue.antt =====
-- The tokens that `handleGenerateTokens` (pkg/webhook/listener.go) issues.
use cloud_agent.Common.{
  pure, ◌>>=◌, String, true, List, ok, err, ◌≡◌, refl, inl, inr, arith, eq_refl, Result-cases,
  action, ◌∷◌, Result,
}
use cloud_agent.Api.{AgentTask}
use cloud_agent.Api.Wire.{Json, get_string, str, obj, field, end}
use cloud_agent.Webhook.Server.{
  Handler, Call, Reply, json, Request, ListenerServer, generate_random_hex,
}
use cloud_agent.Webhook.Store.{verify_token, tokens_after}
use cloud_agent.Webhook.Lookup.{get_token-store_token}
use cloud_agent.Webhook.Tokens.{TokenResponse, decode_tokens}
use cloud_agent.Webhook.TokenHandler.{token_reply, issue_tokens, handle_generate_tokens}

verify_token-store_token :
    (id token : String) (h : List Call)
    → verify_token id token (tokens_after (Call.store_token id token ∷ h)) ≡ true
unfolding verify_token tokens_after
verify_token-store_token id token h =
    ground (arith, get_token-store_token id id token (tokens_after h), eq_refl id, eq_refl token)

-- the document of a reply
tokens_json : TokenResponse → Json
tokens_json resp = obj (
    field "gitHubToken" (str resp.github_token)
      (field "callbackToken" (str resp.callback_token) end))

decode_tokens-tokens_json : (resp : TokenResponse) → decode_tokens (tokens_json resp) ≡ ok resp
unfolding decode_tokens tokens_json get_string
decode_tokens-tokens_json resp = refl

-- what every result of the last step satisfies
module _ {A B : Type 0} (Q : B → List Call → Type 0) where
  bind_result :
      (r : Result Reply A) (f : A → Handler B) (h h' : List Call) (b : B)
      → ((a : A) (g : List Call) (c : B) → (f a g).0 ≡ ok c → Q c (f a g).1)
      → (((λ _. (r, h')) >>= f) h).0 ≡ ok b
      → Q b (((λ _. (r, h')) >>= f) h).1
  unfolding action
  bind_result (ok a) f h h' b k e = k a h' b e
  bind_result (err x) f h h' b k e = absurd (ground arith)

  bind_last :
      (m : Handler A) (f : A → Handler B) (h : List Call) (b : B)
      → ((a : A) (g : List Call) (c : B) → (f a g).0 ≡ ok c → Q c (f a g).1)
      → ((m >>= f) h).0 ≡ ok b
      → Q b ((m >>= f) h).1
  unfolding action
  bind_last m f h b k e = bind_result (m h).0 f h (m h).1 b k e

module _ (s : ListenerServer) (task_id : String) where
  open s use {outside, namespace, codec}

  -- the tokens of a successful reply, in the encoded form, and what the store then holds
  abbrev pub Issues : Reply → List Call → Type 0
  Issues reply h =
      (document : Json) × (resp : TokenResponse) × (reply ≡ json 200 document)
      × (decode_tokens document ≡ ok resp)
      × (verify_token task_id resp.callback_token (tokens_after h) ≡ true)

  issued :
      (task : AgentTask) (h : List Call) (reply : Reply)
      → ((issue_tokens s task_id task >>= λ resp. pure (token_reply resp)) h).0 ≡ ok reply
      → Issues reply ((issue_tokens s task_id task >>= λ resp. pure (token_reply resp)) h).1
  unfolding issue_tokens token_reply tokens_json action
  issued task h reply e =
      let minted = Call.mint_token task.spec.repo_owner task.spec.repo_name ∷ h in
      let token = generate_random_hex outside 16 minted in
      elim (Result-cases (outside.mint_token h task.spec.repo_owner task.spec.repo_name)) [
        | inr (x, failed) ↦ absurd (ground arith)
        | inl (github, mint) ↦ elim (Result-cases (outside.store_token minted task_id token)) [
          | inr (x, failed) ↦ absurd (ground arith)
          | inl (_, stored) ↦
              let resp : TokenResponse = record { github_token = github; callback_token = token } in
              (
                tokens_json resp,
                resp,
                ground arith,
                decode_tokens-tokens_json resp,
                ground (arith, verify_token-store_token task_id token minted),
              )
        ]
      ]

  -- A reply of the token endpoint that is no refusal has status 200 and carries a document that the
  -- client decodes to tokens, and the in-memory store then confirms the callback token for the
  -- task.
  pub handle_generate_tokens_issues :
      (r : Request) (h : List Call) (reply : Reply)
      → (handle_generate_tokens s r task_id h).0 ≡ ok reply
      → (document : Json) × (resp : TokenResponse) × (reply ≡ json 200 document)
        × (decode_tokens document ≡ ok resp)
        × (verify_token task_id resp.callback_token
              (tokens_after (handle_generate_tokens s r task_id h).1)
            ≡ true)
  unfolding handle_generate_tokens
  handle_generate_tokens_issues r h reply done =
      bind_last Issues _ _ h reply
        (λ _ h1 b1. bind_last Issues _ _ h1 b1 λ u h2 b2.
          bind_last Issues _ _ h2 b2
            λ task h3 b3. bind_last Issues _ _ h3 b3 λ _ h4 b4. issued task h4 b4)
        done
