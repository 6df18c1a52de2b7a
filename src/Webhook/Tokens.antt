-- ===== src/Webhook/Tokens.antt =====
-- The answer of the token endpoint (`TokenResponse` of pkg/webhook/listener.go).
use cloud_agent.Common.{String, Result, ok, err}
use cloud_agent.Api.{◌>>=◌}
use cloud_agent.Api.Wire.{Json, null, obj, get_string}

pub record TokenResponse : Type 0 where
  pub github_token : String
  pub callback_token : String

-- `json.NewDecoder(body).Decode(&tokenResp)`
unfoldable pub decode_tokens : Json → Result String TokenResponse
unfolding get_string
decode_tokens (obj fs) = do
  github ← get_string "gitHubToken" fs
  callback ← get_string "callbackToken" fs
  ok (record { github_token = github; callback_token = callback })
decode_tokens null = ok (record { github_token = ""; callback_token = "" })
decode_tokens _ = err "json: cannot unmarshal into Go value of type webhook.TokenResponse"
