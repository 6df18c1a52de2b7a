-- ===== src/Programs/Configured.antt =====
-- Which clients the webhook listener (cmd/webhook-listener/main.go) serves with.
use cloud_agent.Common.{
  ℤ, is_zero, String, false, ◌==◌, ok, ◌≡◌, sym, ◌≢◌, ◌⊎◌, inl, inr, arith, eq_iff, Result-cases,
  Bool-cases,
}
use cloud_agent.GitHub.App.{new_app_client}
use cloud_agent.GitHub.Mock.{new_mock_client}
use cloud_agent.Programs.Listener.{
  Platform, GitHubClient, app, mock, StoreChoice, redis_at, memory, Listening, github_client,
  new_redis_token_store, token_store, listening_on, set_up,
}

module _ (p : Platform) where
  open p use {getenv}

  -- The mock client, where one of the variables is missing, or a client of the App that they name.
  abbrev pub GitHubConfigured : GitHubClient → Type 0
  GitHubConfigured github =
      (((getenv "GITHUB_APP_ID" ≡ "") ⊎ (getenv "GITHUB_APP_PRIVATE_KEY_PATH" ≡ ""))
        × (github ≡ mock new_mock_client))
      ⊎ ((n : ℤ) × (p.parse_int (getenv "GITHUB_APP_ID") ≡ ok n)
          × (is_zero n ≡ false)
          × (getenv "GITHUB_APP_PRIVATE_KEY_PATH" ≢ "")
          × (github
              ≡ app (record {
                app_id = n;
                private_key_path = getenv "GITHUB_APP_PRIVATE_KEY_PATH";
                base_url = "";
              })))

  abbrev pub StoreConfigured : StoreChoice → Type 0
  StoreConfigured store =
      ((getenv "REDIS_URL" ≡ "") × (store ≡ memory))
      ⊎ ((getenv "REDIS_URL" ≢ "")
          × (p.parse_redis_url (getenv "REDIS_URL") ≡ ok tt)
          × (store ≡ redis_at (getenv "REDIS_URL")))

  github_client-GitHubConfigured :
      (github : GitHubClient) → github_client p ≡ ok github → GitHubConfigured github
  unfolding github_client new_app_client
  github_client-GitHubConfigured github done = elim (Bool-cases (getenv "GITHUB_APP_ID" == "")) [
    | inl unset ↦ inl (inl (ground (arith, eq_iff (getenv "GITHUB_APP_ID") "")), ground arith)
    | inr set ↦ elim (Bool-cases (getenv "GITHUB_APP_PRIVATE_KEY_PATH" == "")) [
      | inl unset ↦
          inl (inr (ground (arith, eq_iff (getenv "GITHUB_APP_PRIVATE_KEY_PATH") "")), ground arith)
      | inr path ↦ elim (Result-cases (p.parse_int (getenv "GITHUB_APP_ID"))) [
        | inr (e, bad) ↦ absurd (ground arith)
        | inl (n, parsed) ↦ elim (Bool-cases (is_zero n)) [
          | inl zero_id ↦ absurd (ground arith)
          | inr real ↦ inr (
            n,
            parsed,
            real,
            (λ e. ground (arith, eq_iff (getenv "GITHUB_APP_PRIVATE_KEY_PATH") "")),
            ground arith,
          )
        ]
      ]
    ]
  ]

  token_store-StoreConfigured :
      (store : StoreChoice) → token_store p ≡ ok store → StoreConfigured store
  unfolding token_store new_redis_token_store
  token_store-StoreConfigured store done = elim (Bool-cases (getenv "REDIS_URL" == "")) [
    | inl unset ↦ inl (ground (arith, eq_iff (getenv "REDIS_URL") ""), ground arith)
    | inr set ↦ elim (Result-cases (p.parse_redis_url (getenv "REDIS_URL"))) [
      | inr (e, bad) ↦ absurd (ground arith)
      | inl (_, parsed) ↦
          inr ((λ e. ground (arith, eq_iff (getenv "REDIS_URL") "")), parsed, ground arith)
    ]
  ]

  -- A listener that gets to serve works for a GitHub App exactly as its variables say, and falls
  -- back to the mock client only where one of them is missing; its tokens are in Redis if a URL is
  -- set, which then parses, and in memory otherwise.
  pub set_up-Configured :
      (port : ℤ) (namespace : String) (listening : Listening)
      → set_up p port namespace ≡ ok listening
      → GitHubConfigured listening.github × StoreConfigured listening.store
  unfolding set_up
  set_up-Configured port namespace listening done = elim (Result-cases p.in_cluster_config) [
    | inr (e, bad) ↦ absurd (ground arith)
    | inl (_, config) ↦ elim (Result-cases p.kubernetes) [
      | inr (e, bad) ↦ absurd (ground arith)
      | inl (_, kubernetes) ↦ elim (Result-cases p.dynamic) [
        | inr (e, bad) ↦ absurd (ground arith)
        | inl (_, dynamic) ↦ elim (Result-cases (github_client p)) [
          | inr (e, bad) ↦ absurd (ground arith)
          | inl (github, chosen) ↦ elim (Result-cases (token_store p)) [
            | inr (e, bad) ↦ absurd (ground arith)
            | inl (store, kept) ↦
                let same : listening_on p port namespace github store ≡ listening = ground arith in
                rw (sym same) (
                  github_client-GitHubConfigured github chosen,
                  token_store-StoreConfigured store kept,
                )
          ]
        ]
      ]
    ]
  ]
