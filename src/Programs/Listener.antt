-- ===== src/Programs/Listener.antt =====
-- The set-up of the webhook listener's program (cmd/webhook-listener/main.go): which clients it
-- serves with.
use Prim.Native.String.{◌++◌}
use cloud_agent.Common.{ℤ, decimal, String, ◌||◌, ◌==◌, if◌then◌else◌, Result, ok, err}
use cloud_agent.Api.{◌>>=◌}
use cloud_agent.GitHub.App.{AppClient, new_app_client}
use cloud_agent.GitHub.Mock.{MockClient, new_mock_client}

-- What the program calls of the libraries: the clients of Kubernetes (`rest.InClusterConfig` and
-- each `NewForConfig`), `strconv.ParseInt`, `redis.ParseURL`, and a text in the quotes of `%q`.
pub record Platform : Type 0 where
  pub in_cluster_config : Result String (Unit {0})
  pub kubernetes : Result String (Unit {0})
  pub dynamic : Result String (Unit {0})
  pub getenv : String → String
  pub parse_int : String → Result String ℤ
  pub parse_redis_url : String → Result String (Unit {0})
  pub quote : String → String

pub data GitHubClient : Type 0 where
  app : AppClient → GitHubClient
  mock : MockClient → GitHubClient

-- which token store, and at which URL
pub data StoreChoice : Type 0 where
  redis_at : String → StoreChoice
  memory : StoreChoice

pub record Listening : Type 0 where
  pub github : GitHubClient
  pub store : StoreChoice
  pub namespace : String
  pub webhook_secret : String
  pub addr : String

-- the message of `log.Fatalf`
abbrev pub or_fatal : {A : Type 0} → String → Result String A → Result String A
or_fatal context (ok a) = ok a
or_fatal context (err e) = err (context ++ e)

module _ (p : Platform) where
  open p use {getenv}

  unfoldable pub github_client : Result String GitHubClient
  github_client =
      let app_id = getenv "GITHUB_APP_ID" in
      let private_key_path = getenv "GITHUB_APP_PRIVATE_KEY_PATH" in
      if app_id == "" || private_key_path == "" then ok (mock new_mock_client) else (do
        n ← or_fatal "Invalid GITHUB_APP_ID: " (p.parse_int app_id)
        client ← or_fatal "Failed to create GitHub App client: " (new_app_client n private_key_path)
        ok (app client))

  -- `NewRedisTokenStore`
  unfoldable pub new_redis_token_store : String → Result String StoreChoice
  new_redis_token_store url = elim (p.parse_redis_url url) [
    | ok _ ↦ ok (redis_at url)
    | err e ↦ err ("failed to parse Redis URL " ++ p.quote url ++ ": " ++ e)
  ]

  unfoldable pub token_store : Result String StoreChoice
  token_store =
      let url = getenv "REDIS_URL" in
      if url == ""
      then ok memory
      else or_fatal "Failed to initialize Redis token store: " (new_redis_token_store url)

  -- the arguments of `NewListenerServer`, and the address
  abbrev pub listening_on : ℤ → String → GitHubClient → StoreChoice → Listening
  listening_on port namespace github store = record {
    github = github;
    store = store;
    namespace = namespace;
    webhook_secret = getenv "GITHUB_APP_WEBHOOK_SECRET";
    addr = ":" ++ decimal port;
  }

  -- `main` of the listener until it serves, by the flags
  unfoldable pub set_up : ℤ → String → Result String Listening
  set_up port namespace = do
    _ ← or_fatal "Error building kubeconfig: " p.in_cluster_config
    _ ← or_fatal "Error building kubernetes clientset: " p.kubernetes
    _ ← or_fatal "Error building dynamic client: " p.dynamic
    github ← github_client
    store ← token_store
    ok (listening_on port namespace github store)

  -- `main`, which ends in an error: of the set-up, or of `ListenAndServe`
  unfoldable pub main :
      (Listening → Result String (Unit {0})) → ℤ → String → Result String (Unit {0})
  main serve port namespace = do
    listening ← set_up port namespace
    or_fatal "HTTP server failed: " (serve listening)
