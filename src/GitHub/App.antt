-- ===== src/GitHub/App.antt =====
-- The client of a GitHub App (pkg/github/app_client.go).
use Prim.Native.String.{◌++◌}
use cloud_agent.Common.{
  ℕ, ℤ, is_zero, String, Bool, not, nat_eq, none, some, List, [], ◌∷◌, ◌==◌, if◌then◌else◌, Result,
  ok, err, Action, pure, call, lift, attempt, map_err, tell, ◌>>=◌, ◌>>◌,
}
use cloud_agent.GitHub.Api.{AppsTransport, Transport, ApiClient, ApiComment, Call, Api}
use cloud_agent.GitHub.Api.{IssueComment}

pub record AppClient : Type 0 where
  pub app_id : ℤ
  pub private_key_path : String
  pub base_url : String

-- `NewAppClient`
unfoldable pub new_app_client : ℤ → String → Result String AppClient
new_app_client app_id private_key_path =
    if is_zero app_id
    then err "appID cannot be zero"
    else if private_key_path == ""
    then err "privateKeyPath cannot be empty"
    else ok (record { app_id = app_id; private_key_path = private_key_path; base_url = "" })

-- `author` and `Body` of a comment
unfoldable pub issue_comment : ApiComment → IssueComment
issue_comment comment = record {
  author = elim comment.user [ none ↦ "" | some login ↦ login ];
  body = comment.body;
}

unfoldable pub issue_comments : List ApiComment → List IssueComment
issue_comments [] = []
issue_comments (comment ∷ comments) = issue_comment comment ∷ issue_comments comments

module _ (api : Api) (c : AppClient) where
  -- a base URL that is set has to parse
  unfoldable pub check_base_url : Action Call String (Unit {0})
  check_base_url =
      if c.base_url == ""
      then pure tt
      else map_err (λ e. "failed to parse base URL: " ++ e) (lift (api.parse_url c.base_url))

  -- `getInstallationTransport`
  unfoldable pub get_installation_transport : String → String → Action Call String Transport
  get_installation_transport owner repo = do
    key ←
        map_err (λ e. "failed to create apps transport: " ++ e)
          (call (Call.load_key c.app_id c.private_key_path)
            (λ h. api.load_key h c.app_id c.private_key_path))
    check_base_url
    let atr : AppsTransport = record { app_id = c.app_id; private_key = key; base_url = c.base_url }
    let app_client : ApiClient AppsTransport = record { transport = atr; base_url = c.base_url }
    installation ←
        map_err
          (λ e. "failed to find repository installation for " ++ owner ++ "/" ++ repo ++ ": " ++ e)
          (call (Call.find_installation app_client owner repo)
            (λ h. api.find_installation h app_client owner repo))
    pure (record { apps = atr; installation = installation; base_url = c.base_url })

  -- `getInstallationClient`
  unfoldable pub get_installation_client :
      String → String → Action Call String (ApiClient Transport)
  get_installation_client owner repo = do
    itr ← get_installation_transport owner repo
    check_base_url
    pure (record { transport = itr; base_url = c.base_url })

  unfoldable pub post_comment : String → String → ℤ → String → Action Call String (Unit {0})
  post_comment owner repo number body = do
    client ← get_installation_client owner repo
    map_err (λ e. "failed to create comment: " ++ e)
        (call (Call.create_comment client owner repo number body)
          (λ h. api.create_comment h client owner repo number body))

  unfoldable pub get_file : String → String → String → Action Call String (List ℕ)
  get_file owner repo path = do
    client ← get_installation_client owner repo
    map_err (λ e. "failed to download contents: " ++ e)
        (call (Call.download client owner repo path) (λ h. api.download h client owner repo path))
    content ← attempt (
        map_err (λ e. "failed to read downloaded contents: " ++ e)
          (call (Call.read_download client owner repo path)
            (λ h. api.read_download h client owner repo path)))
    tell (Call.close_download client owner repo path)
    lift content

  unfoldable pub mint_installation_token : String → String → Action Call String String
  mint_installation_token owner repo = do
    itr ← get_installation_transport owner repo
    map_err (λ e. "failed to mint installation token: " ++ e)
        (call (Call.mint itr) (λ h. api.mint h itr))

  -- the comments of the first page, and whether there are more
  unfoldable pub get_issue_comments :
      String → String → ℤ → Action Call String (List IssueComment × Bool)
  get_issue_comments owner repo number = do
    client ← get_installation_client owner repo
    page ←
        map_err (λ e. "failed to list comments: " ++ e)
          (call (Call.list_comments client owner repo number 30)
            (λ h. api.list_comments h client owner repo number 30))
    pure (issue_comments page.comments, not (nat_eq page.next_page 0))
