-- ===== src/GitHub/Api.antt =====
-- What the client of a GitHub App (pkg/github/app_client.go) calls: go-github and ghinstallation.
-- Each answer is a function of the calls made before, newest first. A base URL is "" where none is
-- set, and the libraries then use their own.
use cloud_agent.Common.{ℕ, ℤ, String, Option, List, Result}

-- `ghinstallation.AppsTransport`, with the private key that was read for it
pub record AppsTransport : Type 0 where
  pub app_id : ℤ
  pub private_key : String
  pub base_url : String

-- `ghinstallation.Transport`
pub record Transport : Type 0 where
  pub apps : AppsTransport
  pub installation : ℤ
  pub base_url : String

-- `github.Client`, over either of the transports
pub record ApiClient (T : Type 0) : Type 0 where
  pub transport : T
  pub base_url : String

-- Of `github.IssueComment`: the login of its user if it has one, and its body.
pub record ApiComment : Type 0 where
  pub user : Option String
  pub body : String

-- A page of comments, and the number of the next page, 0 on the last.
pub record Page : Type 0 where
  pub comments : List ApiComment
  pub next_page : ℕ

-- `IssueComment` of pkg/github/client.go
pub record IssueComment : Type 0 where
  pub author : String
  pub body : String

pub data Call : Type 0 where
  load_key : ℤ → String → Call
  find_installation : ApiClient AppsTransport → String → String → Call
  create_comment : ApiClient Transport → String → String → ℤ → String → Call
  download read_download close_download : ApiClient Transport → String → String → String → Call
  mint : Transport → Call
  list_comments : ApiClient Transport → String → String → ℤ → ℕ → Call

pub record Api : Type 0 where
  -- `NewAppsTransportKeyFromFile`: the private key
  pub load_key : List Call → ℤ → String → Result String String
  pub parse_url : String → Result String (Unit {0})
  -- `Apps.FindRepositoryInstallation`: the installation's number
  pub find_installation : List Call → ApiClient AppsTransport → String → String → Result String ℤ
  pub create_comment :
      List Call → ApiClient Transport → String → String → ℤ → String → Result String (Unit {0})
  -- `Repositories.DownloadContents`, and `io.ReadAll` of what it opens
  pub download :
      List Call → ApiClient Transport → String → String → String → Result String (Unit {0})
  pub read_download :
      List Call → ApiClient Transport → String → String → String → Result String (List ℕ)
  -- `Transport.Token`
  pub mint : List Call → Transport → Result String String
  -- `Issues.ListComments`: the first page, of the size given
  pub list_comments : List Call → ApiClient Transport → String → String → ℤ → ℕ → Result String Page
