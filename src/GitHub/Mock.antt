-- ===== src/GitHub/Mock.antt =====
-- The mock client (`MockClient` of pkg/github/client.go), which the listener uses where no GitHub
-- App is configured. Its mutex is left out: each operation is one step.
use Prim.Native.String.{◌++◌}
use cloud_agent.Common.{
  ℕ, ℤ, String, Bool, false, Option, none, some, List, [], ◌∷◌, ◌==◌, if◌then◌else◌, Result, ok,
  err, eq_ℤ,
}
use cloud_agent.GitHub.Api.{IssueComment}

-- A map from texts, as its pairs.
abbrev pub Map : Type 0 → Type 0
Map A = List (String × A)

module _ {A : Type 0} where
  unfoldable pub lookup : String → Map A → Option A
  lookup key [] = none
  lookup key ((k, v) ∷ m) = if k == key then some v else lookup key m

  -- `m[key] = value`
  unfoldable pub insert : String → A → Map A → Map A
  insert key value [] = (key, value) ∷ []
  insert key value ((k, v) ∷ m) = if k == key then (key, value) ∷ m else (k, v) ∷ insert key value m

  -- `m[key]`, or an empty map that is stored there first
  abbrev pub or_empty : Option (Map A) → Map A
  or_empty none = []
  or_empty (some m) = m

pub record MockComment : Type 0 where
  pub owner : String
  pub repo : String
  pub issue_number : ℤ
  pub body : String

-- `files` is `none` where the map is nil; a nil map of issue comments is read as an empty one.
pub record MockClient : Type 0 where
  pub comments : List MockComment
  pub files : Option (Map (Map (Map (List ℕ))))
  pub minted_token : String
  pub minted_token_err : Option String
  pub get_file_err : Option String
  pub issue_comments : List (ℤ × List IssueComment)
  pub issue_comments_err : Option String
  pub has_more_comments : Bool

-- `&github.MockClient{}`
abbrev pub new_mock_client : MockClient
new_mock_client = record {
  comments = [];
  files = none;
  minted_token = "";
  minted_token_err = none;
  get_file_err = none;
  issue_comments = [];
  issue_comments_err = none;
  has_more_comments = false;
}

appended : {A : Type 0} → List A → A → List A
appended [] x = x ∷ []
appended (y ∷ ys) x = y ∷ appended ys x

unfoldable pub post_comment : String → String → ℤ → String → MockClient → MockClient
unfolding appended
post_comment owner repo number body m = record m {
  comments =
      appended m.comments
        (record { owner = owner; repo = repo; issue_number = number; body = body });
}

unfoldable pub get_comments : MockClient → List MockComment
get_comments m = m.comments

-- a file among those of the client
unfoldable pub find_file :
    String → String → String → Option (Map (Map (Map (List ℕ)))) → Result String (List ℕ)
unfolding lookup
find_file owner repo path none = err ("file not found: " ++ path)
find_file owner repo path (some files) = elim (lookup owner files) [
  | none ↦ err ("repository not found: " ++ owner ++ "/" ++ repo)
  | some repo_files ↦ elim (lookup repo repo_files) [
    | none ↦ err ("repository not found: " ++ owner ++ "/" ++ repo)
    | some repo_paths ↦ elim (lookup path repo_paths) [
      | none ↦ err ("file not found: " ++ path)
      | some content ↦ ok content
    ]
  ]
]

unfoldable pub get_file : String → String → String → MockClient → Result String (List ℕ)
get_file owner repo path m = elim m.get_file_err [
  | some e ↦ err e
  | none ↦ find_file owner repo path m.files
]

unfoldable pub mint_installation_token : String → String → MockClient → Result String String
mint_installation_token owner repo m = elim m.minted_token_err [
  | some e ↦ err e
  | none ↦ if m.minted_token == "" then ok "mock-github-installation-token" else ok m.minted_token
]

unfoldable pub set_file : String → String → String → List ℕ → MockClient → MockClient
unfolding lookup insert
set_file owner repo path content m =
    let files = or_empty m.files in
    let repo_files = or_empty (lookup owner files) in
    let repo_paths = or_empty (lookup repo repo_files) in
    record m {
      files = some (insert owner (insert repo (insert path content repo_paths) repo_files) files);
    }

unfoldable pub set_minted_token : String → MockClient → MockClient
set_minted_token token m = record m { minted_token = token }

unfoldable pub comments_of : ℤ → List (ℤ × List IssueComment) → Option (List IssueComment)
comments_of number [] = none
comments_of number ((n, comments) ∷ m) =
    if eq_ℤ n number then some comments else comments_of number m

unfoldable pub put_comments :
    ℤ → List IssueComment → List (ℤ × List IssueComment) → List (ℤ × List IssueComment)
put_comments number comments [] = (number, comments) ∷ []
put_comments number comments ((n, old) ∷ m) =
    if eq_ℤ n number then (number, comments) ∷ m else (n, old) ∷ put_comments number comments m

unfoldable pub get_issue_comments : ℤ → MockClient → Result String (List IssueComment × Bool)
unfolding comments_of
get_issue_comments number m = elim m.issue_comments_err [
  | some e ↦ err e
  | none ↦ elim (comments_of number m.issue_comments) [
    | none ↦ ok ([], false)
    | some comments ↦ ok (comments, m.has_more_comments)
  ]
]

unfoldable pub set_issue_comments : ℤ → List IssueComment → Bool → MockClient → MockClient
unfolding put_comments
set_issue_comments number comments has_more m = record m {
  issue_comments = put_comments number comments m.issue_comments;
  has_more_comments = has_more;
}
