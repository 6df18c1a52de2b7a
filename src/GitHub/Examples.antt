-- ===== src/GitHub/Examples.antt =====
-- The theorems about the clients of GitHub's API on concrete data.
use cloud_agent.Common.{
  ℕ, pos, ℤ, String, not, nat_eq, ltb, none, some, List, [], ◌∷◌, length, ok, err, Result, ◌≡◌,
  refl, sym, Bool-cases, inl, inr, arith, action, if◌then◌else◌,
}
use cloud_agent.GitHub.Api.{ApiComment, Page, Call, Api}
use cloud_agent.GitHub.App.{
  AppClient, new_app_client, check_base_url, get_installation_transport, mint_installation_token,
}
use cloud_agent.GitHub.Installed.{
  Installed, installed, transport_of, mint_installation_token-Installed,
}
use cloud_agent.GitHub.Paging.{IsPaged, take}
use cloud_agent.GitHub.Mock.{new_mock_client, get_file, set_file}
use cloud_agent.GitHub.Files.{found, get_file-set_file}

abbrev pub listing : String → String → ℤ → List ApiComment
listing owner repo number =
    record { user = some "ada"; body = "It fails" }
    ∷ record { user = none; body = "Which page?" }
    ∷ []

abbrev page_of : List ApiComment → ℕ → Page
page_of all size = record {
  comments = take size all;
  next_page = if ltb size (length all) then 2 else 0;
}

abbrev pub api : Api
api = record {
  load_key = λ h app_id path. ok "pem";
  parse_url = λ url. ok tt;
  find_installation = λ h client owner repo. ok (pos 42);
  create_comment = λ h client owner repo number body. ok tt;
  download = λ h client owner repo path. err "404";
  read_download = λ h client owner repo path. err "closed";
  mint = λ h itr. ok "ghs1";
  list_comments = λ h client owner repo number size. ok (page_of (listing owner repo number) size);
}

abbrev pub client : AppClient
client = record { app_id = pos 1; private_key_path = "/etc/key.pem"; base_url = "" }

configured : new_app_client (pos 1) "/etc/key.pem" ≡ ok client
unfolding new_app_client
configured = refl

page_goes_on :
    (all : List ApiComment) (size : ℕ)
    → not (nat_eq (page_of all size).next_page 0) ≡ ltb size (length all)
page_goes_on all size = elim (Bool-cases (ltb size (length all))) [
  | inl over ↦ ground arith
  | inr within ↦ ground arith
]

same_page : (a b : Page) → ◌≡◌ {A = Result String Page} (ok a) (ok b) → a ≡ b
same_page a b e = cc

pub paged : IsPaged api listing
paged = record {
  holds = λ h c owner repo number size page e.
      rw (sym (same_page (page_of (listing owner repo number) size) page e)) refl;
  goes_on = λ h c owner repo number size page e.
      rw (sym (same_page (page_of (listing owner repo number) size) page e))
        (page_goes_on (listing owner repo number) size);
}

mints : (mint_installation_token api client "acme" "site" []).0 ≡ ok "ghs1"
unfolding mint_installation_token get_installation_transport check_base_url action
mints = refl

mint_installation_token-Installed_example :
    (key : String) × (installation : ℤ) × Installed api client "acme" "site" [] key installation
    × (api.mint
          (installed api client "acme" "site" key [])
          (transport_of api client key installation)
        ≡ ok "ghs1")
    × ((mint_installation_token api client "acme" "site" []).1
        ≡ Call.mint (transport_of api client key installation)
          ∷ installed api client "acme" "site" key [])
mint_installation_token-Installed_example =
    mint_installation_token-Installed api client "acme" "site" "ghs1" [] mints

get_file-set_file_example :
    found (
      get_file "acme" "site" "b"
        (set_file "acme" "site" "a" (1 ∷ []) (set_file "acme" "site" "b" (2 ∷ []) new_mock_client)))
    ≡ found (get_file "acme" "site" "b" (set_file "acme" "site" "b" (2 ∷ []) new_mock_client))
unfolding set_file
get_file-set_file_example =
    get_file-set_file (set_file "acme" "site" "b" (2 ∷ []) new_mock_client) "acme" "site" "a" "acme"
      "site" "b" (1 ∷ []) refl
