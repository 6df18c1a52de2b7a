-- ===== src/GitHub/Installed.antt =====
-- Through which installation the client of a GitHub App (pkg/github/app_client.go) works.
use cloud_agent.Common.{
  ℤ, String, List, ◌∷◌, Result, ok, ◌≡◌, ap, ◌∙◌, inl, inr, arith, ◌==◌, Action, map_err, action,
  ◌>>=◌, bind_ok, bind_known, call, call_step, carried, pure_result, Bool-cases, Result-cases,
}
use cloud_agent.GitHub.Api.{AppsTransport, Transport, ApiClient, Call, Api}
use cloud_agent.GitHub.App.{
  AppClient, check_base_url, get_installation_transport, get_installation_client, post_comment,
  mint_installation_token,
}

module _ (api : Api) (c : AppClient) where
  -- The calls that lead to a transport: the key is read, and GitHub is asked by it for the
  -- installation.
  abbrev pub app_client_of : String → ApiClient AppsTransport
  app_client_of key = record {
    transport = record { app_id = c.app_id; private_key = key; base_url = c.base_url };
    base_url = c.base_url;
  }

  abbrev pub installed : String → String → String → List Call → List Call
  installed owner repo key h =
      Call.find_installation (app_client_of key) owner repo
      ∷ Call.load_key c.app_id c.private_key_path
      ∷ h

  abbrev pub transport_of : String → ℤ → Transport
  transport_of key installation = record {
    apps = (app_client_of key).transport;
    installation = installation;
    base_url = c.base_url;
  }

  abbrev pub client_of : String → ℤ → ApiClient Transport
  client_of key installation = record {
    transport = transport_of key installation;
    base_url = c.base_url;
  }

  -- GitHub names the installation for the repository, to the app whose key was read.
  abbrev pub Installed : String → String → List Call → String → ℤ → Type 0
  Installed owner repo h key installation =
      (api.load_key h c.app_id c.private_key_path ≡ ok key)
      × (api.find_installation (Call.load_key c.app_id c.private_key_path ∷ h) (app_client_of key)
            owner repo
          ≡ ok installation)

  check_base_url-call :
      {A : Type 0} (f : Action Call String A) (h : List Call) (a : A)
      → ((check_base_url api c >>= λ _. f) h).0 ≡ ok a
      → (check_base_url api c >>= λ _. f) h ≡ f h
  unfolding check_base_url action
  check_base_url-call f h a done = elim (Bool-cases (c.base_url == "")) [
    | inl none_set ↦ ground arith
    | inr one_set ↦ elim (Result-cases (api.parse_url c.base_url)) [
      | inl (parsed, e) ↦ ground arith
      | inr (x, e) ↦ absurd (ground arith)
    ]
  ]

  transport_installed :
      (owner repo : String) (h : List Call) (itr : Transport)
      → (get_installation_transport api c owner repo h).0 ≡ ok itr
      → (key : String) × (installation : ℤ) × Installed owner repo h key installation
        × (get_installation_transport api c owner repo h
            ≡ (ok (transport_of key installation), installed owner repo key h))
  unfolding get_installation_transport
  transport_installed owner repo h itr done =
      let (key, reads, e1) = call_step _ _ _ _ h itr done in
      let done1 = carried _ e1 done in
      let e2 = check_base_url-call _ _ itr done1 in
      let done2 = carried _ e2 done1 in
      let (installation, finds, e3) = call_step _ _ _ _ _ itr done2 in
      (key, installation, (reads, finds), e1 ∙ e2 ∙ e3 ∙ pure_result _ _)

  client_installed :
      (owner repo : String) (h : List Call) (client : ApiClient Transport)
      → (get_installation_client api c owner repo h).0 ≡ ok client
      → (key : String) × (installation : ℤ) × Installed owner repo h key installation
        × (get_installation_client api c owner repo h
            ≡ (ok (client_of key installation), installed owner repo key h))
  unfolding get_installation_client
  client_installed owner repo h client done =
      let (itr, got, _) = bind_ok _ _ h client done in
      let (key, installation, named, e) = transport_installed owner repo h itr got in
      let e1 = bind_known _ _ e in
      let done1 = carried _ e1 done in
      let e2 = check_base_url-call _ _ client done1 in
      (key, installation, named, e1 ∙ e2 ∙ pure_result _ _)

  call_last :
      {A : Type 0} (g : String → String) (x : Call) (answer : List Call → Result String A)
      (h : List Call) (a : A)
      → (map_err g (call x answer) h).0 ≡ ok a
      → (answer h ≡ ok a) × (map_err g (call x answer) h ≡ (ok a, x ∷ h))
  unfolding action
  call_last g x answer h a done = elim (Result-cases (answer h)) [
    | inl (b, e) ↦ (ground arith, ground arith)
    | inr (y, e) ↦ absurd (ground arith)
  ]

  -- A comment that was posted went to the issue by a client for the installation that GitHub named
  -- for the repository, after the key of the app was read and by nothing but these three calls.
  pub post_comment-Installed :
      (owner repo : String) (number : ℤ) (body : String) (h : List Call)
      → (post_comment api c owner repo number body h).0 ≡ ok tt
      → (key : String) × (installation : ℤ) × Installed owner repo h key installation
        × ((post_comment api c owner repo number body h).1
            ≡ Call.create_comment (client_of key installation) owner repo number body
              ∷ installed owner repo key h)
  unfolding post_comment
  post_comment-Installed owner repo number body h done =
      let (client, got, _) = bind_ok _ _ h tt done in
      let (key, installation, named, e) = client_installed owner repo h client got in
      let e1 = bind_known _ _ e in
      let (_, e2) = call_last _ _ _ _ tt (carried _ e1 done) in
      (key, installation, named, ap (λ o. o.1) (e1 ∙ e2))

  -- A token that was minted is what GitHub issues for the installation that it named for the
  -- repository.
  pub mint_installation_token-Installed :
      (owner repo token : String) (h : List Call)
      → (mint_installation_token api c owner repo h).0 ≡ ok token
      → (key : String) × (installation : ℤ) × Installed owner repo h key installation
        × (api.mint (installed owner repo key h) (transport_of key installation) ≡ ok token)
        × ((mint_installation_token api c owner repo h).1
            ≡ Call.mint (transport_of key installation) ∷ installed owner repo key h)
  unfolding mint_installation_token
  mint_installation_token-Installed owner repo token h done =
      let (itr, got, _) = bind_ok _ _ h token done in
      let (key, installation, named, e) = transport_installed owner repo h itr got in
      let e1 = bind_known _ _ e in
      let (minted, e2) = call_last _ _ _ _ token (carried _ e1 done) in
      (key, installation, named, minted, ap (λ o. o.1) (e1 ∙ e2))
