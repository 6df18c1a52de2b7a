-- ===== src/GitHub/Paging.antt =====
-- The comments that the client of a GitHub App (pkg/github/app_client.go) fetches: one page of 30.
use cloud_agent.Common.{
  ℕ, zero, suc, ◌<◌, ◌≤◌, ℤ, String, Bool, true, false, not, nat_eq, ltb, List, [], ◌∷◌, length,
  Result, ok, ◌≡◌, ◌⊎◌, inl, inr, refl, sym, ap, ◌∙◌, arith, bind_ok, call_step, carried,
  pure_result, Bool-cases,
}
use cloud_agent.GitHub.Api.{Transport, ApiClient, ApiComment, Page, IssueComment, Call, Api}
use cloud_agent.GitHub.App.{AppClient, issue_comments, get_issue_comments}

-- the first elements, as many as there are of `n`
abbrev pub take {ℓ} : {A : Type ℓ} → ℕ → List A → List A
take zero _ = []
take (suc n) [] = []
take (suc n) (x ∷ xs) = x ∷ take n xs

take-all : {A : Type 0} (n : ℕ) (xs : List A) → length xs ≤ n → take n xs ≡ xs
take-all zero [] fits = refl
take-all zero (x ∷ xs) fits = absurd (omega arith)
take-all (suc n) [] fits = refl
take-all (suc n) (x ∷ xs) fits = ap (λ ys. x ∷ ys) (take-all n xs (omega arith))

-- What GitHub documents of a first page: its size bounds it, it starts the list of all comments,
-- and another page is named exactly when the list goes on.
pub record IsPaged (api : Api) (listing : String → String → ℤ → List ApiComment) : Type 0 where
  pub holds :
      (h : List Call) (client : ApiClient Transport) (owner repo : String) (number : ℤ) (size : ℕ)
      (page : Page)
      → api.list_comments h client owner repo number size ≡ ok page
      → page.comments ≡ take size (listing owner repo number)
  pub goes_on :
      (h : List Call) (client : ApiClient Transport) (owner repo : String) (number : ℤ) (size : ℕ)
      (page : Page)
      → api.list_comments h client owner repo number size ≡ ok page
      → not (nat_eq page.next_page 0) ≡ ltb size (length (listing owner repo number))

-- the comments fetched are all there are, or there are more than 30
abbrev pub Fetched : List ApiComment → List IssueComment → Bool → Type 0
Fetched all comments more =
    ((more ≡ false) × (length all ≤ 30) × (comments ≡ issue_comments all))
    ⊎ ((more ≡ true) × (30 < length all))

page-Fetched :
    (all page : List ApiComment) (goes_on : Bool) (comments : List IssueComment) (more : Bool)
    → page ≡ take 30 all
    → goes_on ≡ ltb 30 (length all)
    → ◌≡◌ {A = Result String (List IssueComment × Bool)}
        (ok (issue_comments page, goes_on))
        (ok (comments, more))
    → Fetched all comments more
page-Fetched all page goes_on comments more begun on done =
    elim (Bool-cases (ltb 30 (length all))) [
      | inl over ↦ inr (ground arith, ground arith)
      | inr within ↦
          let few : length all ≤ 30 = ground arith in
          inl (ground arith, few, ground (arith, take-all 30 all few))
    ]

module _ (api : Api) (c : AppClient) (listing : String → String → ℤ → List ApiComment)
    (paged : IsPaged api listing) where
  -- With GitHub's documented paging: the comments that were fetched are all those of the issue, or
  -- there are more than 30 of them and the client says so.
  pub get_issue_comments_all :
      (owner repo : String) (number : ℤ) (h : List Call) (comments : List IssueComment)
      (more : Bool)
      → (get_issue_comments api c owner repo number h).0 ≡ ok (comments, more)
      → Fetched (listing owner repo number) comments more
  unfolding get_issue_comments
  get_issue_comments_all owner repo number h comments more done =
      let (client, got, e1) = bind_ok _ _ h (comments, more) done in
      let done1 = carried _ e1 done in
      let (page, listed, e2) = call_step _ _ _ _ _ (comments, more) done1 in
      let done2 = ap (λ o. o.0) (sym (pure_result _ _)) ∙ carried _ e2 done1 in
      page-Fetched _ _ _ _ _ (paged.holds _ client owner repo number 30 page listed)
        (paged.goes_on _ client owner repo number 30 page listed) done2
