-- ===== src/Webhook/Prompt.antt =====
-- The prompt that the webhook listener (pkg/webhook/listener.go) makes of an issue, with the
-- comments that the client of a GitHub App fetches.
use Prim.Native.String.{◌++◌}
use cloud_agent.Common.{
  ◌≤◌, ℤ, String, List, [], ◌∷◌, length, none, some, Option, refl, ok, ◌≡◌, inl, inr, arith, action,
  Result-cases,
}
use cloud_agent.GitHub.Api.{Api, ApiComment}
use cloud_agent.GitHub.App.{AppClient, issue_comment, issue_comments, get_issue_comments}
use cloud_agent.GitHub.Paging.{IsPaged, get_issue_comments_all}
use cloud_agent.Webhook.Server.{GitHubWebhookEvent, ListenerServer, Call}
use cloud_agent.Webhook.Listener.{comment_lines, format_prompt, issue_prompt}

-- The comments of an issue as the lines of its prompt: each with the login of its author, empty
-- when GitHub names none, and with its body, in order.
pub data Lines : List ApiComment → String → Type 0 where
  no_lines : Lines [] ""
  line :
      {comment : ApiComment} {login rest : String} {comments : List ApiComment}
      → comment.user ≡ some login
      → Lines comments rest
      → Lines (comment ∷ comments) ("- [" ++ login ++ "]: " ++ comment.body ++ "\n" ++ rest)
  anonymous_line :
      {comment : ApiComment} {rest : String} {comments : List ApiComment}
      → comment.user ≡ none
      → Lines comments rest
      → Lines (comment ∷ comments) ("- [" ++ "" ++ "]: " ++ comment.body ++ "\n" ++ rest)

line_by :
    (comment : ApiComment) (author : Option String) {rest : String} {comments : List ApiComment}
    → comment.user ≡ author
    → Lines comments rest
    → Lines (comment ∷ comments) (
        "- ["
        ++ (elim author [ none ↦ "" | some login ↦ login ])
        ++ "]: "
        ++ comment.body
        ++ "\n"
        ++ rest)
line_by comment none nobody lines = anonymous_line nobody lines
line_by comment (some login) author lines = line author lines

comment_lines-Lines :
    (comments : List ApiComment) → Lines comments (comment_lines (issue_comments comments))
unfolding comment_lines issue_comments issue_comment
comment_lines-Lines [] = no_lines
comment_lines-Lines (comment ∷ comments) =
    line_by comment comment.user refl (comment_lines-Lines comments)

-- The prompt of an issue, described apart from the code that makes it.
abbrev pub IsPrompt : GitHubWebhookEvent → List ApiComment → String → String → Type 0
IsPrompt event comments suffix prompt =
    (lines : String) × Lines comments lines
    × (prompt
        ≡ ("Issue Title: " ++ event.issue_title ++ "\n\nIssue Body:\n" ++ event.issue_body
            ++ "\n\nComments:\n" ++ lines)
          ++ suffix)

module _ (s : ListenerServer) (api : Api) (c : AppClient)
    (listing : String → String → ℤ → List ApiComment)
    (past : List Call → List cloud_agent.GitHub.Api.Call) where
  open s use {outside}

  -- With GitHub's documented paging and a listener that fetches by the client of a GitHub App: when
  -- there is a prompt, the issue has 30 comments at most, and the prompt is the issue's title and
  -- body, each behind its heading, then one line for each of the comments, in order, with the login
  -- of its author and its whole body, and then the suffix.
  pub issue_prompt_complete :
      IsPaged api listing
      → ((h : List Call) (owner repo : String) (number : ℤ)
          → outside.get_issue_comments h owner repo number
            ≡ (get_issue_comments api c owner repo number (past h)).0)
      → (event : GitHubWebhookEvent) (suffix : String) (h : List Call) (prompt : String)
      → (issue_prompt s event suffix h).0 ≡ ok prompt
      → (length (listing event.owner_login event.repository_name event.issue_number) ≤ 30)
        × IsPrompt event
            (listing event.owner_login event.repository_name event.issue_number)
            suffix
            prompt
  unfolding issue_prompt format_prompt action
  issue_prompt_complete paged fetches event suffix h prompt done =
      let owner = event.owner_login in
      let repo = event.repository_name in
      let number = event.issue_number in
      elim (Result-cases (outside.get_issue_comments h owner repo number)) [
        | inr (e, lost) ↦ absurd (ground arith)
        | inl ((comments, more), fetched) ↦
            let all =
              get_issue_comments_all api c listing paged owner repo number (past h) comments more
                (ground (arith, fetches h owner repo number)) in
            elim all [
              | inl (last, few, same) ↦
                  (few, (_, comment_lines-Lines (listing owner repo number), ground arith))
              | inr (goes_on, many) ↦ absurd (ground arith)
            ]
      ]
