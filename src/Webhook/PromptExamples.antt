-- ===== src/Webhook/PromptExamples.antt =====
-- The prompt of an issue on a concrete listener.
use cloud_agent.Common.{◌≤◌, pos, String, [], ok, length, ◌≡◌, refl, action}
use cloud_agent.GitHub.App.{
  issue_comment, issue_comments, check_base_url, get_installation_transport,
  get_installation_client, get_issue_comments,
}
use cloud_agent.GitHub.Examples.{listing, api, client, paged}
use cloud_agent.Webhook.Server.{ListenerServer}
use cloud_agent.Webhook.Listener.{format_prompt, comment_lines, issue_prompt}
use cloud_agent.Webhook.Examples.{server, event}
use cloud_agent.Webhook.Prompt.{IsPrompt, issue_prompt_complete}

-- the listener of the examples, with the client of a GitHub App
abbrev fetching : ListenerServer
fetching = record server {
  outside = record server.outside {
    get_issue_comments =
        λ h owner repo number. (get_issue_comments api client owner repo number []).0;
  };
}

abbrev prompt : String
prompt =
    "Issue Title: Broken link\n\nIssue Body:\n\n\nComments:\n- [ada]: It fails\n- []: Which page?\n"

prompts : (issue_prompt fetching event "" []).0 ≡ ok prompt
unfolding issue_prompt action get_issue_comments issue_comments issue_comment
    get_installation_client get_installation_transport check_base_url format_prompt comment_lines
prompts = refl

issue_prompt_complete_example :
    (length (listing "acme" "site" (pos 7)) ≤ 30)
    × IsPrompt event (listing "acme" "site" (pos 7)) "" prompt
issue_prompt_complete_example =
    issue_prompt_complete fetching api client listing (λ h. []) paged (λ h owner repo number. refl)
      event "" [] prompt prompts
