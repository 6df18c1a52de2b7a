-- ===== src/Webhook/CompletionExamples.antt =====
-- A task's tokens and its callback on a concrete listener.
use cloud_agent.Common.{List, [], ◌∷◌}
use cloud_agent.Api.{Unstructured, task_fields}
use cloud_agent.Api.Wire.{str, insert}
use cloud_agent.Webhook.Server.{Call}
use cloud_agent.Webhook.Callback.{as_completed}
use cloud_agent.Webhook.TokenHandler.{handle_generate_tokens}
use cloud_agent.Webhook.Examples.{server, task, orchestrators}

abbrev completed_object : Unstructured
completed_object = record {
  object = insert "kind" (str "AgentTask") (
      insert "apiVersion" (str "cloudagent.mayurhalai.github.com/v1alpha1")
        (task_fields (as_completed task)));
}

-- another callback asks the store in between
abbrev later : List Call
later =
    Call.verify_token "task-7-ab" "guess"
    ∷ (handle_generate_tokens server orchestrators "task-7-ab" []).1
