-- ===== src/Webhook/Completion.antt =====
-- A callback that the listener (pkg/webhook/listener.go) takes, with the token that it issued.
use cloud_agent.Common.{String, List, ◌∷◌, ok, ◌≡◌, ◌≢◌}
use cloud_agent.Api.{AgentTask, Unstructured, from_unstructured, to_unstructured}
use cloud_agent.Webhook.Server.{Call, ListenerServer}
use cloud_agent.Webhook.Callback.{as_completed}
use cloud_agent.Webhook.Store.{verify_token, tokens_after}

-- A call that neither stores nor deletes a token of the task.
abbrev pub Spares : String → Call → Type 0
Spares id (Call.store_token other _) = other ≢ id
Spares id (Call.delete_token other) = other ≢ id
Spares id _ = Unit

module _ (s : ListenerServer) (task : AgentTask) where
  open s use {outside, namespace, codec}

  -- The listener finds the task, has the in-memory store, and GitHub and the API server answer
  -- without errors.
  pub record IsServing (id response : String) (u : Unstructured) : Type 0 where
    pub finds :
        (h : List Call)
        → (v : Unstructured) × (outside.get_task h namespace id ≡ ok v)
          × (from_unstructured codec v ≡ ok task)
    pub verifies :
        (h : List Call) (token : String)
        → outside.verify_token h id token ≡ ok (verify_token id token (tokens_after h))
    pub deletes : (h : List Call) → outside.delete_token h id ≡ ok tt
    pub posts :
        (h : List Call)
        → outside.post_comment h task.spec.repo_owner task.spec.repo_name task.spec.issue_number
            response
          ≡ ok tt
    pub writes : to_unstructured codec (as_completed task) ≡ ok u
    pub updates :
        (h : List Call) → (v : Unstructured) × (outside.update_status h namespace u ≡ ok v)

  abbrev pub completion :
      (id response : String) (u : Unstructured) (token : String) (h : List Call) → List Call
  completion id response u token h =
      Call.update_status namespace u
      ∷ Call.post_comment task.spec.repo_owner task.spec.repo_name task.spec.issue_number response
      ∷ Call.delete_token id
      ∷ Call.verify_token id token
      ∷ Call.get_task namespace id
      ∷ h
