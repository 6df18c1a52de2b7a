-- ===== src/Orchestrator/Retries.antt =====
-- Retries stay within the limit.
use cloud_agent.Common.{
  true, ok, ◌≡◌, refl, ◌⊎◌, inl, inr, arith, pos, ltb_ℤ, ◌≤ℤ◌, ◌==◌, Emits, Emits-pure, Emits-if,
  Emits-bind, Emits-map_err,
}
use cloud_agent.Api.{failed, started, AgentTask, to_unstructured}
use cloud_agent.Cluster.{Call}
use cloud_agent.Sandbox.Calls.{Provisions}
use cloud_agent.Orchestrator.Basic.{Orchestrator}
use cloud_agent.Orchestrator.Reconcile.{
  without_sandbox, retried, retry_or_give_up, reconcile_failed,
}
use cloud_agent.Orchestrator.Writes.{
  update_task_status-Emits, record_event-Emits, close_sandbox-Emits,
}

module _ (o : Orchestrator) where
  open o use {codec, max_retries}

  -- What may be written over a failed task: a failed one, or one that is started again with a count
  -- of retries within the limit. The task itself is never deleted.
  abbrev pub Budgeted : Call → Type 0
  Budgeted (Call.update_status _ u) =
      (t : AgentTask) × (to_unstructured codec t ≡ ok u)
      × ((t.status.state ≡ failed)
          ⊎ ((t.status.state ≡ started) × (t.status.retries ≤ℤ pos max_retries)))
  Budgeted (Call.update _ u) =
      (t : AgentTask) × (to_unstructured codec t ≡ ok u)
      × ((t.status.state ≡ failed)
          ⊎ ((t.status.state ≡ started) × (t.status.retries ≤ℤ pos max_retries)))
  Budgeted (Call.delete_task _ _) = ⊥
  Budgeted _ = Unit

  Provisions-Budgeted : (c : Call) → Provisions c → Budgeted c
  Provisions-Budgeted (Call.create_claim _ _) p = tt
  Provisions-Budgeted (Call.get_claim _ _) p = tt
  Provisions-Budgeted (Call.delete_claim _ _) p = tt
  Provisions-Budgeted (Call.get_sandbox _ _) p = tt
  Provisions-Budgeted (Call.get_pod _ _) p = tt
  Provisions-Budgeted _ p = absurd p

  retried-le :
      (t : AgentTask)
      → ltb_ℤ t.status.retries (pos max_retries) ≡ true
      → ((retried t).status.state ≡ started) × ((retried t).status.retries ≤ℤ pos max_retries)
  unfolding retried
  retried-le t h = (refl, ground arith)

  retry_or_give_up-Emits : (t : AgentTask) → Emits Budgeted (retry_or_give_up o t)
  unfolding retry_or_give_up
  retry_or_give_up-Emits t =
      Emits-if _ (ltb_ℤ t.status.retries (pos max_retries))
        (λ left.
          Emits-bind _
            (Emits-map_err _ _ (
              update_task_status-Emits o _ (retried t) λ u written. (
                (retried t, written, inr (retried-le t left)),
                (retried t, written, inr (retried-le t left)),
              )))
            λ _. Emits-pure _ tt)
        λ _. record_event-Emits o Budgeted (λ _. tt) t _ _ _

  -- Whatever the API server answers, and whatever it returns for the task between the two writes,
  -- the reconciliation of a failed task starts it again only with a count of retries within the
  -- limit, writes it otherwise only as failed, and does not delete it.
  pub reconcile_failed-Budgeted :
      (t : AgentTask) → t.status.state ≡ failed → Emits Budgeted (reconcile_failed o t)
  unfolding reconcile_failed
  reconcile_failed-Budgeted t still =
      Emits-bind _
        (Emits-if _ (t.status.sandbox_claim_name == "") (λ _. Emits-pure _ t)
          λ _. Emits-bind _ (close_sandbox-Emits o Budgeted (λ _. tt) t Provisions-Budgeted) λ _.
            Emits-map_err _ _ (
              update_task_status-Emits o _ (without_sandbox t) λ u written. (
                (without_sandbox t, written, inl (unfold without_sandbox in still)),
                (without_sandbox t, written, inl (unfold without_sandbox in still)),
              )))
        λ t'. retry_or_give_up-Emits t'
