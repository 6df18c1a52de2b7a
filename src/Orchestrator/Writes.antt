-- ===== src/Orchestrator/Writes.antt =====
-- Which calls the shared helpers of the orchestrator make, for any predicate on calls.
use cloud_agent.Common.{
  String, ok, ◌≡◌, Emits, Emits-pure, Emits-lift, Emits-call, Emits-attempt, Emits-bind,
  Emits-bind-lift, Emits-map_err, Emits-cases, Emits-raise, Emits-mono,
}
use cloud_agent.Api.{AgentTask, Unstructured, to_unstructured}
use cloud_agent.Cluster.{message, Event, Call}
use cloud_agent.Sandbox.Calls.{Provisions, close-Emits}
use cloud_agent.Orchestrator.Basic.{Orchestrator, record_event, update_task_status}
use cloud_agent.Orchestrator.Reconcile.{sandbox_of, close_sandbox}

module _ (o : Orchestrator) (P : Call → Type 0) where
  open o use {cluster, codec, namespace}

  pub update_task_status-Emits :
      (t : AgentTask)
      → ((u : Unstructured)
          → to_unstructured codec t ≡ ok u
          → P (Call.update_status namespace u) × P (Call.update namespace u))
      → Emits P (update_task_status o t)
  unfolding update_task_status
  update_task_status-Emits t writes = Emits-bind-lift _ λ u written.
      Emits-bind _ (Emits-attempt _ (Emits-call _ _ (writes u written).0)) λ first.
        Emits-bind _
          (Emits-cases _ first (λ u'. Emits-pure _ u')
            λ _. Emits-map_err _ message (Emits-call _ _ (writes u written).1))
          λ updated. Emits-lift _ _

  module _ (noted : (e : Event) → P (Call.create_event e)) where
    pub record_event-Emits :
        {E : Type 0} (t : AgentTask) (event_type reason text : String)
        → Emits P (record_event o {E = E} t event_type reason text)
    unfolding record_event
    record_event-Emits t event_type reason text =
        Emits-bind _ (Emits-attempt _ (Emits-call _ _ (noted _))) λ _. Emits-pure _ tt

    pub close_sandbox-Emits :
        (t : AgentTask) → ((c : Call) → Provisions c → P c) → Emits P (close_sandbox o t)
    unfolding close_sandbox
    close_sandbox-Emits t provides =
        Emits-bind _ (Emits-attempt _ (Emits-mono provides (close-Emits cluster (sandbox_of o t))))
          λ closed.
            Emits-cases _ closed (λ _. Emits-pure _ tt)
              λ e. Emits-bind _ (record_event-Emits _ _ _ _) λ _. Emits-raise _ _
