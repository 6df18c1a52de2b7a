-- ===== src/Orchestrator/Lifecycle.antt =====
-- The lifecycle of a task under `Reconcile`: which states it writes, and from which.
use cloud_agent.Common.{
  String, Bool, true, false, List, ◌∷◌, ok, ◌≡◌, refl, inl, inr, arith, Emits, Emits-pure,
  Emits-raise, Emits-asks, Emits-call, Emits-tell, Emits-attempt, Emits-if, Emits-bind,
  Emits-map_err, Emits-cases, Option-cases, Adds, nothing, added, Adds-trans, action, ◌==◌, ltb_ℤ,
  pos, is_zero,
}
use cloud_agent.Api.{
  AgentTaskState, unset, pending, started, running, completed, failed, deleted, other, AgentTask,
  Unstructured, from_unstructured, to_unstructured,
}
use cloud_agent.Cluster.{not_found, failure, Pod, Call}
use cloud_agent.Orchestrator.Basic.{
  Orchestrator, validate_task, record_event, update_task_status, update_task_state,
}
use cloud_agent.Sandbox.Calls.{Provisions}
use cloud_agent.Orchestrator.Writes.{
  update_task_status-Emits, record_event-Emits, close_sandbox-Emits,
}
use cloud_agent.Orchestrator.Reconcile.{
  first_terminated, without_sandbox, retried, move_to, close_sandbox, reconcile_pending,
  reconcile_started, reconcile_pod, reconcile_running, reconcile_completed, retry_or_give_up,
  reconcile_failed, dispatch, reconcile_unset, reconcile_state, reconcile,
}

-- The documented lifecycle: the states that one step from a state may write. A failed task stays
-- failed while its sandbox is taken away, and is started again by a retry.
abbrev pub leads_to : AgentTaskState → AgentTaskState → Bool
leads_to unset pending = true
leads_to unset started = true
leads_to pending started = true
leads_to running completed = true
leads_to running failed = true
leads_to failed failed = true
leads_to failed started = true
leads_to _ _ = false

module _ (o : Orchestrator) where
  open o use {cluster, codec, namespace}

  -- A call that writes a task's status writes one that the lifecycle allows after `s`.
  abbrev pub Writes : AgentTaskState → Call → Type 0
  Writes s (Call.update_status ns u) =
      (t : AgentTask) × (to_unstructured codec t ≡ ok u) × (leads_to s t.status.state ≡ true)
  Writes s (Call.update ns u) =
      (t : AgentTask) × (to_unstructured codec t ≡ ok u) × (leads_to s t.status.state ≡ true)
  Writes s _ = Unit

  module _ (s : AgentTaskState) where
    writes :
        (t : AgentTask)
        → leads_to s t.status.state ≡ true
        → Emits (Writes s) (update_task_status o t)
    writes t allowed =
        update_task_status-Emits o _ t λ u written. ((t, written, allowed), (t, written, allowed))

    notes :
        (t : AgentTask) (event_type reason text : String)
        → Emits (Writes s) (record_event o {E = String} t event_type reason text)
    notes = record_event-Emits o (Writes s) λ _. tt

    Provisions-Writes : (c : Call) → Provisions c → Writes s c
    Provisions-Writes (Call.create_claim _ _) p = tt
    Provisions-Writes (Call.get_claim _ _) p = tt
    Provisions-Writes (Call.delete_claim _ _) p = tt
    Provisions-Writes (Call.get_sandbox _ _) p = tt
    Provisions-Writes (Call.get_pod _ _) p = tt
    Provisions-Writes _ p = absurd p

    closes : (t : AgentTask) → Emits (Writes s) (close_sandbox o t)
    closes t = close_sandbox-Emits o (Writes s) (λ _. tt) t Provisions-Writes

    move_to-Emits :
        (t : AgentTask) (next : AgentTaskState) (context : String)
        → leads_to s next ≡ true
        → Emits (Writes s) (move_to o t next context)
    unfolding move_to update_task_state
    move_to-Emits t next context allowed =
        Emits-bind _ (Emits-map_err _ _ (writes _ allowed)) λ _. Emits-pure _ tt

    reconcile_pending-Emits :
        (t : AgentTask) → leads_to s started ≡ true → Emits (Writes s) (reconcile_pending o t)
    unfolding reconcile_pending
    reconcile_pending-Emits t allowed =
        Emits-cases _ (validate_task t) (λ _. move_to-Emits t started _ allowed) λ e. notes t _ _ e

    reconcile_started-Emits : (t : AgentTask) → Emits (Writes s) (reconcile_started o t)
    unfolding reconcile_started
    reconcile_started-Emits t = Emits-bind _ (Emits-asks _ _) λ active.
        Emits-if _ active (λ _. Emits-pure _ tt)
          λ _. Emits-bind _ (Emits-tell _ tt) λ _. Emits-tell _ tt

    reconcile_pod-Emits :
        (t : AgentTask) (pod : Pod)
        → leads_to s completed ≡ true
        → leads_to s failed ≡ true
        → Emits (Writes s) (reconcile_pod o t pod)
    unfolding reconcile_pod
    reconcile_pod-Emits t pod done lost =
        elim (Option-cases (first_terminated pod.container_statuses)) [
          | inl alive ↦
              rw (alive, reconcile_pod)
                (Emits-if _ (pod.phase == "Succeeded") (λ _. move_to-Emits t completed _ done)
                  λ _.
                    Emits-if _ (pod.phase == "Failed")
                      (λ _. Emits-bind _ (notes t _ _ _) λ _. move_to-Emits t failed _ lost)
                      λ _. Emits-pure _ tt)
          | inr (code, e) ↦
              rw (e, reconcile_pod)
                (Emits-if _ (is_zero code) (λ _. move_to-Emits t completed _ done)
                  λ _. Emits-bind _ (notes t _ _ _) λ _. move_to-Emits t failed _ lost)
        ]

    reconcile_running-Emits :
        (t : AgentTask)
        → leads_to s completed ≡ true
        → leads_to s failed ≡ true
        → Emits (Writes s) (reconcile_running o t)
    unfolding reconcile_running
    reconcile_running-Emits t done lost =
        Emits-if _ (t.status.pod_name == "") (λ _. Emits-pure _ tt)
          λ _. Emits-bind _ (Emits-attempt _ (Emits-call _ _ tt)) λ got.
            Emits-cases _ got (λ pod. reconcile_pod-Emits t pod done lost)
              (elim [
                | not_found _ ↦ Emits-bind _ (notes t _ _ _) λ _. move_to-Emits t failed _ lost
                | failure e ↦ Emits-raise _ _
              ])

    reconcile_completed-Emits : (t : AgentTask) → Emits (Writes s) (reconcile_completed o t)
    unfolding reconcile_completed
    reconcile_completed-Emits t =
        Emits-bind _
          (Emits-if _ (t.status.sandbox_claim_name == "") (λ _. Emits-pure _ tt) λ _. closes t)
          λ _. Emits-bind _ (Emits-attempt _ (Emits-call _ _ tt)) λ gone.
            Emits-cases _ gone (λ _. Emits-pure _ tt)
              (elim [ not_found _ ↦ Emits-pure _ tt | failure e ↦ Emits-raise _ _ ])

    retry_or_give_up-Emits :
        (t : AgentTask) → leads_to s started ≡ true → Emits (Writes s) (retry_or_give_up o t)
    unfolding retry_or_give_up
    retry_or_give_up-Emits t allowed =
        Emits-if _ (ltb_ℤ t.status.retries (pos o.max_retries))
          (λ _.
            Emits-bind _ (Emits-map_err _ _ (writes (retried t) (unfold retried in allowed)))
              λ _. Emits-pure _ tt)
          λ _. notes t _ _ _

    reconcile_failed-Emits :
        (t : AgentTask)
        → leads_to s t.status.state ≡ true
        → leads_to s started ≡ true
        → Emits (Writes s) (reconcile_failed o t)
    unfolding reconcile_failed
    reconcile_failed-Emits t still again =
        Emits-bind _
          (Emits-if _ (t.status.sandbox_claim_name == "") (λ _. Emits-pure _ t)
            λ _.
              Emits-bind _ (closes t) λ _.
                Emits-map_err _ _ (writes (without_sandbox t) (unfold without_sandbox in still)))
          λ t'. retry_or_give_up-Emits t' again

  dispatch-Emits :
      (s : AgentTaskState) (t : AgentTask) → t.status.state ≡ s → Emits (Writes s) (dispatch o s t)
  unfolding dispatch
  dispatch-Emits unset t e = Emits-pure _ tt
  dispatch-Emits pending t e = reconcile_pending-Emits pending t refl
  dispatch-Emits started t e = reconcile_started-Emits started t
  dispatch-Emits running t e = reconcile_running-Emits running t refl refl
  dispatch-Emits completed t e = reconcile_completed-Emits completed t
  dispatch-Emits failed t e = reconcile_failed-Emits failed t (rw e refl) refl
  dispatch-Emits deleted t e = Emits-pure _ tt
  dispatch-Emits (other x) t e = Emits-pure _ tt

  reconcile_unset-Emits : (t : AgentTask) → Emits (Writes unset) (reconcile_unset o t)
  unfolding reconcile_unset update_task_state
  reconcile_unset-Emits t =
      Emits-bind _ (Emits-map_err _ _ (writes unset _ refl))
        λ t'. reconcile_pending-Emits unset t' refl

  pub reconcile_state-Emits :
      (s : AgentTaskState) (t : AgentTask)
      → t.status.state ≡ s
      → Emits (Writes s) (reconcile_state o s t)
  unfolding reconcile_state
  reconcile_state-Emits unset t e = reconcile_unset-Emits t
  reconcile_state-Emits s t e = dispatch-Emits s t e

-- `Reconcile` on a task that was read handles it behind that read.
pub reconcile_lem :
    (o : Orchestrator) (name : String) (h : List Call) {u : Unstructured} {t : AgentTask}
    → o.cluster.get_task h o.namespace name ≡ ok u
    → from_unstructured o.codec u ≡ ok t
    → reconcile o name h ≡ reconcile_state o t.status.state t (Call.get_task o.namespace name ∷ h)
unfolding reconcile action
reconcile_lem o name h got read = ground arith

-- For a task that could be read and parsed: every status that one reconciliation writes, be it by
-- `UpdateStatus` or by the full `Update` that it falls back to, is one that the lifecycle
-- `leads_to` allows after the state that was read.
pub reconcile-Writes :
    (o : Orchestrator) (name : String) (h : List Call) {u : Unstructured} {t : AgentTask}
    → o.cluster.get_task h o.namespace name ≡ ok u
    → from_unstructured o.codec u ≡ ok t
    → Adds (Writes o t.status.state) h (reconcile o name h).1
reconcile-Writes o name h {t} got read =
    rw (reconcile_lem o name h got read)
      (Adds-trans _ (added tt nothing) ((reconcile_state-Emits o t.status.state t refl).from _))
