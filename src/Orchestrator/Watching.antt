-- ===== src/Orchestrator/Watching.antt =====
-- What the watch loop (`Start` of pkg/orchestrator/controller.go) writes, and when it returns.
use cloud_agent.Common.{
  Option, String, ◌&&◌, ◌==◌, none, some, List, [], ◌∷◌, Result, ok, err, ◌≡◌, refl, arith, Keeps,
  Keeps-pure, Keeps-raise, Keeps-call, Keeps-attempt, Keeps-if, Keeps-bind, Keeps-cases, Adds,
  Result-cases, inl, inr, action,
}
use cloud_agent.Api.{AgentTask, Unstructured, from_unstructured}
use cloud_agent.Cluster.{ApiError, Call, not_found, failure}
use cloud_agent.Orchestrator.Basic.{Orchestrator}
use cloud_agent.Orchestrator.Reconcile.{reconcile}
use cloud_agent.Orchestrator.Lifecycle.{Writes, reconcile_lem, reconcile_state-Emits}
use cloud_agent.Orchestrator.Watch.{
  Received, cancelled, task_watch_closed, pod_watch_closed, task_event, pod_event, EventType,
  is_change, is_pod_change, is_running, reconcile_logged, reconcile_listed, handle_task_event,
  handle_pod_event, watch_loop,
}

-- The stop that comes first in a sequence, as `Start` returns it.
abbrev pub first_stop : List Received → Result String (Unit {0})
first_stop [] = ok tt
first_stop (cancelled ∷ more) = err "context canceled"
first_stop (task_watch_closed ∷ more) = err "watch channel closed"
first_stop (pod_watch_closed ∷ more) = err "pod watch channel closed"
first_stop (_ ∷ more) = first_stop more

module _ (o : Orchestrator) where
  open o use {cluster, codec, namespace}

  -- What the goroutine of `Start` adds to a history: the watches that it opens and closes, its
  -- lists, its reads of a task that fail or cannot be parsed, and, behind a read of a task that
  -- could be parsed, what a reconciliation of that task may call, by the state that was read.
  pub data Watches (h : List Call) : List Call → Type 0 where
    begun : Watches h h
    watched :
        {g : List Call} {resource : String}
        → Watches h g
        → Watches h (Call.open_watch resource namespace ∷ g)
    stopped :
        {g : List Call} {resource : String}
        → Watches h g
        → Watches h (Call.close_watch resource namespace ∷ g)
    listed : {g : List Call} → Watches h g → Watches h (Call.list_tasks namespace ∷ g)
    missed :
        {g : List Call} {name : String} {x : ApiError}
        → Watches h g
        → cluster.get_task g namespace name ≡ err x
        → Watches h (Call.get_task namespace name ∷ g)
    unparsed :
        {g : List Call} {name : String} {u : Unstructured} {e : String}
        → Watches h g
        → cluster.get_task g namespace name ≡ ok u
        → from_unstructured codec u ≡ err e
        → Watches h (Call.get_task namespace name ∷ g)
    reconciled :
        {g h' : List Call} {name : String} {u : Unstructured} {t : AgentTask}
        → Watches h g
        → cluster.get_task g namespace name ≡ ok u
        → from_unstructured codec u ≡ ok t
        → Adds (Writes o t.status.state) (Call.get_task namespace name ∷ g) h'
        → Watches h h'

  reconcile_unread :
      (name : String) (g : List Call) (x : ApiError)
      → cluster.get_task g namespace name ≡ err x
      → (reconcile o name g).1 ≡ Call.get_task namespace name ∷ g
  unfolding reconcile action
  reconcile_unread name g (not_found e) lost = ground arith
  reconcile_unread name g (failure e) lost = ground arith

  reconcile_unparsed :
      (name : String) (g : List Call) {u : Unstructured} {e : String}
      → cluster.get_task g namespace name ≡ ok u
      → from_unstructured codec u ≡ err e
      → (reconcile o name g).1 ≡ Call.get_task namespace name ∷ g
  unfolding reconcile action
  reconcile_unparsed name g got unread = ground arith

  module _ (h : List Call) where
    reconcile_watched :
        (name : String) (g : List Call) → Watches h g → Watches h (reconcile o name g).1
    reconcile_watched name g before = elim (Result-cases (cluster.get_task g namespace name)) [
      | inr (x, lost) ↦ rw (reconcile_unread name g x lost) (missed before lost)
      | inl (u, got) ↦ elim (Result-cases (from_unstructured codec u)) [
        | inr (x, unread) ↦ rw (reconcile_unparsed name g got unread) (unparsed before got unread)
        | inl (t, read) ↦
            rw (reconcile_lem o name g got read)
              (reconciled before got read ((reconcile_state-Emits o t.status.state t refl).from _))
      ]
    ]

    reconcile_logged-Keeps : (name : String) → Keeps (Watches h) (reconcile_logged o name)
    unfolding reconcile_logged
    reconcile_logged-Keeps name =
        Keeps-bind _ (Keeps-attempt _ (record { keeps = reconcile_watched name }))
          λ _. Keeps-pure _ tt

    reconcile_listed-Keeps :
        (pod : String) (items : List Unstructured)
        → Keeps (Watches h) (reconcile_listed o pod items)
    unfolding reconcile_listed
    reconcile_listed-Keeps pod [] = Keeps-pure _ tt
    reconcile_listed-Keeps pod (item ∷ items) =
        Keeps-cases _ (from_unstructured codec item)
          (λ task.
            Keeps-if _ (task.status.pod_name == pod && is_running task.status.state)
              (λ _.
                Keeps-bind _ (reconcile_logged-Keeps task.metadata.name)
                  λ _. reconcile_listed-Keeps pod items)
              λ _. reconcile_listed-Keeps pod items)
          λ _. reconcile_listed-Keeps pod items

    handle_task_event-Keeps :
        (e : EventType) (name : Option String) → Keeps (Watches h) (handle_task_event o e name)
    unfolding handle_task_event
    handle_task_event-Keeps e none = Keeps-pure _ tt
    handle_task_event-Keeps e (some name) =
        Keeps-if _ (is_change e) (λ _. reconcile_logged-Keeps name) λ _. Keeps-pure _ tt

    handle_pod_event-Keeps :
        (e : EventType) (pod : Option String) → Keeps (Watches h) (handle_pod_event o e pod)
    unfolding handle_pod_event
    handle_pod_event-Keeps e none = Keeps-pure _ tt
    handle_pod_event-Keeps e (some pod) =
        Keeps-if _ (is_pod_change e)
          (λ _. Keeps-bind _ (Keeps-attempt _ (Keeps-call _ _ λ g before. listed before)) λ found.
            Keeps-cases _ found (λ items. reconcile_listed-Keeps pod items) λ _. Keeps-pure _ tt)
          λ _. Keeps-pure _ tt

    pub watch_loop-Keeps : (received : List Received) → Keeps (Watches h) (watch_loop o received)
    unfolding watch_loop
    watch_loop-Keeps [] = Keeps-pure _ tt
    watch_loop-Keeps (cancelled ∷ more) = Keeps-raise _ _
    watch_loop-Keeps (task_watch_closed ∷ more) = Keeps-raise _ _
    watch_loop-Keeps (pod_watch_closed ∷ more) = Keeps-raise _ _
    watch_loop-Keeps (task_event e name ∷ more) =
        Keeps-bind _ (handle_task_event-Keeps e name) λ _. watch_loop-Keeps more
    watch_loop-Keeps (pod_event e pod ∷ more) =
        Keeps-bind _ (handle_pod_event-Keeps e pod) λ _. watch_loop-Keeps more

  reconcile_logged-ok : (name : String) (h : List Call) → (reconcile_logged o name h).0 ≡ ok tt
  unfolding reconcile_logged action
  reconcile_logged-ok name h = refl

  reconcile_listed-ok :
      (pod : String) (items : List Unstructured) (h : List Call)
      → (reconcile_listed o pod items h).0 ≡ ok tt
  unfolding reconcile_listed action
  reconcile_listed-ok pod [] h = refl
  reconcile_listed-ok pod (item ∷ items) h = elim (Result-cases (from_unstructured codec item)) [
    | inr (x, unread) ↦ ground (arith, reconcile_listed-ok pod items h)
    | inl (task, read) ↦ ground (
      arith,
      reconcile_logged-ok task.metadata.name h,
      reconcile_listed-ok pod items h,
      reconcile_listed-ok pod items (reconcile_logged o task.metadata.name h).1,
    )
  ]

  handle_task_event-ok :
      (e : EventType) (name : Option String) (h : List Call)
      → (handle_task_event o e name h).0 ≡ ok tt
  unfolding handle_task_event action
  handle_task_event-ok e none h = refl
  handle_task_event-ok e (some name) h = ground (arith, reconcile_logged-ok name h)

  handle_pod_event-ok :
      (e : EventType) (pod : Option String) (h : List Call) → (handle_pod_event o e pod h).0 ≡ ok tt
  unfolding handle_pod_event action
  handle_pod_event-ok e none h = refl
  handle_pod_event-ok e (some pod) h = elim (Result-cases (cluster.list_tasks h namespace)) [
    | inr (x, unlisted) ↦ ground arith
    | inl (items, given) ↦
        ground (arith, reconcile_listed-ok pod items (Call.list_tasks namespace ∷ h))
  ]

  -- The watch loop returns what the first stop that it receives says, and runs on without one: no
  -- event, no failed look-up and no failed reconciliation ends it.
  pub watch_loop-first_stop :
      (received : List Received) (h : List Call) → (watch_loop o received h).0 ≡ first_stop received
  unfolding watch_loop action
  watch_loop-first_stop [] h = refl
  watch_loop-first_stop (cancelled ∷ more) h = refl
  watch_loop-first_stop (task_watch_closed ∷ more) h = refl
  watch_loop-first_stop (pod_watch_closed ∷ more) h = refl
  watch_loop-first_stop (task_event e name ∷ more) h = ground (
    arith,
    handle_task_event-ok e name h,
    watch_loop-first_stop more (handle_task_event o e name h).1,
  )
  watch_loop-first_stop (pod_event e pod ∷ more) h = ground (
    arith,
    handle_pod_event-ok e pod h,
    watch_loop-first_stop more (handle_pod_event o e pod h).1,
  )
