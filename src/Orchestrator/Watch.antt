-- ===== src/Orchestrator/Watch.antt =====
-- The watches of the orchestrator (`Start` of pkg/orchestrator/controller.go). What the `select` of
-- its loop receives is an explicit sequence.
use cloud_agent.Common.{
  String, Bool, true, false, ◌&&◌, Option, none, some, List, [], ◌∷◌, ◌==◌, if◌then◌else◌, Action,
  pure, raise, call, attempt, tell, ◌>>=◌, ◌>>◌, ok, err,
}
use cloud_agent.Api.{AgentTaskState, running, Unstructured, from_unstructured}
use cloud_agent.Cluster.{Call}
use cloud_agent.Orchestrator.Basic.{Orchestrator}
use cloud_agent.Orchestrator.Reconcile.{reconcile}

-- `watch.EventType`; the others are bookmarks and errors.
pub data EventType : Type 0 where
  added modified deleted other : EventType

-- What one round receives: that the context is done, that a channel is closed, or an event with the
-- name of its object, if the object has the type that is expected.
pub data Received : Type 0 where
  cancelled task_watch_closed pod_watch_closed : Received
  task_event pod_event : EventType → Option String → Received

abbrev pub is_change : EventType → Bool
is_change added = true
is_change modified = true
is_change _ = false

abbrev pub is_pod_change : EventType → Bool
is_pod_change deleted = true
is_pod_change e = is_change e

abbrev pub is_running : AgentTaskState → Bool
is_running running = true
is_running _ = false

module _ (o : Orchestrator) where
  open o use {cluster, codec, namespace}

  -- `Reconcile`, whose error is only logged
  unfoldable pub reconcile_logged : String → Action Call String (Unit {0})
  reconcile_logged name = attempt {F = String} (reconcile o name) >> pure tt

  -- the loop over the tasks of a list, for a pod
  unfoldable pub reconcile_listed : String → List Unstructured → Action Call String (Unit {0})
  reconcile_listed pod [] = pure tt
  reconcile_listed pod (item ∷ items) =
      let rest = reconcile_listed pod items in
      elim (from_unstructured codec item) [
        | err _ ↦ rest
        | ok task ↦
            if task.status.pod_name == pod && is_running task.status.state
            then reconcile_logged task.metadata.name >> rest
            else rest
      ]

  unfoldable pub handle_task_event : EventType → Option String → Action Call String (Unit {0})
  handle_task_event e none = pure tt
  handle_task_event e (some name) = if is_change e then reconcile_logged name else pure tt

  unfoldable pub handle_pod_event : EventType → Option String → Action Call String (Unit {0})
  handle_pod_event e none = pure tt
  handle_pod_event e (some pod) =
      if is_pod_change e
      then (do
        listed ← attempt (call (Call.list_tasks namespace) (λ h. cluster.list_tasks h namespace))
        elim listed [ ok items ↦ reconcile_listed pod items | err _ ↦ pure tt ])
      else pure tt

  -- The loop over what is received; it has not returned when the sequence ends.
  unfoldable pub watch_loop : List Received → Action Call String (Unit {0})
  watch_loop [] = pure tt
  watch_loop (cancelled ∷ more) = raise "context canceled"
  watch_loop (task_watch_closed ∷ more) = raise "watch channel closed"
  watch_loop (pod_watch_closed ∷ more) = raise "pod watch channel closed"
  watch_loop (task_event e name ∷ more) = handle_task_event e name >> watch_loop more
  watch_loop (pod_event e pod ∷ more) = handle_pod_event e pod >> watch_loop more

  -- An opened watch is stopped when the function returns; it has not returned while the loop goes
  -- on.
  unfoldable pub stopping : String → Action Call String (Unit {0}) → Action Call String (Unit {0})
  stopping resource body = do
    returned ← attempt {F = String} body
    elim returned [ ok _ ↦ pure tt | err e ↦ tell (Call.close_watch resource namespace) >> raise e ]

  unfoldable pub open_watch : String → Action Call String (Unit {0})
  open_watch resource =
      call (Call.open_watch resource namespace) (λ h. cluster.open_watch h resource namespace)

  unfoldable pub start : List Received → Action Call String (Unit {0})
  start received = do
    open_watch "agenttasks"
    stopping "agenttasks" (open_watch "pods" >> stopping "pods" (watch_loop received))
