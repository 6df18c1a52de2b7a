-- ===== src/Orchestrator/WatchExamples.antt =====
-- The watch loop on concrete events.
use cloud_agent.Common.{some, List, [], ◌∷◌, ok, err, ◌≡◌, refl, ◌⊎◌, ◌==◌, if◌then◌else◌, action}
use cloud_agent.Api.{running}
use cloud_agent.Samples.{task_in, stored, exited_pod, cluster_with, orchestrator_on}
use cloud_agent.Orchestrator.Basic.{Orchestrator}
use cloud_agent.Orchestrator.Watch.{
  Received, task_event, pod_event, pod_watch_closed, modified, deleted, watch_loop,
}
use cloud_agent.Cluster.{Call}
use cloud_agent.Orchestrator.Watch.{stopping, open_watch, start}
use cloud_agent.Orchestrator.Watching.{Watches, first_stop}
use cloud_agent.Orchestrator.Starting.{start-Watches, opened_tasks, opened, start_returns}

abbrev o : Orchestrator
o =
    orchestrator_on
      (cluster_with (stored (task_in running "claim-1" "pod-1")) (ok exited_pod) (ok tt))

abbrev received : List Received
received =
    task_event modified (some "task-7-ab")
    ∷ pod_event deleted (some "pod-1")
    ∷ pod_watch_closed
    ∷ []

start-Watches_example : Watches o [] (start o received []).1
start-Watches_example = start-Watches o received []

-- the pods cannot be watched
abbrev blind : Orchestrator
blind = record o {
  cluster = record o.cluster {
    open_watch = λ h resource ns. if resource == "pods" then err "forbidden" else ok tt;
  };
}

refused : (start blind received []).0 ≡ err "forbidden"
unfolding start stopping open_watch action
refused = refl

start_returns_example :
    ((blind.cluster.open_watch [] "agenttasks" "agents" ≡ err "forbidden")
      × ((start blind received []).1 ≡ opened_tasks blind []))
    ⊎ ((blind.cluster.open_watch (opened_tasks blind []) "pods" "agents" ≡ err "forbidden")
        × ((start blind received []).1 ≡ Call.close_watch "agenttasks" "agents" ∷ opened blind []))
    ⊎ ((first_stop received ≡ err "forbidden")
        × ((start blind received []).1
            ≡ Call.close_watch "agenttasks" "agents"
              ∷ Call.close_watch "pods" "agents"
              ∷ (watch_loop blind received (opened blind [])).1))
start_returns_example = start_returns blind received [] "forbidden" refused
