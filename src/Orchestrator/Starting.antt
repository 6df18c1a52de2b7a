-- ===== src/Orchestrator/Starting.antt =====
-- How the orchestrator's `Start` (pkg/orchestrator/controller.go) runs and returns.
use cloud_agent.Common.{
  String, List, ◌∷◌, err, ◌≡◌, ◌⊎◌, inl, inr, arith, Action, action, Keeps, Keeps-pure, Keeps-raise,
  Keeps-call, Keeps-attempt, Keeps-tell, Keeps-bind, Keeps-cases, Result-cases,
}
use cloud_agent.Cluster.{Call}
use cloud_agent.Orchestrator.Basic.{Orchestrator}
use cloud_agent.Orchestrator.Watch.{Received, watch_loop, stopping, open_watch, start}
use cloud_agent.Orchestrator.Watching.{
  Watches, begun, watched, stopped, first_stop, watch_loop-Keeps, watch_loop-first_stop,
}

module _ (o : Orchestrator) where
  open o use {cluster, namespace}

  module _ (h : List Call) where
    stopping-Keeps :
        (resource : String) {body : Action Call String (Unit {0})}
        → Keeps (Watches o h) body
        → Keeps (Watches o h) (stopping o resource body)
    unfolding stopping
    stopping-Keeps resource keeps = Keeps-bind _ (Keeps-attempt _ keeps) λ returned.
        Keeps-cases _ returned (λ _. Keeps-pure _ tt)
          λ e. Keeps-bind _ (Keeps-tell _ λ g before. stopped before) λ _. Keeps-raise _ _

    open_watch-Keeps : (resource : String) → Keeps (Watches o h) (open_watch o resource)
    unfolding open_watch
    open_watch-Keeps resource = Keeps-call _ _ λ g before. watched before

  -- Whatever events the watches deliver, in whatever order, and whatever is answered, the goroutine
  -- that runs `Start` makes the calls of `Watches` only: its writes of a status come from
  -- reconciliations, and what one of these writes is a step of the lifecycle `leads_to` from the
  -- state that it has just read. The submission goroutines that it launches are apart.
  pub start-Watches :
      (received : List Received) (h : List Call) → Watches o h (start o received h).1
  unfolding start
  start-Watches received h = whole.keeps h begun
    where
      whole : Keeps (Watches o h) (start o received)
      whole = Keeps-bind _ (open_watch-Keeps h _) λ _. stopping-Keeps h _ (
          Keeps-bind _ (open_watch-Keeps h _)
            λ _. stopping-Keeps h _ (watch_loop-Keeps o h received))

  abbrev pub opened_tasks : List Call → List Call
  opened_tasks h = Call.open_watch "agenttasks" namespace ∷ h

  abbrev pub opened : List Call → List Call
  opened h = Call.open_watch "pods" namespace ∷ opened_tasks h

  -- `Start` returns an error in three ways: the watch of the tasks does not open; that of the pods
  -- does not, and the first is stopped; or the loop, which received a stop, returns what that says,
  -- and both watches are stopped, the later one first. No failed look-up or reconciliation makes it
  -- return.
  pub start_returns :
      (received : List Received) (h : List Call) (e : String)
      → (start o received h).0 ≡ err e
      → ((cluster.open_watch h "agenttasks" namespace ≡ err e)
          × ((start o received h).1 ≡ opened_tasks h))
        ⊎ ((cluster.open_watch (opened_tasks h) "pods" namespace ≡ err e)
            × ((start o received h).1 ≡ Call.close_watch "agenttasks" namespace ∷ opened h))
        ⊎ ((first_stop received ≡ err e)
            × ((start o received h).1
                ≡ Call.close_watch "agenttasks" namespace
                  ∷ Call.close_watch "pods" namespace
                  ∷ (watch_loop o received (opened h)).1))
  unfolding start stopping open_watch action
  start_returns received h e returned =
      elim (Result-cases (cluster.open_watch h "agenttasks" namespace)) [
        | inr (x, closed) ↦ inl (ground arith, ground arith)
        | inl (_, tasks) ↦
            inr (elim (Result-cases (cluster.open_watch (opened_tasks h) "pods" namespace)) [
              | inr (x, closed) ↦ inl (ground arith, ground arith)
              | inl (_, pods) ↦ inr (elim (Result-cases (watch_loop o received (opened h)).0) [
                | inl (_, on) ↦ absurd (ground arith)
                | inr (x, ended) ↦
                    (ground (arith, watch_loop-first_stop o received (opened h)), ground arith)
              ])
            ])
      ]
