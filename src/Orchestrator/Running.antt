-- ===== src/Orchestrator/Running.antt =====
-- How the state of the sandbox's pod decides the fate of a running task.
use mathlib.Core.Path.{subst}
use cloud_agent.Common.{
  String, true, false, Option, none, some, List, [], ◌∷◌, Result, ok, err, ◌≡◌, refl, ◌≢◌, inl, inr,
  arith, ◌⊎◌, ◌==◌, eq_iff, pos, is_zero, action, ◌>>◌, Option-cases, ℤ, Bool-cases, Result-cases,
}
use cloud_agent.Api.{AgentTaskState, completed, failed, AgentTask}
use cloud_agent.Cluster.{not_found, Event, Pod, Call}
use cloud_agent.Orchestrator.Basic.{Orchestrator, event_of, record_event, update_task_state}
use cloud_agent.Orchestrator.Reconcile.{first_terminated, move_to, reconcile_pod, reconcile_running}

-- The first container that has exited did so with this code.
pub data Exited (code : ℤ) : List (Option ℤ) → Type 0 where
  first : {more : List (Option ℤ)} → Exited code (some code ∷ more)
  later : {more : List (Option ℤ)} → Exited code more → Exited code (none ∷ more)

-- The pod's outcome: an exit code counts before the phase.
pub data Outcome (pod : Pod) : AgentTaskState → Type 0 where
  exit_zero : Exited (pos 0) pod.container_statuses → Outcome pod completed
  exit_nonzero : (code : ℤ) → code ≢ pos 0 → Exited code pod.container_statuses → Outcome pod failed
  succeeded :
      ((code : ℤ) → ¬ Exited code pod.container_statuses)
      → pod.phase ≡ "Succeeded"
      → Outcome pod completed
  phase_failed :
      ((code : ℤ) → ¬ Exited code pod.container_statuses)
      → pod.phase ≡ "Failed"
      → Outcome pod failed

Exited-first_terminated :
    (code : ℤ) (statuses : List (Option ℤ))
    → Exited code statuses
    → first_terminated statuses ≡ some code
unfolding first_terminated
Exited-first_terminated code _ first = refl
Exited-first_terminated code (none ∷ more) (later e) = Exited-first_terminated code more e

first_terminated-Exited :
    (code : ℤ) (statuses : List (Option ℤ))
    → first_terminated statuses ≡ some code
    → Exited code statuses
unfolding first_terminated
first_terminated-Exited code [] e = cc
first_terminated-Exited code (some c ∷ more) e =
    let same : c ≡ code = cc in subst (λ x. Exited x (some c ∷ more)) same first
first_terminated-Exited code (none ∷ more) e = later (first_terminated-Exited code more e)

not-Exited_of_none :
    (statuses : List (Option ℤ))
    → first_terminated statuses ≡ none
    → (code : ℤ) → ¬ Exited code statuses
not-Exited_of_none statuses e code x = absurd-some (Exited-first_terminated code statuses x) e
  where
    absurd-some : first_terminated statuses ≡ some code → first_terminated statuses ≡ none → ⊥
    absurd-some p q = cc

first_terminated-none :
    (statuses : List (Option ℤ))
    → ((code : ℤ) → ¬ Exited code statuses)
    → first_terminated statuses ≡ none
first_terminated-none statuses alive = elim (Option-cases (first_terminated statuses)) [
  | inl e ↦ e
  | inr (code, e) ↦ absurd (alive code (first_terminated-Exited code statuses e))
]

ne→eq_false : (s : String) → s ≢ "" → (s == "") ≡ false
ne→eq_false s h = ground (arith, eq_iff s "")

is_zero-ne : (n : ℤ) → n ≢ pos 0 → is_zero n ≡ false
is_zero-ne n h = ground arith

is_zero-eq : (n : ℤ) → is_zero n ≡ true → n ≡ pos 0
is_zero-eq n h = ground arith

is_zero-eq-false : (n : ℤ) → is_zero n ≡ false → n ≢ pos 0
is_zero-eq-false n h = ground arith

Exited-Outcome :
    (pod : Pod) (code : ℤ)
    → Exited code pod.container_statuses
    → (s : AgentTaskState) × Outcome pod s
Exited-Outcome pod code x = elim (Bool-cases (is_zero code)) [
  | inl zero ↦
      (completed, exit_zero (subst (λ c. Exited c pod.container_statuses) (is_zero-eq code zero) x))
  | inr more ↦ (failed, exit_nonzero code (is_zero-eq-false code more) x)
]

module _ (o : Orchestrator) (t : AgentTask) where
  -- what a reconciliation that moves a task to a state does behind a history
  abbrev pub Moved : AgentTaskState → List Call → Result String (Unit {0}) × List Call → Type 0
  Moved s h (r, h') =
      (h'' : List Call) × ((h'' ≡ h) ⊎ ((e : Event) × (h'' ≡ Call.create_event e ∷ h)))
      × (h' ≡ (update_task_state o t s h'').1)
      × (((t' : AgentTask) × ((update_task_state o t s h'').0 ≡ ok t')) ⊎ (r ≢ ok tt))

  module _ (h : List Call) where
    move_to-Moved : (s : AgentTaskState) (context : String) → Moved s h (move_to o t s context h)
    unfolding move_to action
    move_to-Moved s context = (
      h,
      inl refl,
      ground arith,
      elim (Result-cases (update_task_state o t s h).0) [
        | inl (t', written) ↦ inl (t', written)
        | inr (e, broken) ↦ inr (ground arith)
      ],
    )

    noted-Moved :
        (s : AgentTaskState) (context reason text : String)
        → Moved s h ((record_event o t "Warning" reason text >> move_to o t s context) h)
    unfolding move_to record_event action
    noted-Moved s context reason text =
        let e = event_of t "Warning" reason text in
        (
          Call.create_event e ∷ h,
          inr (e, refl),
          ground arith,
          elim (Result-cases (update_task_state o t s (Call.create_event e ∷ h)).0) [
            | inl (t', written) ↦ inl (t', written)
            | inr (x, broken) ↦ inr (ground arith)
          ],
        )

  module _ (pod : Pod) (h : List Call) where
    reconcile_pod-Moved : (s : AgentTaskState) → Outcome pod s → Moved s h (reconcile_pod o t pod h)
    unfolding reconcile_pod
    reconcile_pod-Moved _ (exit_zero x) =
        rw (Exited-first_terminated _ _ x, reconcile_pod) (move_to-Moved h completed _)
    reconcile_pod-Moved _ (exit_nonzero code bad x) =
        rw (Exited-first_terminated _ _ x, reconcile_pod)
          (rw (is_zero-ne code bad) (noted-Moved h failed _ _ _))
    reconcile_pod-Moved _ (succeeded alive phase) =
        rw (first_terminated-none _ alive, reconcile_pod) (rw phase (move_to-Moved h completed _))
    reconcile_pod-Moved _ (phase_failed alive phase) =
        rw (first_terminated-none _ alive, reconcile_pod) (rw phase (noted-Moved h failed _ _ _))

    reconcile_pod_idle :
        ((s : AgentTaskState) → ¬ Outcome pod s) → reconcile_pod o t pod h ≡ (ok tt, h)
    unfolding reconcile_pod action
    reconcile_pod_idle open_end = elim (Option-cases (first_terminated pod.container_statuses)) [
      | inl alive ↦
          let none_exited = not-Exited_of_none _ alive in
          let not_succeeded =
            λ (e : pod.phase ≡ "Succeeded"). open_end _ (succeeded none_exited e) in
          let not_failed = λ (e : pod.phase ≡ "Failed"). open_end _ (phase_failed none_exited e) in
          rw (alive, reconcile_pod)
            (ground (
              arith,
              eq_iff pod.phase "Succeeded",
              eq_iff pod.phase "Failed",
              not_succeeded,
              not_failed,
            ))
      | inr (code, e) ↦
          let (s, decided) = Exited-Outcome pod code (first_terminated-Exited code _ e) in
          absurd (open_end s decided)
    ]

  module _ (h : List Call) where
    open o use {cluster, namespace}

    -- A running task with a named pod that is found and has an outcome is completed or failed by
    -- that outcome, as `Moved` says: behind at most one event, by one update of its status, whose
    -- error makes the reconciliation fail.
    pub reconcile_running-Outcome :
        (pod : Pod) (s : AgentTaskState)
        → t.status.pod_name ≢ ""
        → cluster.get_pod h namespace t.status.pod_name ≡ ok pod
        → Outcome pod s
        → Moved s (Call.get_pod namespace t.status.pod_name ∷ h) (reconcile_running o t h)
    unfolding reconcile_running action
    reconcile_running-Outcome pod s named got decided =
        rw (ne→eq_false t.status.pod_name named, got) (reconcile_pod-Moved pod _ s decided)

    -- A running task with a named pod that is found and has no outcome yet is left alone: the look-
    -- up is the only call.
    reconcile_running_undecided :
        (pod : Pod)
        → t.status.pod_name ≢ ""
        → cluster.get_pod h namespace t.status.pod_name ≡ ok pod
        → ((s : AgentTaskState) → ¬ Outcome pod s)
        → reconcile_running o t h ≡ (ok tt, Call.get_pod namespace t.status.pod_name ∷ h)
    unfolding reconcile_running action
    reconcile_running_undecided pod named got undecided =
        rw (ne→eq_false t.status.pod_name named, got) (reconcile_pod_idle pod _ undecided)

    -- A running task whose named pod is not found is failed, as `Moved` says.
    reconcile_running_lost :
        (e : String)
        → t.status.pod_name ≢ ""
        → cluster.get_pod h namespace t.status.pod_name ≡ err (not_found e)
        → Moved failed (Call.get_pod namespace t.status.pod_name ∷ h) (reconcile_running o t h)
    unfolding reconcile_running action
    reconcile_running_lost e named got =
        rw (ne→eq_false t.status.pod_name named, got) (noted-Moved _ failed _ _ _)
