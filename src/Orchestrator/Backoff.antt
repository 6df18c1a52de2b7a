-- ===== src/Orchestrator/Backoff.antt =====
-- What one submission does to the outside, and how long the goroutine waits between two.
use native.Mathlib.Nat.{pow-suc}
use cloud_agent.Common.{
  if◌then◌else◌, ℕ, zero, suc, ◌*◌, ◌^◌, ◌≤◌, ltb, ◌≡◌, ◌⊎◌, inl, inr, refl, arith, Emits,
  Emits-pure, Emits-raise, Emits-attempt, Emits-bind, Emits-map_err, Emits-cases, Emits-mono,
}
use cloud_agent.Api.{AgentTask}
use cloud_agent.Cluster.{Call}
use cloud_agent.Sandbox.Calls.{
  Provisions, Sends, create_sandbox-Emits, close-Emits, submit_task-Emits, generate_tokens-Emits,
}
use cloud_agent.Orchestrator.Basic.{Orchestrator}
use cloud_agent.Orchestrator.Submission.{
  second, max_backoff, sleep_time, next_backoff, try_submit_to_sandbox,
}

-- A wait lasts at least the backoff and at most ten seconds, whatever the jitter.
pub sleep_time_bounds :
    (backoff jitter : ℕ)
    → backoff ≤ max_backoff
    → (backoff ≤ sleep_time backoff jitter) × (sleep_time backoff jitter ≤ max_backoff)
unfolding sleep_time
sleep_time_bounds backoff jitter h = ground arith

pub next_backoff_bounds :
    (backoff : ℕ)
    → second ≤ backoff
    → (second ≤ next_backoff backoff) × (next_backoff backoff ≤ max_backoff)
unfolding next_backoff
next_backoff_bounds backoff h = ground arith

-- the backoff of the n-th round
abbrev pub backoff_after : ℕ → ℕ
backoff_after zero = second
backoff_after (suc n) = next_backoff (backoff_after n)

-- The backoff of the n-th round is one second doubled n times, capped at ten seconds.
backoff_after_lem :
    (n : ℕ)
    → backoff_after n ≡ (if ltb max_backoff (second * 2 ^ n) then max_backoff else second * 2 ^ n)
unfolding next_backoff
backoff_after_lem zero = refl
backoff_after_lem (suc n) = ground (arith, pow-suc 2 n, backoff_after_lem n)

-- What one attempt to submit a task calls: it provisions and releases a sandbox, and sends
-- requests.
abbrev pub Tries : Call → Type 0
Tries c = Provisions c ⊎ Sends c

pub try_submit_to_sandbox-Emits :
    (o : Orchestrator) (polls : ℕ) (t : AgentTask) → Emits Tries (try_submit_to_sandbox o polls t)
unfolding try_submit_to_sandbox
try_submit_to_sandbox-Emits o polls t =
    Emits-bind _
      (Emits-map_err _ _ (Emits-mono (λ c. inl) (create_sandbox-Emits o.cluster polls _ _ _)))
      λ sandbox.
        Emits-bind _ (Emits-attempt _ (Emits-mono (λ c. inr) (generate_tokens-Emits o.cluster _ _)))
          λ tokens.
            Emits-cases _ tokens
              (λ granted.
                Emits-bind _
                  (Emits-map_err _ _
                    (Emits-mono (λ c. inr) (submit_task-Emits o.cluster sandbox _)))
                  λ _. Emits-pure _ sandbox)
              λ e.
                Emits-bind _
                  (Emits-attempt _ (Emits-mono (λ c. inl) (close-Emits o.cluster sandbox)))
                  λ _. Emits-raise _ _
