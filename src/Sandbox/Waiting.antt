-- ===== src/Sandbox/Waiting.antt =====
-- How long the polling of `CreateSandbox` (pkg/sandbox/client.go) may last.
use cloud_agent.Common.{
  ℕ, zero, suc, String, false, List, ◌∷◌, ok, err, ◌≡◌, refl, ◌≢◌, arith, eq_iff, action,
}
use cloud_agent.Cluster.{Call, Cluster}
use cloud_agent.Sandbox.Client.{
  exhausted, warmpool_of, namespace_or_default, poll_name, await_sandbox, create_sandbox,
}

module _ (cluster : Cluster) (going : (h : List Call) → cluster.done h ≡ false) where
  poll_name_waits :
      (ns claim : String)
      → ((h : List Call) → cluster.get_claim h ns claim ≡ ok "")
      → (fuel : ℕ) (h : List Call) → (poll_name cluster fuel ns claim h).0 ≡ err exhausted
  unfolding poll_name action
  poll_name_waits ns claim nameless zero h = refl
  poll_name_waits ns claim nameless (suc fuel) h = ground (
    arith,
    going h,
    nameless h,
    poll_name_waits ns claim nameless fuel (Call.get_claim ns claim ∷ h),
  )

  -- Provisioning has no bound of its own: if the context is never done, and the claim that was
  -- created for a template that is not empty never gets the name of a sandbox, then polling uses up
  -- any fuel.
  pub create_sandbox_waits :
      (fuel : ℕ) (url template namespace claim : String) (h : List Call)
      → template ≢ ""
      → cluster.create_claim h (namespace_or_default namespace) (warmpool_of template) ≡ ok claim
      → ((h' : List Call) → cluster.get_claim h' (namespace_or_default namespace) claim ≡ ok "")
      → (create_sandbox cluster fuel url template namespace h).0 ≡ err exhausted
  unfolding create_sandbox await_sandbox action
  create_sandbox_waits fuel url template namespace claim h named created nameless =
      let ns = namespace_or_default namespace in
      ground (
        arith,
        eq_iff template "",
        poll_name_waits ns claim nameless fuel (Call.create_claim ns (warmpool_of template) ∷ h),
      )
