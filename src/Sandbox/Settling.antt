-- ===== src/Sandbox/Settling.antt =====
-- `CreateSandbox` (pkg/sandbox/client.go) ends when the cluster does its part, whatever its
-- context.
use cloud_agent.Common.{
  ℕ, zero, suc, ◌+◌, ◌≤◌, ◌<◌, leb, String, List, ◌∷◌, ok, err, ◌≢◌, ◌≡◌, ap, ◌∙◌, inl, inr, arith,
  eq_iff, action, length, Result-cases, Bool-cases, true, false,
}
use cloud_agent.Cluster.{Call, Cluster, SandboxObject}
use cloud_agent.Sandbox.Client.{
  exhausted, warmpool_of, namespace_or_default, pod_name_of, cleanup, poll_name, poll_pod,
  await_sandbox, create_sandbox,
}

-- Once `deadline` calls have been made, a claim that is found has a sandbox, and a sandbox that is
-- found is ready.
module _ (cluster : Cluster) (deadline : ℕ)
    (named : (h : List Call) (ns claim : String)
      → deadline ≤ length h
      → cluster.get_claim h ns claim ≢ ok "")
    (ready : (h : List Call) (ns name : String) (object : SandboxObject)
      → deadline ≤ length h
      → cluster.get_sandbox h ns name ≡ ok object
      → pod_name_of object ≢ "") where
  past : (h : List Call) → leb deadline (length h) ≡ true → deadline ≤ length h
  past h late = ground arith

  future : (h : List Call) → leb deadline (length h) ≡ false → length h < deadline
  future h early = ground arith

  poll_name_settles :
      (ns claim : String) (fuel : ℕ) (h : List Call)
      → 0 < fuel
      → deadline < fuel + length h
      → (poll_name cluster fuel ns claim h).0 ≢ err exhausted
  unfolding poll_name cleanup action
  poll_name_settles ns claim zero h some_fuel enough = absurd (omega arith)
  poll_name_settles ns claim (suc fuel) h some_fuel enough =
      elim (Bool-cases (leb deadline (length h))) [
        | inl late ↦ elim (Result-cases (cluster.get_claim h ns claim)) [
          | inr (x, lost) ↦ ground arith
          | inl (name, got) ↦
              let given : name ≢ "" = λ e. named h ns claim (past h late) (got ∙ ap ok e) in
              ground (arith, eq_iff name "")
        ]
        | inr early ↦
            let before = future h early in
            ground (
              arith,
              poll_name_settles ns claim fuel (Call.get_claim ns claim ∷ h) (omega arith)
                  (omega arith),
            )
      ]

  poll_pod_settles :
      (ns claim sandbox : String) (fuel : ℕ) (h : List Call)
      → 0 < fuel
      → deadline < fuel + length h
      → (poll_pod cluster fuel ns claim sandbox h).0 ≢ err exhausted
  unfolding poll_pod cleanup action
  poll_pod_settles ns claim sandbox zero h some_fuel enough = absurd (omega arith)
  poll_pod_settles ns claim sandbox (suc fuel) h some_fuel enough =
      elim (Bool-cases (leb deadline (length h))) [
        | inl late ↦ elim (Result-cases (cluster.get_sandbox h ns sandbox)) [
          | inr (x, lost) ↦ ground arith
          | inl (object, got) ↦
              ground
                (arith, eq_iff (pod_name_of object) "", ready h ns sandbox object (past h late) got)
        ]
        | inr early ↦
            let before = future h early in
            ground (
              arith,
              poll_pod_settles ns claim sandbox fuel (Call.get_sandbox ns sandbox ∷ h) (omega arith)
                  (omega arith),
            )
      ]

  await_sandbox_settles :
      (fuel : ℕ) (url ns claim : String) (h : List Call)
      → deadline < fuel
      → (await_sandbox cluster fuel url ns claim h).0 ≢ err exhausted
  unfolding await_sandbox action
  await_sandbox_settles fuel url ns claim h enough =
      elim (Result-cases (poll_name cluster fuel ns claim h).0) [
        | inr (x, stopped) ↦
            ground (arith, stopped, poll_name_settles ns claim fuel h (omega arith) (omega arith))
        | inl (sandbox, found) ↦ ground (
          arith,
          found,
          poll_pod_settles ns claim sandbox fuel (poll_name cluster fuel ns claim h).1 (omega arith)
              (omega arith),
        )
      ]

  -- If, once `deadline` calls have been made, every claim that is found has its sandbox and every
  -- sandbox that is found is ready, then polling ends even when the context is never done: fuel
  -- above the deadline is never used up.
  pub create_sandbox_settles :
      (fuel : ℕ) (url template namespace : String) (h : List Call)
      → deadline < fuel
      → (create_sandbox cluster fuel url template namespace h).0 ≢ err exhausted
  unfolding create_sandbox action
  create_sandbox_settles fuel url template namespace h enough =
      let ns = namespace_or_default namespace in
      elim (Result-cases (cluster.create_claim h ns (warmpool_of template))) [
        | inr (x, refused) ↦ ground arith
        | inl (claim, created) ↦ ground (
          arith,
          await_sandbox_settles fuel url ns claim (Call.create_claim ns (warmpool_of template) ∷ h)
              enough,
        )
      ]
