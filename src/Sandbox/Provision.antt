-- ===== src/Sandbox/Provision.antt =====
-- Provisioning never leaves a claim behind when it fails, and it ends once its context does.
use cloud_agent.Common.{
  ℕ, zero, suc, ◌+◌, ◌≤◌, ◌<◌, String, true, false, List, [], ◌∷◌, ok, err, ◌≡◌, ◌≢◌, ◌⊎◌, inl, inr,
  arith, ◌==◌, eq_iff, action, length, Result-cases, Bool-cases,
}
use cloud_agent.Cluster.{ApiError, Call, Cluster}
use cloud_agent.Sandbox.Client.{
  Sandbox, failed, exhausted, warmpool_of, namespace_or_default, cleanup, poll_name, poll_pod,
  await_sandbox, create_sandbox,
}

-- the newest call of a history
abbrev pub IsLast : Call → List Call → Type 0
IsLast c [] = ⊥
IsLast c (d ∷ _) = d ≡ c

module _ (cluster : Cluster) (ns claim : String) where
  poll_name_cleans :
      (fuel : ℕ) (h : List Call) (e : String)
      → (poll_name cluster fuel ns claim h).0 ≡ err (failed e)
      → IsLast (Call.delete_claim ns claim) (poll_name cluster fuel ns claim h).1
  unfolding poll_name cleanup action
  poll_name_cleans zero h e broken = cc
  poll_name_cleans (suc fuel) h e broken =
      ground (arith, poll_name_cleans fuel (Call.get_claim ns claim ∷ h) e)

  poll_pod_cleans :
      (sandbox : String) (fuel : ℕ) (h : List Call) (e : String)
      → (poll_pod cluster fuel ns claim sandbox h).0 ≡ err (failed e)
      → IsLast (Call.delete_claim ns claim) (poll_pod cluster fuel ns claim sandbox h).1
  unfolding poll_pod cleanup action
  poll_pod_cleans sandbox zero h e broken = cc
  poll_pod_cleans sandbox (suc fuel) h e broken =
      ground (arith, poll_pod_cleans sandbox fuel (Call.get_sandbox ns sandbox ∷ h) e)

  -- A name that is polled for is not empty.
  poll_name_named :
      (fuel : ℕ) (h : List Call) (name : String)
      → (poll_name cluster fuel ns claim h).0 ≡ ok name
      → name ≢ ""
  unfolding poll_name action
  poll_name_named zero h name found = cc
  poll_name_named (suc fuel) h name found =
      ground (arith, eq_iff name "", poll_name_named fuel (Call.get_claim ns claim ∷ h) name)

  poll_pod_named :
      (sandbox : String) (fuel : ℕ) (h : List Call) {pod : String × List String}
      → (poll_pod cluster fuel ns claim sandbox h).0 ≡ ok pod
      → pod.0 ≢ ""
  unfolding poll_pod action
  poll_pod_named sandbox zero h found = cc
  poll_pod_named sandbox (suc fuel) h {pod} found = ground (
    arith,
    eq_iff pod.0 "",
    poll_pod_named sandbox fuel (Call.get_sandbox ns sandbox ∷ h) {pod = pod},
  )

  -- Once `deadline` calls have been made the context is done.
  module _ (deadline : ℕ)
      (ends : (h : List Call) → deadline ≤ length h → cluster.done h ≡ true) where
    lt_of_going : (h : List Call) → cluster.done h ≡ false → length h < deadline
    lt_of_going h going = ground (arith, ends h)

    poll_name_ends :
        (fuel : ℕ) (h : List Call)
        → 0 < fuel
        → deadline < fuel + length h
        → (poll_name cluster fuel ns claim h).0 ≢ err exhausted
    unfolding poll_name cleanup action
    poll_name_ends zero h some_fuel enough = absurd (omega arith)
    poll_name_ends (suc fuel) h some_fuel enough = elim (Bool-cases (cluster.done h)) [
      | inl over ↦ ground arith
      | inr going ↦
          let early = lt_of_going h going in
          ground
            (arith, poll_name_ends fuel (Call.get_claim ns claim ∷ h) (omega arith) (omega arith))
    ]

    poll_pod_ends :
        (sandbox : String) (fuel : ℕ) (h : List Call)
        → 0 < fuel
        → deadline < fuel + length h
        → (poll_pod cluster fuel ns claim sandbox h).0 ≢ err exhausted
    unfolding poll_pod cleanup action
    poll_pod_ends sandbox zero h some_fuel enough = absurd (omega arith)
    poll_pod_ends sandbox (suc fuel) h some_fuel enough = elim (Bool-cases (cluster.done h)) [
      | inl over ↦ ground arith
      | inr going ↦
          let early = lt_of_going h going in
          ground (
            arith,
            poll_pod_ends sandbox fuel (Call.get_sandbox ns sandbox ∷ h) (omega arith)
                (omega arith),
          )
    ]

    await_sandbox_ends :
        (fuel : ℕ) (url : String) (h : List Call)
        → deadline < fuel
        → (await_sandbox cluster fuel url ns claim h).0 ≢ err exhausted
    unfolding await_sandbox action
    await_sandbox_ends fuel url h enough =
        elim (Result-cases (poll_name cluster fuel ns claim h).0) [
          | inr (x, stopped) ↦
              ground (arith, stopped, poll_name_ends fuel h (omega arith) (omega arith))
          | inl (sandbox, named) ↦
              let h' = (poll_name cluster fuel ns claim h).1 in
              ground (arith, named, poll_pod_ends sandbox fuel h' (omega arith) (omega arith))
        ]

  module _ (fuel : ℕ) (url : String) (h : List Call) where
    -- Both polls, with what is known of the names that they found.
    await_sandbox_lem :
        let (r, h') = await_sandbox cluster fuel url ns claim h in
        ((e : String) → r ≡ err (failed e) → IsLast (Call.delete_claim ns claim) h')
        × ((s : Sandbox)
            → r ≡ ok s
            → (s.claim_name ≡ claim)
              × (s.namespace ≡ ns)
              × (s.sandbox_name ≢ "")
              × (s.pod_name ≢ ""))
    unfolding await_sandbox action
    await_sandbox_lem = elim (Result-cases (poll_name cluster fuel ns claim h).0) [
      | inr (x, stopped) ↦ (
        (λ e broken. ground (arith, stopped, poll_name_cleans fuel h e)),
        λ s done. ground (arith, stopped),
      )
      | inl (sandbox, named) ↦
          let h' = (poll_name cluster fuel ns claim h).1 in
          elim (Result-cases (poll_pod cluster fuel ns claim sandbox h').0) [
            | inr (x, stopped) ↦ (
              (λ e broken. ground (arith, named, stopped, poll_pod_cleans sandbox fuel h' e)),
              λ s done. ground (arith, named, stopped),
            )
            | inl (found, ready) ↦ (
              (λ e broken. ground (arith, named, ready)),
              λ s done. ground (
                arith,
                poll_name_named fuel h sandbox named,
                poll_pod_named sandbox fuel h' ready,
              ),
            )
          ]
    ]

module _ (cluster : Cluster) (fuel : ℕ) (url template namespace : String) (h : List Call) where
  abbrev ns : String
  ns = namespace_or_default namespace

  abbrev warmpool : String
  warmpool = warmpool_of template

  -- When provisioning fails with an error, no claim is left unattended: no template was named and
  -- nothing was called, or the server refused to create the claim, or the deletion of the claim
  -- that it created was the last call.
  pub create_sandbox_cleans :
      let (r, h') = create_sandbox cluster fuel url template namespace h in
      (e : String)
      → r ≡ err (failed e)
      → ((template ≡ "") × (h' ≡ h))
        ⊎ (((x : ApiError) × (cluster.create_claim h ns warmpool ≡ err x))
            × (h' ≡ Call.create_claim ns warmpool ∷ h))
        ⊎ ((claim : String) × (cluster.create_claim h ns warmpool ≡ ok claim)
            × IsLast (Call.delete_claim ns claim) h')
  unfolding create_sandbox action
  create_sandbox_cleans e broken = elim (Bool-cases (template == "")) [
    | inl empty ↦ inl (ground (arith, eq_iff template ""), ground arith)
    | inr some_template ↦ elim (Result-cases (cluster.create_claim h ns warmpool)) [
      | inr (x, refused) ↦ inr (inl ((x, refused), ground arith))
      | inl (claim, created) ↦ inr (
          inr (
            claim,
            created,
            ground (
              arith,
              (await_sandbox_lem cluster ns claim fuel url (Call.create_claim ns warmpool ∷ h)).0 e,
            ),
          ))
    ]
  ]

  -- A sandbox that is handed out has the claim that the server named, for a template that is not
  -- empty, and a sandbox and a pod that are known by name, in the namespace that was asked for.
  create_sandbox_sound :
      (s : Sandbox)
      → (create_sandbox cluster fuel url template namespace h).0 ≡ ok s
      → (template ≢ "")
        × (cluster.create_claim h ns warmpool ≡ ok s.claim_name)
        × (s.namespace ≡ ns)
        × (s.sandbox_name ≢ "")
        × (s.pod_name ≢ "")
  unfolding create_sandbox action
  create_sandbox_sound s done = elim (Result-cases (cluster.create_claim h ns warmpool)) [
    | inr (x, refused) ↦ ground (arith, eq_iff template "")
    | inl (claim, created) ↦ ground (
      arith,
      eq_iff template "",
      (await_sandbox_lem cluster ns claim fuel url (Call.create_claim ns warmpool ∷ h)).1 s,
    )
  ]

-- If the context is done once `deadline` calls have been made, polling ends by itself: fuel above
-- the deadline is never used up.
pub create_sandbox_ends :
    (cluster : Cluster) (deadline : ℕ)
    → ((h : List Call) → deadline ≤ length h → cluster.done h ≡ true)
    → (fuel : ℕ) (url template namespace : String) (h : List Call) → deadline < fuel
    → (create_sandbox cluster fuel url template namespace h).0 ≢ err exhausted
unfolding create_sandbox action
create_sandbox_ends cluster deadline ends fuel url template namespace h enough =
    let ns = namespace_or_default namespace in
    let w = warmpool_of template in
    elim (Result-cases (cluster.create_claim h ns w)) [
      | inr (x, refused) ↦ ground arith
      | inl (claim, created) ↦ ground (
        arith,
        await_sandbox_ends cluster ns claim deadline ends fuel url (Call.create_claim ns w ∷ h)
            enough,
      )
    ]
