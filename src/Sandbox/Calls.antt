-- ===== src/Sandbox/Calls.antt =====
-- Which calls the sandbox client and the client of the webhook listener make.
use cloud_agent.Common.{
  ℕ, zero, suc, String, ◌==◌, nat_eq, Emits, Emits-pure, Emits-raise, Emits-asks, Emits-lift,
  Emits-call, Emits-attempt, Emits-if, Emits-bind, Emits-map_err, Emits-cases,
}
use cloud_agent.Cluster.{not_found, failure, Call, Cluster}
use cloud_agent.Sandbox.Client.{
  Sandbox, TaskRequest, pod_name_of, cleanup, poll_name, poll_pod, await_sandbox, create_sandbox,
  close, submit_task, target_url,
}
use cloud_agent.Webhook.Client.{Client, send_request, generate_tokens}

-- the calls that provision or release a sandbox
abbrev pub Provisions : Call → Type 0
Provisions (Call.create_claim _ _) = Unit
Provisions (Call.get_claim _ _) = Unit
Provisions (Call.delete_claim _ _) = Unit
Provisions (Call.get_sandbox _ _) = Unit
Provisions (Call.get_pod _ _) = Unit
Provisions _ = ⊥

-- an HTTP request
abbrev pub Sends : Call → Type 0
Sends (Call.send _) = Unit
Sends _ = ⊥

module _ (cluster : Cluster) where
  cleanup-Emits : (ns claim : String) → Emits Provisions (cleanup cluster ns claim)
  unfolding cleanup
  cleanup-Emits ns claim = Emits-bind _ (Emits-attempt _ (Emits-call _ _ tt)) λ _. Emits-pure _ tt

  poll_name-Emits :
      (fuel : ℕ) (ns claim : String) → Emits Provisions (poll_name cluster fuel ns claim)
  unfolding poll_name
  poll_name-Emits zero ns claim = Emits-raise _ _
  poll_name-Emits (suc fuel) ns claim = Emits-bind _ (Emits-asks _ _) λ done.
      Emits-if _ done (λ _. Emits-bind _ (cleanup-Emits ns claim) λ _. Emits-raise _ _)
        λ _. Emits-bind _ (Emits-attempt _ (Emits-call _ _ tt)) λ got.
          Emits-cases _ got
            (λ name.
              Emits-if _ (name == "") (λ _. poll_name-Emits fuel ns claim) λ _. Emits-pure _ name)
            λ e. Emits-bind _ (cleanup-Emits ns claim) λ _. Emits-raise _ _

  poll_pod-Emits :
      (fuel : ℕ) (ns claim sandbox : String)
      → Emits Provisions (poll_pod cluster fuel ns claim sandbox)
  unfolding poll_pod
  poll_pod-Emits zero ns claim sandbox = Emits-raise _ _
  poll_pod-Emits (suc fuel) ns claim sandbox = Emits-bind _ (Emits-asks _ _) λ done.
      Emits-if _ done (λ _. Emits-bind _ (cleanup-Emits ns claim) λ _. Emits-raise _ _)
        λ _. Emits-bind _ (Emits-attempt _ (Emits-call _ _ tt)) λ got.
          Emits-cases _ got
            (λ o.
              Emits-if _ (pod_name_of o == "") (λ _. poll_pod-Emits fuel ns claim sandbox)
                λ _. Emits-pure _ _)
            λ e. Emits-bind _ (cleanup-Emits ns claim) λ _. Emits-raise _ _

  pub create_sandbox-Emits :
      (fuel : ℕ) (url template namespace : String)
      → Emits Provisions (create_sandbox cluster fuel url template namespace)
  unfolding create_sandbox await_sandbox
  create_sandbox-Emits fuel url template namespace =
      Emits-if _ (template == "") (λ _. Emits-raise _ _)
        λ _. Emits-bind _ (Emits-map_err _ _ (Emits-call _ _ tt)) λ claim.
          Emits-bind _ (poll_name-Emits fuel _ claim) λ sandbox.
            Emits-bind _ (poll_pod-Emits fuel _ claim sandbox)
              λ found. Emits-bind _ (Emits-attempt _ (Emits-call _ _ tt)) λ pod. Emits-pure _ _

  pub close-Emits : (sandbox : Sandbox) → Emits Provisions (close cluster sandbox)
  unfolding close
  close-Emits sandbox =
      Emits-if _ (sandbox.claim_name == "") (λ _. Emits-pure _ tt)
        λ _. Emits-bind _ (Emits-attempt _ (Emits-call _ _ tt)) λ deleted.
          Emits-cases _ deleted (λ _. Emits-pure _ tt)
            (elim [ not_found _ ↦ Emits-pure _ tt | failure e ↦ Emits-raise _ _ ])

  pub submit_task-Emits :
      (sandbox : Sandbox) (req : TaskRequest) → Emits Sends (submit_task cluster sandbox req)
  unfolding submit_task
  submit_task-Emits sandbox req = Emits-bind _ (Emits-lift _ (target_url cluster sandbox)) λ target.
      Emits-bind _ (Emits-map_err _ _ (Emits-lift _ (cluster.parse_url target.0))) λ _.
        Emits-bind _ (Emits-map_err _ _ (Emits-call _ _ tt))
          λ resp. Emits-if _ (nat_eq resp.status 200) (λ _. Emits-pure _ tt) λ _. Emits-raise _ _

  pub generate_tokens-Emits :
      (client : Client) (task_id : String) → Emits Sends (generate_tokens cluster client task_id)
  unfolding generate_tokens send_request
  generate_tokens-Emits client task_id =
      Emits-bind _ (Emits-map_err _ _ (Emits-lift _ (cluster.parse_url _))) λ _.
        Emits-bind _
          (Emits-map_err _ _ (
            Emits-bind _ (Emits-call _ _ tt) λ resp.
              Emits-if _ (nat_eq resp.status 200) (λ _. Emits-pure _ resp) λ _. Emits-raise _ _))
          λ resp.
            Emits-bind _ (Emits-map_err _ _ (Emits-lift _ resp.document))
              λ document. Emits-map_err _ _ (Emits-lift _ _)
