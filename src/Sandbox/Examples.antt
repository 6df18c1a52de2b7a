-- ===== src/Sandbox/Examples.antt =====
-- The provisioning of a sandbox on concrete clusters.
use cloud_agent.Common.{
  sym, ne_empty, false, String, List, [], ◌∷◌, ok, err, ◌≡◌, refl, ◌≢◌, ◌≤◌, leb, length, arith,
  true, trim_suffix, action, Result, ◌⊎◌,
}
use cloud_agent.Api.{Unstructured}
use cloud_agent.Cluster.{SandboxObject, Call, Cluster, ApiError, failure, HttpRequest, HttpResponse}
use cloud_agent.Api.Wire.{end}
use cloud_agent.Samples.{ready_sandbox, sandbox, provisioned, cluster_sending, tokens_answer}
use cloud_agent.Sandbox.Client.{
  failed, exhausted, create_sandbox, await_sandbox, poll_name, poll_pod, pod_name_of, is_ready,
  annotation, warmpool_of, cleanup,
}
use cloud_agent.Sandbox.Provision.{IsLast, create_sandbox_cleans, create_sandbox_ends}
use cloud_agent.Sandbox.Settling.{create_sandbox_settles}
use cloud_agent.Sandbox.Waiting.{create_sandbox_waits}

pub provisions :
    (u : Unstructured) (send : List Call → HttpRequest → Result String HttpResponse)
    → create_sandbox (cluster_sending u send) 30 "http://router" "pi-sandbox-template" "agents" []
      ≡ (ok sandbox, provisioned)
unfolding create_sandbox action await_sandbox poll_name poll_pod pod_name_of is_ready annotation
    warmpool_of trim_suffix
provisions u send = refl

abbrev template : String
template = "pi-sandbox-template"

abbrev sample : Cluster
sample = cluster_sending (record { object = end }) tokens_answer

-- the server cannot read the claim that it created
abbrev blind : Cluster
blind = record sample { get_claim = λ h ns claim. err (failure "denied") }

blind_fails :
    (create_sandbox blind 30 "http://router" "pi-sandbox-template" "agents" []).0
    ≡ err (failed "sandbox: failed to get SandboxClaim: denied")
unfolding create_sandbox action await_sandbox poll_name cleanup
blind_fails = refl

create_sandbox_cleans_example :
    let h' = (create_sandbox blind 30 "http://router" "pi-sandbox-template" "agents" []).1 in
    ((template ≡ "") × (h' ≡ []))
    ⊎ (((x : ApiError) × (blind.create_claim [] "agents" "pi-sandbox-warmpool" ≡ err x))
        × (h' ≡ Call.create_claim "agents" "pi-sandbox-warmpool" ∷ []))
    ⊎ ((claim : String) × (blind.create_claim [] "agents" "pi-sandbox-warmpool" ≡ ok claim)
        × IsLast (Call.delete_claim "agents" claim) h')
unfolding warmpool_of trim_suffix
create_sandbox_cleans_example =
    create_sandbox_cleans blind 30 "http://router" "pi-sandbox-template" "agents" []
      "sandbox: failed to get SandboxClaim: denied" blind_fails

ends : (h : List Call) → 20 ≤ length h → leb 20 (length h) ≡ true
ends h k = ground arith

create_sandbox_ends_example :
    (create_sandbox blind 30 "http://router" "pi-sandbox-template" "agents" []).0 ≢ err exhausted
create_sandbox_ends_example =
    create_sandbox_ends blind 20 ends 30 "http://router" "pi-sandbox-template" "agents" []
      (omega arith)

-- a cluster without a free sandbox, and a context that nobody cancels
abbrev empty_pool : Cluster
empty_pool = record sample { get_claim = λ h ns claim. ok ""; done = λ h. false }

create_sandbox_waits_example :
    (create_sandbox empty_pool 50 "http://router" "pi-sandbox-template" "agents" []).0
    ≡ err exhausted
create_sandbox_waits_example =
    create_sandbox_waits empty_pool (λ h. refl) 50 "http://router" "pi-sandbox-template" "agents"
      "claim-1" [] (ne_empty _ refl) refl (λ h. refl)

-- the sample with a context that nobody cancels
abbrev patient : Cluster
patient = record sample { done = λ h. false }

patient_named :
    (h : List Call) (ns claim : String) → 0 ≤ length h → patient.get_claim h ns claim ≢ ok ""
patient_named h ns claim late e =
    let same : ◌≡◌ {A = String} "sandbox-1" "" = cc in absurd (ne_empty "sandbox-1" refl same)

patient_ready :
    (h : List Call) (ns name : String) (object : SandboxObject)
    → 0 ≤ length h
    → patient.get_sandbox h ns name ≡ ok object
    → pod_name_of object ≢ ""
unfolding pod_name_of is_ready annotation
patient_ready h ns name object late e =
    let same : ready_sandbox ≡ object = cc in
    rw (sym same) (ne_empty (pod_name_of ready_sandbox) refl)

create_sandbox_settles_example :
    (create_sandbox patient 1 "http://router" "pi-sandbox-template" "agents" []).0 ≢ err exhausted
create_sandbox_settles_example =
    create_sandbox_settles patient 0 patient_named patient_ready 1 "http://router"
      "pi-sandbox-template" "agents" [] (omega arith)
