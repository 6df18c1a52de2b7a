-- ===== src/Programs/Main.antt =====
-- The programs of the orchestrator (cmd/orchestrator/main.go) and of the sandbox server
-- (cmd/sandbox-server/main.go), with the clients that pkg/sandbox/client.go builds.
use Prim.Native.String.{◌++◌}
use cloud_agent.Common.{
  String, Option, none, some, List, ◌==◌, if◌then◌else◌, Result, ok, err, Action, lift, map_err,
  ◌>>◌,
}
use cloud_agent.Api.{Codec}
use cloud_agent.Cluster.{Call, Cluster}
use cloud_agent.Webhook.Client.{get_env_with_default}
use cloud_agent.Orchestrator.Basic.{new_orchestrator}
use cloud_agent.Orchestrator.Watch.{Received, start}
use cloud_agent.Programs.Listener.{or_fatal}

-- The `NewForConfig` of each library.
pub record Clientsets : Type 0 where
  pub in_cluster_config : Result String (Unit {0})
  pub kubernetes : Result String (Unit {0})
  pub dynamic : Result String (Unit {0})
  pub agents : Result String (Unit {0})
  pub extensions : Result String (Unit {0})

-- Results in a row, the first error of which counts.
abbrev first_error : Result String (Unit {0}) → Result String (Unit {0}) → Result String (Unit {0})
first_error (ok _) rest = rest
first_error (err e) rest = err e

module _ (clients : Clientsets) where
  open clients use {in_cluster_config, kubernetes, dynamic, agents, extensions}

  -- `NewK8sHelper`, whose clients a `Cluster` stands for
  unfoldable pub new_k8s_helper : Result String (Unit {0})
  new_k8s_helper = first_error (or_fatal "sandbox: failed to create agents clientset: " agents) (
      first_error (or_fatal "sandbox: failed to create extensions clientset: " extensions) (
        first_error (or_fatal "sandbox: failed to create dynamic client: " dynamic)
          (or_fatal "sandbox: failed to create core clientset: " kubernetes)))

  unfoldable pub orchestrator_clients : Result String (Unit {0})
  orchestrator_clients = first_error (or_fatal "Error building kubeconfig: " in_cluster_config) (
      first_error (or_fatal "Error building kubernetes clientset: " kubernetes) (
        first_error (or_fatal "Error building dynamic client: " dynamic)
          (or_fatal "Error building k8s helper: " new_k8s_helper)))

  -- the sandbox router's service, `APIURL` of the sandbox client
  unfoldable pub router_url : String → String
  router_url namespace = "http://sandbox-router-svc." ++ namespace ++ ".svc.cluster.local:8080"

  -- `main` of the orchestrator, over what the watches receive
  unfoldable pub orchestrator_main :
      Cluster → Codec → String → List Received → Action Call String (Unit {0})
  orchestrator_main cluster codec namespace received = do
    lift orchestrator_clients
    map_err (λ e. "Orchestrator stopped with error: " ++ e)
        (start (new_orchestrator cluster codec (router_url namespace) namespace) received)

-- The address of the sandbox server.
unfoldable pub server_addr : (String → String) → String
server_addr getenv = ":" ++ get_env_with_default getenv "PORT" "8888"

pub data Endpoint : Type 0 where
  task_endpoint health_endpoint : Endpoint

-- the routes of `gin`, for any method
unfoldable pub route : String → Option Endpoint
route path =
    if path == "/task"
    then some task_endpoint
    else if path == "/health"
    then some health_endpoint
    else none
