-- ===== src/Lib.antt =====
-- Cloud Agent: an orchestrator that runs coding agents in Kubernetes sandboxes for GitHub issues.
--
-- The parts. The webhook listener (pkg/webhook/listener.go) turns GitHub's webhooks into AgentTask
-- objects (pkg/apis/cloudagent/v1alpha1/types.go), issues tokens to the orchestrator and takes the
-- result callbacks, with the callback tokens in a store (pkg/webhook/store.go). The orchestrator
-- (pkg/orchestrator/controller.go) reconciles each task: it hands a started task to a sandbox, by the
-- sandbox client (pkg/sandbox/client.go) and the webhook client (pkg/webhook/client.go), watches its
-- pod, retries a failed one and deletes a completed one. The sandbox server (pkg/sandbox/http.go)
-- accepts one task, and its runner (pkg/sandbox/server.go) clones the repository, invokes the coding
-- agent, publishes what it changed and calls the listener back. The listener reaches GitHub by one of
-- two clients (pkg/github). They meet only in the API server's objects and in HTTP requests.
--
-- The files.
--   Common: texts, integers, results, and actions (below), with the rules that bound their
--     calls (Common/History) and that keep a property of the history (Common/Keeping).
--   Api: AgentTask, FromUnstructured and ToUnstructured. Api/Wire is the JSON they pass through,
--     Api/RoundTrip their round trip.
--   Cluster: what the orchestrator's process finds outside itself, and the calls it makes.
--   GitHub/App: the client of a GitHub App (pkg/github/app_client.go), on the libraries of GitHub/Api.
--     GitHub/Installed and GitHub/Paging are about it. GitHub/Mock is the mock client
--     (pkg/github/client.go), and GitHub/Files is about its files.
--   Sandbox/Client: CreateSandbox (create_sandbox, with its loops poll_name and poll_pod),
--     GetSandbox, Close (close) and SubmitTask (submit_task). Sandbox/Provision, Sandbox/Settling,
--     Sandbox/Waiting, Sandbox/Warmpool and Sandbox/Calls are about it. Sandbox/Handler is
--     TaskHandler and HealthCheckHandler of the sandbox server (pkg/sandbox/http.go), and
--     Sandbox/Accepting is about them; Sandbox/Racing has TaskHandler in two steps, for handlers that
--     run at the same time. Sandbox/Runner is the runner (pkg/sandbox/server.go), on the surroundings
--     of Sandbox/Machine and with filepath.Join of Sandbox/FilePath. Sandbox/Hiding, Sandbox/Working,
--     Sandbox/Reporting, Sandbox/Publishing, Sandbox/Delivery and Sandbox/Exiting are about it.
--   Webhook/Server: the requests, replies and surroundings of the listener. Webhook/Listener is
--     handleWebhook, Webhook/Callback is handleCallback, Webhook/TokenHandler is
--     handleGenerateTokens, Webhook/Signature is validateSignature with the digits of Webhook/Hex,
--     Webhook/Store the two token stores, Webhook/Contract the interface TokenStore and what a store
--     promises, Webhook/Client the client, with pkg/util/util.go, and Webhook/Tokens the answer they
--     exchange. Webhook/Authentic, Webhook/Creation, Webhook/Lookup, Webhook/Redeem, Webhook/Issue,
--     Webhook/InForce, Webhook/Refinement, Webhook/RedisStore, Webhook/Completion and Webhook/Prompt
--     are about them.
--   Orchestrator/Basic: NewOrchestrator, validateTask, recordEvent and the status updates.
--     Orchestrator/Submission is runSandboxSubmission and trySubmitToSandbox, Orchestrator/Reconcile
--     is Reconcile, Orchestrator/Watch is Start, over a sequence of what its select receives.
--     Orchestrator/Lifecycle, Orchestrator/Retries, Orchestrator/Running, Orchestrator/Cases,
--     Orchestrator/Backoff, Orchestrator/Attempts, Orchestrator/Submitting, Orchestrator/Cleanup,
--     Orchestrator/Watching and Orchestrator/Starting are about them, by the lemmas of Orchestrator/Writes.
--   Programs: what the programs under cmd set up (Programs/Listener, Programs/Main). Programs/Configured
--     is about the listener's.
--   Samples and the files whose names end in Examples: the theorems on concrete data.
--
-- The conventions. An operation is an action: it takes the history of the calls made so far, newest
-- first, and returns a result and the longer history. What a call answers is a function of that
-- history, a parameter, so any behaviour of the API server, of GitHub and of the clock is an instance,
-- and so is what other goroutines do between two calls. The map activeTasks and the in-memory token
-- store are read off the history of their writes. Errors are values; a text of Go is a list of code
-- points here.
--
-- The bounds. Each polling loop of the sandbox client takes one unit of fuel for a tick, and the
-- submission loop one for a round. Running out of fuel is a result of its own, `exhausted`. For the
-- polling loops the fuel is enough when it is above the number of calls after which the context is
-- done, or after which the cluster has done its part; for the submission loop, whose context is never
-- done before it returns, when it is above the number of calls after which the cluster has done its
-- part and the task is not started any more.
--
-- What is not modelled: flags, signals, and the files of deployment. The libraries are parameters: gin,
-- client-go, go-redis, go-github, ghinstallation, backoff, HMAC, and the JSON and YAML decoders on
-- bytes. Times, log lines and mutexes are left out.
pub mod Common
pub mod Api
pub mod Cluster
pub mod GitHub
pub mod Webhook
pub mod Sandbox
pub mod Orchestrator
pub mod Samples
pub mod Programs
