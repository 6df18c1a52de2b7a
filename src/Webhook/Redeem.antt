-- ===== src/Webhook/Redeem.antt =====
-- The callback tokens that `handleCallback` (pkg/webhook/listener.go) redeems.
use cloud_agent.Common.{
  Action, String, true, false, none, List, ◌∷◌, ok, ◌≡◌, refl, ◌≢◌, arith, action, ◌==◌, eq_iff,
  eq_refl, ◌⊎◌, inl, inr, Emits, Adds, nothing, added, Emits-pure, Emits-bind, Emits-lift,
  Emits-map_err, Emits-cases, Emits-attempt, Emits-call, Result-cases, Bool-cases,
}
use cloud_agent.Api.{AgentTask, Unstructured, from_unstructured}
use cloud_agent.Webhook.Server.{Reply, text, Call, ListenerServer, CallbackRequest, respond}
use cloud_agent.Webhook.Callback.{presented_token, redeem, complete, answer, accept_callback}
use cloud_agent.Webhook.Lookup.{get_token-store_token, get_token-delete_token}
use cloud_agent.Webhook.Store.{get_token, verify_token, tokens_after}

-- what a reply does behind the tokens
Answers : Call → Type 0
Answers (Call.post_comment _ _ _ _) = Unit
Answers (Call.update_status _ _) = Unit
Answers (Call.update _ _) = Unit
Answers _ = ⊥

Adds-tokens_after : {h h' : List Call} → Adds Answers h h' → tokens_after h' ≡ tokens_after h
unfolding Answers tokens_after
Adds-tokens_after nothing = refl
Adds-tokens_after (added {c = Call.post_comment _ _ _ _} p a) = Adds-tokens_after a
Adds-tokens_after (added {c = Call.update_status _ _} p a) = Adds-tokens_after a
Adds-tokens_after (added {c = Call.update _ _} p a) = Adds-tokens_after a
Adds-tokens_after (added {c = _} p a) = absurd p

module _ (s : ListenerServer) where
  open s use {outside, namespace, codec}

  complete-Emits : (t : AgentTask) → Emits Answers (complete s t)
  unfolding complete Answers
  complete-Emits t = Emits-bind _ (Emits-map_err _ _ (Emits-lift _ _)) λ u.
      Emits-bind _ (Emits-attempt _ (Emits-call _ _ tt)) λ first.
        Emits-cases _ first (λ _. Emits-pure _ _)
          λ _. Emits-bind _ (Emits-map_err _ _ (Emits-call _ _ tt)) λ _. Emits-pure _ _

  answer-Emits : (t : AgentTask) (response : String) → Emits Answers (answer s t response)
  unfolding answer Answers
  answer-Emits t response =
      Emits-bind _ (Emits-map_err _ _ (Emits-call _ _ tt)) λ _. complete-Emits t

  -- A callback whose token the store does not confirm reads the task, and may ask the store, and
  -- does no more: it invalidates no token, posts no comment and writes no task.
  pub accept_callback_unconfirmed :
      (auth_header : String) (req : CallbackRequest) (h : List Call)
      → let seen = Call.get_task namespace req.task_name ∷ h in
        let asked = Call.verify_token req.task_name (presented_token auth_header req) in
        outside.verify_token seen req.task_name (presented_token auth_header req) ≢ ok true
        → ((respond (accept_callback s auth_header req) h).1 ≡ seen)
          ⊎ ((respond (accept_callback s auth_header req) h).1 ≡ asked ∷ seen)
  unfolding accept_callback redeem respond action
  accept_callback_unconfirmed auth_header req h unconfirmed =
      elim (Result-cases (outside.get_task h namespace req.task_name)) [
        | inr (e, missing) ↦ inl (ground (arith))
        | inl (u, found) ↦ elim (Result-cases (from_unstructured codec u)) [
          | inr (e, broken) ↦ inl (ground (arith))
          | inl (task, parsed) ↦ elim (Bool-cases (presented_token auth_header req == "")) [
            | inl empty ↦ inl (ground (arith))
            | inr given ↦
                elim (Result-cases (
                  outside.verify_token (Call.get_task namespace req.task_name ∷ h) req.task_name
                    (presented_token auth_header req))) [
                      | inr (e, failed) ↦ inr (ground (arith))
                      | inl (false, refused) ↦ inr (ground (arith))
                      | inl (true, confirmed) ↦ absurd (unconfirmed confirmed)
                    ]
          ]
        ]
      ]

  pub accept_callback-answer :
      {u : Unstructured} {task : AgentTask} (auth_header : String) (req : CallbackRequest)
      (h : List Call)
      → let seen = Call.get_task namespace req.task_name ∷ h in
        let asked = Call.verify_token req.task_name (presented_token auth_header req) ∷ seen in
        outside.get_task h namespace req.task_name ≡ ok u
        → from_unstructured codec u ≡ ok task
        → presented_token auth_header req ≢ ""
        → outside.verify_token seen req.task_name (presented_token auth_header req) ≡ ok true
        → outside.delete_token asked req.task_name ≡ ok tt
        → accept_callback s auth_header req h
          ≡ answer s task req.response (Call.delete_token req.task_name ∷ asked)
  unfolding accept_callback redeem action
  accept_callback-answer auth_header req h found parsed given confirmed deleted =
      ground (arith, eq_iff (presented_token auth_header req) "")

  accept_callback-refused :
      {u : Unstructured} {task : AgentTask} (auth_header : String) (req : CallbackRequest)
      (h : List Call)
      → let seen = Call.get_task namespace req.task_name ∷ h in
        let asked = Call.verify_token req.task_name (presented_token auth_header req) ∷ seen in
        outside.get_task h namespace req.task_name ≡ ok u
        → from_unstructured codec u ≡ ok task
        → presented_token auth_header req ≢ ""
        → outside.verify_token seen req.task_name (presented_token auth_header req) ≡ ok false
        → respond (accept_callback s auth_header req) h ≡ (text 401 "Invalid callback token", asked)
  unfolding accept_callback redeem respond action
  accept_callback-refused auth_header req h found parsed given refused =
      ground (arith, eq_iff (presented_token auth_header req) "")

respond-history : (m : Action Call Reply Reply) (h : List Call) → (respond m h).1 ≡ (m h).1
unfolding respond
respond-history m h = elim (Result-cases ((m h).0)) [
  | inl (a, e) ↦ ground arith
  | inr (x, e) ↦ ground arith
]

-- Calls that store no token for the task.
abbrev pub Leaves : String → Call → Type 0
Leaves name (Call.store_token id _) = id ≢ name
Leaves name _ = Unit

Adds-get_token :
    (name : String) {h h' : List Call}
    → get_token name (tokens_after h) ≡ none
    → Adds (Leaves name) h h'
    → get_token name (tokens_after h') ≡ none
unfolding tokens_after
Adds-get_token name e nothing = e
Adds-get_token name e (added {c = Call.store_token id t} {h'} p a) = ground (
  arith,
  get_token-store_token id name t (tokens_after h'),
  Adds-get_token name e a,
  eq_iff id name,
)
Adds-get_token name e (added {c = Call.delete_token id} {h'} p a) =
    ground (arith, get_token-delete_token id name (tokens_after h'), Adds-get_token name e a)
Adds-get_token name e (added {c = _} p a) = Adds-get_token name e a

module _ (s : ListenerServer) where
  open s use {outside, namespace, codec}

  -- The store is the in-memory one, and the task is there and parses whenever it is read.
  abbrev pub InMemory : String → Type 0
  InMemory name =
      ((h : List Call) (token : String)
        → outside.verify_token h name token ≡ ok (verify_token name token (tokens_after h)))
      × ((h : List Call) → outside.delete_token h name ≡ ok tt)
      × ((h : List Call)
          → (u : Unstructured) × (task : AgentTask) × (outside.get_task h namespace name ≡ ok u)
            × (from_unstructured codec u ≡ ok task))

  accept_callback-get_token :
      (auth_header : String) (req : CallbackRequest) (h : List Call)
      → InMemory req.task_name
      → presented_token auth_header req ≢ ""
      → verify_token req.task_name (presented_token auth_header req) (tokens_after h) ≡ true
      → get_token req.task_name (tokens_after (respond (accept_callback s auth_header req) h).1)
        ≡ none
  unfolding tokens_after
  accept_callback-get_token auth_header req h (verifies, deletes, tasks) given valid =
      let (u, task, found, parsed) = tasks h in
      let token = presented_token auth_header req in
      let name = req.task_name in
      let seen = Call.get_task namespace name ∷ h in
      let asked = Call.verify_token name token ∷ seen in
      let run =
        accept_callback-answer s auth_header req h found parsed given
          (ground (arith, verifies seen token)) (deletes asked) in
      let kept =
        Adds-tokens_after
          ((answer-Emits s task req.response).from (Call.delete_token name ∷ asked)) in
      rw
        (
          respond-history (accept_callback s auth_header req) h,
          run,
          kept,
          get_token-delete_token name name (tokens_after h),
        )
        (ground (arith, eq_refl name))

  accept_callback-unknown :
      (auth_header : String) (req : CallbackRequest) (h : List Call)
      → InMemory req.task_name
      → presented_token auth_header req ≢ ""
      → get_token req.task_name (tokens_after h) ≡ none
      → respond (accept_callback s auth_header req) h ≡ (
        text 401 "Invalid callback token",
        Call.verify_token req.task_name (presented_token auth_header req)
            ∷ Call.get_task namespace req.task_name
            ∷ h,
      )
  unfolding verify_token tokens_after
  accept_callback-unknown auth_header req h (verifies, deletes, tasks) given unknown =
      let (u, task, found, parsed) = tasks h in
      let token = presented_token auth_header req in
      let seen = Call.get_task namespace req.task_name ∷ h in
      accept_callback-refused s auth_header req h found parsed given
        (ground (arith, verifies seen token))

  -- With the in-memory store, and a task that is found and parses whenever it is read, a callback
  -- token is good for one callback: once a callback with a valid token got through the check,
  -- whatever became of its comment and its status, a later callback for the task with any token but
  -- the empty one is answered by 401 and does nothing but read the task and ask the store, unless a
  -- token has been stored for the task in between.
  pub accept_callback_once :
      (first second : CallbackRequest) (first_header second_header : String) (h h' : List Call)
      → InMemory first.task_name
      → second.task_name ≡ first.task_name
      → presented_token first_header first ≢ ""
      → presented_token second_header second ≢ ""
      → verify_token first.task_name (presented_token first_header first) (tokens_after h) ≡ true
      → Adds (Leaves first.task_name) (respond (accept_callback s first_header first) h).1 h'
      → respond (accept_callback s second_header second) h' ≡ (
        text 401 "Invalid callback token",
        Call.verify_token second.task_name (presented_token second_header second)
            ∷ Call.get_task namespace second.task_name
            ∷ h',
      )
  accept_callback_once first second first_header second_header h h' store same given given' valid
        later =
      let spent = accept_callback-get_token first_header first h store given valid in
      accept_callback-unknown second_header second h' (rw same store) given'
        (rw same (Adds-get_token first.task_name spent later))
