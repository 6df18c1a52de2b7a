-- ===== src/Sandbox/Reporting.antt =====
-- When the runner (pkg/sandbox/server.go) calls the webhook listener back.
use mathlib.Core.Path.{subst}
use cloud_agent.Common.{
  carried, ◌⊎◌, ap, ◌∙◌, ℕ, suc, ◌+◌, ◌≤◌, String, List, ◌∷◌, ok, err, Result, ◌≡◌, refl, sym, ◌≢◌,
  arith, length, nat_eq, Action, action, Adds, nothing, added, Adds-trans, Result-cases, Bool-cases,
  inl, inr,
}
use cloud_agent.Cluster.{Call, HttpRequest, HttpResponse}
use cloud_agent.Webhook.Client.{callback_request, call_back, send_request}
use cloud_agent.Sandbox.Machine.{Machine, Failure}
use cloud_agent.Sandbox.Runner.{Runner, work, report, run}
use cloud_agent.Sandbox.Working.{Works, work-Works}

-- What `backoff.Retry` is documented to do with an operation, under a limit of tries: it stops at
-- the first success, and after a failure it tries again or gives up.
pub data Tries (op : Action Call String (Unit {0})) (out : Result String (Unit {0}) × List Call)
    : ℕ → List Call → Type 0 where
  stopped : {n : ℕ} {h : List Call} → out ≡ op h → Tries op out (suc n) h
  again :
      {n : ℕ} {h : List Call} {e : String}
      → (op h).0 ≡ err e
      → Tries op out n (op h).1
      → Tries op out (suc n) h

module _ (m : Machine) (r : Runner) where
  open m use {cluster}

  -- When the clone, the configuration, the coding agent or the publication fails, the run fails
  -- with that error at once, and no HTTP request is sent: the listener hears nothing of the task.
  pub run_fails_silently :
      (h : List Call) (e : Failure)
      → (work m r h).0 ≡ err e
      → (run m r h ≡ (err e, (work m r h).1)) × Adds Works h (run m r h).1
  unfolding run action
  run_fails_silently h e failed =
      let same : run m r h ≡ (err e, (work m r h).1) = ground arith in
      (same, subst (λ out. Adds Works h out.1) (sym same) ((work-Works m r).from h))

  -- the callback of a response, and an accepted one
  abbrev pub callback_of : String → HttpRequest
  callback_of response = callback_request r.webhooks_client r.callback_token r.task_name response

  abbrev pub CallsBack : String → Call → Type 0
  CallsBack response c = c ≡ Call.send (callback_of response)

  -- the operation that is tried
  abbrev op : String → Action Call String (Unit {0})
  op response = call_back cluster r.webhooks_client r.callback_token r.task_name response

  call_back-calls :
      (response : String) (h : List Call)
      → ((op response h).1 ≡ h) ⊎ ((op response h).1 ≡ Call.send (callback_of response) ∷ h)
  unfolding call_back send_request action
  call_back-calls response h = elim (Result-cases (cluster.parse_url (callback_of response).url)) [
    | inr (x, bad) ↦ inl (ground arith)
    | inl (_, fine) ↦ elim (Result-cases (cluster.send h (callback_of response))) [
      | inr (x, lost) ↦ inr (ground arith)
      | inl (resp, answered) ↦ elim (Bool-cases (nat_eq resp.status 200)) [
        | inl accepted ↦ inr (ground arith)
        | inr refused ↦ inr (ground arith)
      ]
    ]
  ]

  call_back_once :
      (response : String) (h : List Call)
      → Adds (CallsBack response) h (op response h).1 × (length (op response h).1 ≤ 1 + length h)
  call_back_once response h = elim (call_back-calls response h) [
    | inl e ↦ rw e (nothing, omega arith)
    | inr e ↦ rw e (added refl nothing, omega arith)
  ]

  Tries-calls :
      (response : String) {out : Result String (Unit {0}) × List Call} {n : ℕ} {h : List Call}
      → Tries (op response) out n h
      → Adds (CallsBack response) h out.1 × (length out.1 ≤ n + length h)
  Tries-calls response {h} (stopped e) =
      rw e ((call_back_once response h).0, omega (arith, (call_back_once response h).1))
  Tries-calls response {h} (again failed t) =
      let (calls, few) = Tries-calls response t in
      (
        Adds-trans _ (call_back_once response h).0 calls,
        omega (arith, few, (call_back_once response h).1),
      )

  -- an answer of the listener that takes the callback
  abbrev pub Taken : String → List Call → Type 0
  Taken response h =
      (resp : HttpResponse) × (cluster.send h (callback_of response) ≡ ok resp)
      × (resp.status ≡ 200)

  call_back-Taken :
      (response : String) (h : List Call)
      → (op response h).0 ≡ ok tt
      → ((op response h).1 ≡ Call.send (callback_of response) ∷ h) × Taken response h
  unfolding call_back send_request action
  call_back-Taken response h done =
      elim (Result-cases (cluster.parse_url (callback_of response).url)) [
        | inr (x, bad) ↦ absurd (ground arith)
        | inl (_, fine) ↦ elim (Result-cases (cluster.send h (callback_of response))) [
          | inr (x, lost) ↦ absurd (ground arith)
          | inl (resp, answered) ↦ elim (Bool-cases (nat_eq resp.status 200)) [
            | inl accepted ↦ (ground arith, (resp, answered, ground arith))
            | inr refused ↦ absurd (ground arith)
          ]
        ]
      ]

  Tries-Taken :
      (response : String) {out : Result String (Unit {0}) × List Call} {n : ℕ} {h : List Call}
      → Tries (op response) out n h
      → out.0 ≡ ok tt
      → (h' : List Call) × (out.1 ≡ Call.send (callback_of response) ∷ h') × Taken response h'
  Tries-Taken response {h} (stopped e) done =
      let (sent, taken) = call_back-Taken response h (carried _ e done) in
      (h, ap (λ o. o.1) e ∙ sent, taken)
  Tries-Taken response (again failed t) done = Tries-Taken response t done

  report-history :
      (response : String) (h : List Call)
      → (report m r response h).1 ≡ (m.retry 5 (op response) h).1
  unfolding report action
  report-history response h = elim (Result-cases (m.retry 5 (op response) h).0) [
    | inl (a, e) ↦ ground arith
    | inr (x, e) ↦ ground arith
  ]

  report-ok :
      (response : String) (h : List Call)
      → (report m r response h).0 ≡ ok tt
      → (m.retry 5 (op response) h).0 ≡ ok tt
  unfolding report action
  report-ok response h done = elim (Result-cases (m.retry 5 (op response) h).0) [
    | inl (a, e) ↦ e
    | inr (x, e) ↦ absurd (ground arith)
  ]

  run-report :
      (h : List Call) (response : String)
      → (work m r h).0 ≡ ok response
      → run m r h ≡ report m r response (work m r h).1
  unfolding run action
  run-report h response worked = ground arith

  silent : (h : List Call) (e : Failure) → (work m r h).0 ≡ err e → (run m r h).0 ≢ ok tt
  silent h e failed done = absurd (ground (arith, ap (λ o. o.0) (run_fails_silently h e failed).0))

  module _
      (retries : (op : Action Call String (Unit {0})) (h : List Call)
        → Tries op (m.retry 5 op h) 5 h) where
    -- With the documented `backoff.Retry`: when the work gives a response, the run sends the
    -- callback of that response and nothing else behind the work, five times at most.
    pub run_reports :
        (h : List Call) (response : String)
        → (work m r h).0 ≡ ok response
        → Adds (CallsBack response) (work m r h).1 (run m r h).1
          × (length (run m r h).1 ≤ 5 + length (work m r h).1)
    run_reports h response worked =
        rw (run-report h response worked, report-history response (work m r h).1)
          (Tries-calls response (retries (op response) (work m r h).1))

    -- With the documented `backoff.Retry`: a run that succeeds has a response of its work, and its
    -- last call is the callback of that response, which the listener answered with status 200.
    pub run-Taken :
        (h : List Call)
        → (run m r h).0 ≡ ok tt
        → (response : String) × ((work m r h).0 ≡ ok response)
          × (h' : List Call) × ((run m r h).1 ≡ Call.send (callback_of response) ∷ h')
          × Taken response h'
    run-Taken h done = elim (Result-cases (work m r h).0) [
      | inr (e, failed) ↦ absurd (silent h e failed done)
      | inl (response, worked) ↦
          let h1 = (work m r h).1 in
          let reported = rw (run-report h response worked) at done in
          let (h', sent, taken) =
            Tries-Taken response (retries (op response) h1) (report-ok response h1 reported) in
          (
            response,
            worked,
            h',
            ap (λ o. o.1) (run-report h response worked) ∙ report-history response h1 ∙ sent,
            taken,
          )
    ]
