-- ===== src/Sandbox/Racing.antt =====
-- Handlers of `TaskHandler` (pkg/sandbox/http.go) that run at the same time: each reads
-- `taskAccepted` first, and writes it in another step, when its request has passed the checks.
use mathlib.Core.List.{◌++◌}
use cloud_agent.Common.{
  suc, ◌+◌, ◌≤◌, ℕ, Bool, true, false, List, [], ◌∷◌, length, ok, err, ◌≡◌, refl, ap, ◌∙◌, arith,
}
use cloud_agent.Sandbox.Client.{TaskRequest}
use cloud_agent.Sandbox.Handler.{ServerRequest, TaskReply, admit}

-- `taskAccepted`, the requests that found it unset and are being checked, and the runners, newest
-- first.
pub record Server : Type 0 where
  pub accepted : Bool
  pub checking : List ServerRequest
  pub runners : List TaskRequest

abbrev pub fresh : Server
fresh = record { accepted = false; checking = []; runners = [] }

pub data Step : Server → Server → Type 0 where
  turned_away : {s : Server} → ServerRequest → s.accepted ≡ true → Step s s
  entered :
      {s : Server} (r : ServerRequest)
      → s.accepted ≡ false
      → Step s (record s { checking = r ∷ s.checking })
  refused :
      {s : Server} (before : List ServerRequest) (r : ServerRequest) (after : List ServerRequest)
      (reply : TaskReply)
      → s.checking ≡ before ++ r ∷ after
      → admit false r ≡ err reply
      → Step s (record s { checking = before ++ after })
  started :
      {s : Server} (before : List ServerRequest) (r : ServerRequest) (after : List ServerRequest)
      (req : TaskRequest)
      → s.checking ≡ before ++ r ∷ after
      → admit false r ≡ ok req
      → Step s (record { accepted = true; checking = before ++ after; runners = req ∷ s.runners })

pub data Steps (s : Server) : Server → Type 0 where
  none_yet : Steps s s
  then_step : {s1 s2 : Server} → Steps s s1 → Step s1 s2 → Steps s s2

-- each request is admitted, as the task request beside it
pub data Admitted : List ServerRequest → List TaskRequest → Type 0 where
  no_more : Admitted [] []
  one_more :
      {rs : List ServerRequest} {reqs : List TaskRequest} (r : ServerRequest) (req : TaskRequest)
      → admit false r ≡ ok req
      → Admitted rs reqs
      → Admitted (r ∷ rs) (req ∷ reqs)

all_enter : (rs : List ServerRequest) → Steps fresh (record fresh { checking = rs })
all_enter [] = none_yet
all_enter (r ∷ rs) = then_step (all_enter rs) (entered r refl)

-- the requests, newest first, in front of the runners
abbrev pub newest_first : List TaskRequest → List TaskRequest → List TaskRequest
newest_first [] runners = runners
newest_first (req ∷ reqs) runners = newest_first reqs (req ∷ runners)

all_start :
    (accepted : Bool) (runners : List TaskRequest) {rs : List ServerRequest}
    {reqs : List TaskRequest}
    → Admitted rs reqs
    → Steps fresh (record { accepted = accepted; checking = rs; runners = runners })
    → (s : Server) × Steps fresh s × (s.runners ≡ newest_first reqs runners)
all_start accepted runners no_more steps = (_, steps, refl)
all_start accepted runners (one_more {rs} r req admitted more) steps =
    all_start true (req ∷ runners) more (then_step steps (started [] r rs req refl admitted))

-- Requests that a fresh server admits are all run, however many there are, when each of them
-- arrives before the first has been checked: there is an order of the steps that starts a runner
-- for every one.
pub race-Steps :
    (rs : List ServerRequest) (reqs : List TaskRequest)
    → Admitted rs reqs
    → (s : Server) × Steps fresh s × (s.runners ≡ newest_first reqs [])
race-Steps rs reqs admitted = all_start false [] admitted (all_enter rs)

length-removed :
    (before after : List ServerRequest) (r : ServerRequest)
    → length (before ++ r ∷ after) ≡ suc (length (before ++ after))
length-removed [] after r = refl
length-removed (x ∷ before) after r = omega (arith, length-removed before after r)

-- the handlers that have a runner or may still start one
abbrev pub running : Server → ℕ
running s = length s.runners + length s.checking

Step-running :
    (s s' : Server)
    → Step s s'
    → s.accepted ≡ true
    → (s'.accepted ≡ true) × (running s' ≤ running s)
Step-running s s' (turned_away r _) taken = (taken, omega arith)
Step-running s s' (entered r free) taken = absurd (ground arith)
Step-running s s' (refused before r after reply e _) taken =
    (taken, omega (arith, ap length e ∙ length-removed before after r))
Step-running s s' (started before r after req e _) taken =
    (refl, omega (arith, ap length e ∙ length-removed before after r))

-- Once the flag is set, no further request gets past it: from then on the runners and the handlers
-- that are still being checked together never grow in number.
pub Steps-running :
    (s s' : Server)
    → s.accepted ≡ true
    → Steps s s'
    → (s'.accepted ≡ true) × (running s' ≤ running s)
Steps-running s s' taken none_yet = (taken, omega arith)
Steps-running s s' taken (then_step {s1} steps step) =
    let (still, few) = Steps-running s s1 taken steps in
    let (after, fewer) = Step-running s1 s' step still in (after, omega (arith, few, fewer))
