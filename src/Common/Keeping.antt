-- ===== src/Common/Keeping.antt =====
-- A property of histories that an action keeps: `Keeps R m` says that `R` holds of the history that
-- `m` leaves when it holds of the one before. There is a rule for each way to build an action.
use mathlib.Core.Path.{◌≡◌, refl}
use mathlib.Core.Bool.{Bool, true, false}
use mathlib.Core.List.{List, ◌∷◌}
use cloud_agent.Common.Logic.{if◌then◌else◌}
use cloud_agent.Common.Effect.{
  Action, Result, ok, err, pure, raise, call, attempt, asks, tell, ◌>>=◌, action,
}

module _ {C : Type 0} (R : List C → Type 0) where
  pub record Keeps {E A : Type 0} (m : Action C E A) : Type 0 where
    pub keeps : (h : List C) → R h → R (m h).1

  pub Keeps-tell : {E : Type 0} {c : C} → ((h : List C) → R h → R (c ∷ h)) → Keeps {E = E} (tell c)
  unfolding action
  Keeps-tell k = record { keeps = k }

  module _ {E A : Type 0} where
    pub Keeps-pure : (a : A) → Keeps {E = E} (pure a)
    unfolding action
    Keeps-pure a = record { keeps = λ h r. r }

    pub Keeps-raise : (e : E) → Keeps {A = A} (raise e)
    unfolding action
    Keeps-raise e = record { keeps = λ h r. r }

    pub Keeps-asks : (f : List C → A) → Keeps {E = E} (asks f)
    unfolding action
    Keeps-asks f = record { keeps = λ h r. r }

    pub Keeps-call :
        {c : C} (answer : List C → Result E A)
        → ((h : List C) → R h → R (c ∷ h))
        → Keeps (call c answer)
    unfolding action
    Keeps-call answer k = record { keeps = k }

    pub Keeps-attempt : {F : Type 0} {m : Action C E A} → Keeps m → Keeps {E = F} (attempt m)
    unfolding action
    Keeps-attempt k = record { keeps = λ h r. k.keeps h r }

    pub Keeps-if :
        (b : Bool) {m k : Action C E A}
        → (b ≡ true → Keeps m)
        → (b ≡ false → Keeps k)
        → Keeps (if b then m else k)
    Keeps-if true m k = m refl
    Keeps-if false m k = k refl

    kept_result :
        {B : Type 0} (r : Result E A) (f : A → Action C E B) (h : List C)
        → R h
        → ((a : A) → Keeps (f a))
        → R (((λ _. (r, h)) >>= f) h).1
    unfolding action
    kept_result (ok a) f h e k = (k a).keeps h e
    kept_result (err x) f h e k = e

    pub Keeps-bind :
        {B : Type 0} {m : Action C E A} {f : A → Action C E B}
        → Keeps m
        → ((a : A) → Keeps (f a))
        → Keeps (m >>= f)
    unfolding action
    Keeps-bind {m} {f} e k = record { keeps = λ h r. kept_result (m h).0 f (m h).1 (e.keeps h r) k }

    pub Keeps-cases :
        {F B : Type 0} (r : Result F B) {f : B → Action C E A} {g : F → Action C E A}
        → ((b : B) → Keeps (f b))
        → ((x : F) → Keeps (g x))
        → Keeps (elim r [ ok b ↦ f b | err x ↦ g x ])
    Keeps-cases (ok b) k l = k b
    Keeps-cases (err x) k l = l x
