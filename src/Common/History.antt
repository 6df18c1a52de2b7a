-- ===== src/Common/History.antt =====
-- What code adds to a history: `Adds P h h'` says that `h'` is `h` with calls in front that satisfy
-- `P`, and `Emits P m` that `m` adds only such calls, from whatever history. There is a rule for
-- each way to build an action.
use mathlib.Core.Path.{◌≡◌, refl}
use mathlib.Core.Bool.{Bool, true, false}
use mathlib.Core.List.{List, ◌∷◌}
use Prim.Native.Nat.{◌≤◌}
use native.Mathlib.Omega.{arith}
use cloud_agent.Common.Logic.{if◌then◌else◌, length}
use cloud_agent.Common.Effect.{
  Action, Result, ok, err, pure, raise, call, lift, attempt, map_err, asks, tell, ◌>>=◌, action,
}

module _ {C : Type 0} (P : C → Type 0) where
  pub data Adds (h : List C) : List C → Type 0 where
    nothing : Adds h h
    added : {c : C} {h' : List C} → P c → Adds h h' → Adds h (c ∷ h')

  pub Adds-trans : {h h' h'' : List C} → Adds h h' → Adds h' h'' → Adds h h''
  Adds-trans a nothing = a
  Adds-trans a (added p b) = added p (Adds-trans a b)

  pub record Emits {E A : Type 0} (m : Action C E A) : Type 0 where
    pub from : (h : List C) → Adds h (m h).1

  pub Emits-tell : {E : Type 0} {c : C} → P c → Emits {E = E} (tell c)
  unfolding action
  Emits-tell p = record { from = λ h. added p nothing }

  module _ {E A : Type 0} where
    pub Emits-pure : (a : A) → Emits {E = E} (pure a)
    unfolding action
    Emits-pure a = record { from = λ h. nothing }

    pub Emits-raise : (e : E) → Emits {A = A} (raise e)
    unfolding action
    Emits-raise e = record { from = λ h. nothing }

    pub Emits-asks : (f : List C → A) → Emits {E = E} (asks f)
    unfolding action
    Emits-asks f = record { from = λ h. nothing }

    pub Emits-lift : (r : Result E A) → Emits (lift r)
    unfolding action
    Emits-lift r = record { from = λ h. nothing }

    pub Emits-call : {c : C} (answer : List C → Result E A) → P c → Emits (call c answer)
    unfolding action
    Emits-call answer p = record { from = λ h. added p nothing }

    pub Emits-attempt : {F : Type 0} {m : Action C E A} → Emits m → Emits {E = F} (attempt m)
    unfolding action
    Emits-attempt e = record { from = λ h. e.from h }

    pub Emits-if :
        (b : Bool) {m k : Action C E A}
        → (b ≡ true → Emits m)
        → (b ≡ false → Emits k)
        → Emits (if b then m else k)
    Emits-if true m k = m refl
    Emits-if false m k = k refl

    pub bind_result :
        {B : Type 0} (r : Result E A) (f : A → Action C E B) {h h' : List C}
        → Adds h h'
        → ((a : A) → r ≡ ok a → Emits (f a))
        → Adds h (((λ _. (r, h')) >>= f) h).1
    unfolding action
    bind_result (ok a) f e k = Adds-trans e ((k a refl).from _)
    bind_result (err x) f e k = e

    pub Emits-bind :
        {B : Type 0} {m : Action C E A} {f : A → Action C E B}
        → Emits m
        → ((a : A) → Emits (f a))
        → Emits (m >>= f)
    unfolding action
    Emits-bind {m} {f} e k = record { from = λ h. bind_result (m h).0 f (e.from h) (λ a _. k a) }

    -- what was computed without a call is known behind it
    pub Emits-bind-lift :
        {B : Type 0} {r : Result E A} {f : A → Action C E B}
        → ((a : A) → r ≡ ok a → Emits (f a))
        → Emits (lift r >>= f)
    unfolding action
    Emits-bind-lift {r} {f} k = record { from = λ h. bind_result r f nothing k }

    map_result :
        {F : Type 0} (g : E → F) (r : Result E A) {h h' : List C}
        → Adds h h'
        → Adds h (map_err g (λ _. (r, h')) h).1
    unfolding action
    map_result g (ok a) e = e
    map_result g (err x) e = e

    pub Emits-map_err : {F : Type 0} (g : E → F) {m : Action C E A} → Emits m → Emits (map_err g m)
    unfolding action
    Emits-map_err g {m} e = record { from = λ h. map_result g (m h).0 (e.from h) }

    -- `elim` on the result of an attempt
    pub Emits-cases :
        {F B : Type 0} (r : Result F B) {f : B → Action C E A} {g : F → Action C E A}
        → ((b : B) → Emits (f b))
        → ((x : F) → Emits (g x))
        → Emits (elim r [ ok b ↦ f b | err x ↦ g x ])
    Emits-cases (ok b) k l = k b
    Emits-cases (err x) k l = l x

module _ {C : Type 0} {P Q : C → Type 0} (weaker : (c : C) → P c → Q c) where
  Adds-mono : {h h' : List C} → Adds P h h' → Adds Q h h'
  Adds-mono nothing = nothing
  Adds-mono (added p a) = added (weaker _ p) (Adds-mono a)

  pub Emits-mono : {E A : Type 0} {m : Action C E A} → Emits P m → Emits Q m
  Emits-mono e = record { from = λ h. Adds-mono (e.from h) }

-- A history only grows.
pub Adds-length : {C : Type 0} {P : C → Type 0} {h h' : List C} → Adds P h h' → length h ≤ length h'
Adds-length nothing = omega arith
Adds-length (added p a) = omega (arith, Adds-length a)
