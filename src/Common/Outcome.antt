-- ===== src/Common/Outcome.antt =====
-- What the result of an action satisfies: `Yields` of its value, `Fails` of its error.
use mathlib.Core.Path.{◌≡◌, refl, sym, ap, ◌∙◌}
use mathlib.Core.Bool.{Bool, true, false}
use mathlib.Core.List.{List, ◌∷◌}
use native.Mathlib.Omega.{arith}
use mathlib.Core.Logic.{inl, inr}
use cloud_agent.Common.Logic.{if◌then◌else◌}
use cloud_agent.Common.Effect.{
  Action, Result, ok, err, pure, raise, call, lift, attempt, map_err, ◌>>=◌, action, Result-cases,
}
use cloud_agent.Common.History.{Emits, bind_result}

ok_injective : {E A : Type 0} (r : Result E A) {a b : A} → r ≡ ok a → r ≡ ok b → a ≡ b
ok_injective r e f = cc

-- `Yields Q m`: a result of `m` satisfies `Q`.
module _ {C E : Type 0} where
  pub record Yields {A : Type 0} (Q : A → Type 0) (m : Action C E A) : Type 0 where
    pub run : (h : List C) (a : A) → (m h).0 ≡ ok a → Q a

  module _ {A : Type 0} {Q : A → Type 0} where
    pub Yields-pure : (a : A) → Q a → Yields Q (pure a)
    unfolding action
    Yields-pure a q = record {
      run = λ h b e. rw (sym (ok_injective (pure {E = E} a h).0 refl e)) q;
    }

    pub Yields-raise : (e : E) → Yields Q (raise e)
    unfolding action
    Yields-raise e = record { run = λ h b e. absurd (ground arith) }

    pub Yields-if :
        (b : Bool) {m k : Action C E A}
        → (b ≡ true → Yields Q m)
        → (b ≡ false → Yields Q k)
        → Yields Q (if b then m else k)
    Yields-if true m k = m refl
    Yields-if false m k = k refl

    pub Yields-cases :
        {F B : Type 0} (r : Result F B) {f : B → Action C E A} {g : F → Action C E A}
        → ((b : B) → Yields Q (f b))
        → ((x : F) → Yields Q (g x))
        → Yields Q (elim r [ ok b ↦ f b | err x ↦ g x ])
    Yields-cases (ok b) k l = k b
    Yields-cases (err x) k l = l x

    bind_yields :
        {B : Type 0} (r : Result E B) (f : B → Action C E A) (h h' : List C) (a : A)
        → ((b : B) → r ≡ ok b → Yields Q (f b))
        → (((λ _. (r, h')) >>= f) h).0 ≡ ok a
        → Q a
    unfolding action
    bind_yields (ok b) f h h' a k e = (k b refl).run _ a e
    bind_yields (err x) f h h' a k e = absurd (ground arith)

    pub Yields-bind :
        {B : Type 0} (m : Action C E B) {f : B → Action C E A}
        → ((b : B) → Yields Q (f b))
        → Yields Q (m >>= f)
    unfolding action
    Yields-bind m {f} k = record { run = λ h a e. bind_yields (m h).0 f h _ a (λ b _. k b) e }

  mapped_lift :
      {A F : Type 0} (g : F → E) (r : Result F A) (h : List C) {a : A}
      → (map_err g (lift r) h).0 ≡ ok a
      → r ≡ ok a
  unfolding action
  mapped_lift g (ok b) h e =
      let r : Result E _ = ok b in let same : b ≡ _ = ok_injective r refl e in cc
  mapped_lift g (err x) h e = absurd (ground arith)

  pub Yields-map_err-lift :
      {A F : Type 0} (g : F → E) (r : Result F A) → Yields (λ a. r ≡ ok a) (map_err g (lift r))
  Yields-map_err-lift g r = record { run = λ h a e. mapped_lift g r h e }

  pub Yields-bind-Yields :
      {A B : Type 0} {R : B → Type 0} {Q : A → Type 0} {m : Action C E B} {f : B → Action C E A}
      → Yields R m
      → ((b : B) → R b → Yields Q (f b))
      → Yields Q (m >>= f)
  unfolding action
  Yields-bind-Yields {m} {f} y k = record {
    run = λ h a e. bind_yields (m h).0 f h _ a (λ b same. k b (y.run h b same)) e;
  }

  -- what a step yields is known behind it
  pub Emits-bind-Yields :
      {A B : Type 0} {P : C → Type 0} {Q : A → Type 0} {m : Action C E A} {f : A → Action C E B}
      → Emits P m
      → Yields Q m
      → ((a : A) → Q a → Emits P (f a))
      → Emits P (m >>= f)
  unfolding action
  Emits-bind-Yields {P} {m} {f} e y k = record {
    from = λ h. bind_result P (m h).0 f (e.from h) (λ a same. k a (y.run h a same));
  }

err_injective : {E A : Type 0} (r : Result E A) {a b : E} → r ≡ err a → r ≡ err b → a ≡ b
err_injective r e f = cc

-- `Fails R m`: an error of `m` satisfies `R`, with the history that it leaves.
module _ {C E : Type 0} (R : E → List C → Type 0) where
  pub record Fails {A : Type 0} (m : Action C E A) : Type 0 where
    pub stops : (h : List C) (e : E) → (m h).0 ≡ err e → R e (m h).1

  module _ {A : Type 0} where
    pub Fails-pure : (a : A) → Fails (pure a)
    unfolding action
    Fails-pure a = record { stops = λ h e failed. absurd (ground arith) }

    pub Fails-raise : {e : E} → ((h : List C) → R e h) → Fails {A = A} (raise e)
    unfolding action
    Fails-raise {e} k = record {
      stops =
          λ h x failed. rw (sym (err_injective (raise {C = C} {A = A} e h).0 refl failed)) (k h);
    }

    pub Fails-call-ok : (c : C) (answer : List C → A) → Fails (call c (λ h. ok (answer h)))
    unfolding action
    Fails-call-ok c answer = record { stops = λ h e failed. absurd (ground arith) }

    pub Fails-attempt : {F : Type 0} (m : Action C F A) → Fails (attempt m)
    unfolding action
    Fails-attempt m = record { stops = λ h e failed. absurd (ground arith) }

    mapped_call :
        {F : Type 0} (g : F → E) (r : Result F A) (h h' : List C) (e : E)
        → ((x : F) → R (g x) h')
        → (map_err g (λ _. (r, h')) h).0 ≡ err e
        → R e (map_err g (λ _. (r, h')) h).1
    unfolding action
    mapped_call g (ok a) h h' e k failed = absurd (ground arith)
    mapped_call g (err x) h h' e k failed =
        let r : Result E A = err (g x) in rw (sym (err_injective r refl failed)) (k x)

    pub Fails-map_err-call :
        {F : Type 0} (g : F → E) {c : C} (answer : List C → Result F A)
        → ((h : List C) (x : F) → R (g x) (c ∷ h))
        → Fails (map_err g (call c answer))
    unfolding action
    Fails-map_err-call g {c} answer k = record {
      stops = λ h e failed. mapped_call g (answer h) h (c ∷ h) e (k h) failed;
    }

    pub Fails-map_err :
        {F : Type 0} (g : F → E) (m : Action C F A)
        → ((h : List C) (x : F) → R (g x) h)
        → Fails (map_err g m)
    unfolding action
    Fails-map_err g m k = record {
      stops = λ h e failed. mapped_call g (m h).0 h (m h).1 e (k (m h).1) failed;
    }

    pub Fails-if :
        (b : Bool) {m k : Action C E A}
        → (b ≡ true → Fails m)
        → (b ≡ false → Fails k)
        → Fails (if b then m else k)
    Fails-if true m k = m refl
    Fails-if false m k = k refl

    bind_fails :
        {B : Type 0} (r : Result E A) (f : A → Action C E B) (h h' : List C) (e : E)
        → ((x : E) → r ≡ err x → R x h')
        → ((a : A) → Fails (f a))
        → (((λ _. (r, h')) >>= f) h).0 ≡ err e
        → R e (((λ _. (r, h')) >>= f) h).1
    unfolding action
    bind_fails (ok a) f h h' e l k failed = (k a).stops h' e failed
    bind_fails {B} (err x) f h h' e l k failed =
        let r : Result E B = err x in rw (sym (err_injective r refl failed)) (l x refl)

    pub Fails-bind :
        {B : Type 0} {m : Action C E A} {f : A → Action C E B}
        → Fails m
        → ((a : A) → Fails (f a))
        → Fails (m >>= f)
    unfolding action
    Fails-bind {m} {f} l k = record {
      stops = λ h e failed. bind_fails (m h).0 f h (m h).1 e (l.stops h) k failed;
    }

-- A bind that succeeds goes through both of its steps.
bind_result_ok :
    {C E A B : Type 0} (r : Result E A) (f : A → Action C E B) (h h' : List C) (b : B)
    → (((λ _. (r, h')) >>= f) h).0 ≡ ok b
    → (a : A) × (r ≡ ok a) × (((λ _. (r, h')) >>= f) h ≡ f a h')
unfolding action
bind_result_ok (ok a) f h h' b e = (a, refl, refl)
bind_result_ok (err x) f h h' b e = absurd (ground arith)

pub bind_ok :
    {C E A B : Type 0} (m : Action C E A) (f : A → Action C E B) (h : List C) (b : B)
    → ((m >>= f) h).0 ≡ ok b
    → (a : A) × ((m h).0 ≡ ok a) × ((m >>= f) h ≡ f a (m h).1)
unfolding action
bind_ok m f h b e = bind_result_ok (m h).0 f h (m h).1 b e

pub call_step :
    {C E F A B : Type 0} (g : F → E) (c : C) (answer : List C → Result F B) (f : B → Action C E A)
    (h : List C) (a : A)
    → ((map_err g (call c answer) >>= f) h).0 ≡ ok a
    → (b : B) × (answer h ≡ ok b) × ((map_err g (call c answer) >>= f) h ≡ f b (c ∷ h))
unfolding action
call_step g c answer f h a done = elim (Result-cases (answer h)) [
  | inl (b, e) ↦ (b, e, ground arith)
  | inr (x, e) ↦ absurd (ground arith)
]

pub pure_result : {C E A : Type 0} (a : A) (h : List C) → pure {E = E} a h ≡ (ok a, h)
unfolding action
pure_result a h = refl

pub bind_known :
    {C E A B : Type 0} (m : Action C E A) (f : A → Action C E B) {h h' : List C} {a : A}
    → m h ≡ (ok a, h')
    → (m >>= f) h ≡ f a h'
unfolding action
bind_known {B} m f {h} e = ap {B = Result _ B × List _} (λ o. ((λ _. o) >>= f) h) e

-- what a step makes of an equation on the result
pub carried : {A B : Type 0} {x y : A × B} (a : A) → x ≡ y → x.0 ≡ a → y.0 ≡ a
carried a same e = sym (ap (λ o. o.0) same) ∙ e
