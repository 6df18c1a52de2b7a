-- ===== src/Common/Effect.antt =====
-- Code with side effects: every call of something outside the process is put on a history, the
-- newest first. What the outside answers is a function of that history, so it may change with
-- every call. A failure keeps the history: what was done stays done.
use mathlib.Core.List.{List, ◌∷◌}
use mathlib.Core.Path.{◌≡◌, refl}
use mathlib.Core.Logic.{◌⊎◌, inl, inr}

pub data Result (E A : Type 0) : Type 0 where
  ok : A → Result E A
  err : E → Result E A

abbrev pub Action : Type 0 → Type 0 → Type 0 → Type 0
Action C E A = List C → Result E A × List C

module _ {C E A : Type 0} where
  unfoldable pub pure : A → Action C E A
  pure a h = (ok a, h)

  unfoldable pub raise : E → Action C E A
  raise e h = (err e, h)

  -- A call whose answer is read off the history before it.
  unfoldable pub call : C → (List C → Result E A) → Action C E A
  call c answer h = (answer h, c ∷ h)

  unfoldable pub lift : Result E A → Action C E A
  lift r h = (r, h)

  -- `x, err := m`, where the code goes on with the error in hand.
  unfoldable pub attempt : {F : Type 0} → Action C E A → Action C F (Result E A)
  attempt m h = let (r, h') = m h in (ok r, h')

  unfoldable pub map_err : {F : Type 0} → (E → F) → Action C E A → Action C F A
  map_err f m h = let (r, h') = m h in elim r [ ok a ↦ (ok a, h') | err e ↦ (err (f e), h') ]

-- What is read off the history.
unfoldable pub asks : {C E A : Type 0} → (List C → A) → Action C E A
asks f h = (ok (f h), h)

-- A call with no answer.
unfoldable pub tell : {C E : Type 0} → C → Action C E (Unit {0})
tell c h = (ok tt, c ∷ h)

infixl 5 ◌>>=◌ ◌>>◌
unfoldable pub ◌>>=◌ : {C E A B : Type 0} → Action C E A → (A → Action C E B) → Action C E B
◌>>=◌ m f h = let (r, h') = m h in elim r [ ok a ↦ f a h' | err e ↦ (err e, h') ]

abbrev pub ◌>>◌ : {C E A B : Type 0} → Action C E A → Action C E B → Action C E B
m >> k = m >>= λ _. k

-- A proof or a test that runs actions says `unfolding action`.
unfoldable pub action : Unit {0}
unfolding pure raise call lift attempt map_err asks tell ◌>>=◌
action = tt

pub Result-cases :
    {E A : Type 0} (r : Result E A) → ((a : A) × (r ≡ ok a)) ⊎ ((e : E) × (r ≡ err e))
Result-cases (ok a) = inl (a, refl)
Result-cases (err e) = inr (e, refl)
