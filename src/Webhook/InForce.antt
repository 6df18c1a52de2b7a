-- ===== src/Webhook/InForce.antt =====
-- A token in force in a store (pkg/webhook/store.go) was stored, and no event since has ended it.
use cloud_agent.Common.{
  String, none, some, List, ◌∷◌, ◌==◌, Result, ok, err, ◌≡◌, ◌≢◌, ◌⊎◌, inl, inr, sym, ◌∙◌, arith,
  eq_iff, Bool-cases,
}
use cloud_agent.Webhook.Contract.{
  Event, Event.stored, Event.verified, Event.deleted, View, Kept, Written, Moves, Reaches,
  Reaches.start, Reaches.step, Spares, Live, Live.issued, Live.spared,
}

pub same_or_not : (a b : String) → (a ≡ b) ⊎ (a ≢ b)
same_or_not a b = elim (Bool-cases (a == b)) [
  | inl same ↦ inl (ground (arith, eq_iff a b))
  | inr differs ↦ inr λ e. ground (arith, eq_iff a b)
]

stored-Spares :
    (id other t : String) (r : Result String (Unit {0})) → id ≢ other → Spares id (stored other t r)
stored-Spares id other t (ok _) differs = differs
stored-Spares id other t (err _) differs = tt

deleted-Spares :
    (id other : String) (r : Result String (Unit {0})) → id ≢ other → Spares id (deleted other r)
deleted-Spares id other (ok _) differs = differs
deleted-Spares id other (err _) differs = tt

module _ {events : List Event} (before after : View) (id token : String)
    (past : before id ≡ some token → Live id token events) (held : after id ≡ some token) where
  Kept-Live :
      (event : Event)
      → Spares id event
      → Kept (before id) (after id)
      → Live id token (event ∷ events)
  Kept-Live event spares (inl same) = spared spares (past (sym same ∙ held))
  Kept-Live event spares (inr gone) = absurd (ground arith)

  elsewhere-Live :
      (event : Event) (other : String)
      → id ≢ other
      → Spares id event
      → (id ≡ other) ⊎ Kept (before id) (after id)
      → Live id token (event ∷ events)
  elsewhere-Live event other differs spares (inl same) = absurd (differs same)
  elsewhere-Live event other differs spares (inr kept) = Kept-Live event spares kept

  stored-Live :
      (t : String) (r : Result String (Unit {0}))
      → Written r (some t) (before id) (after id)
      → Live id token (stored id t r ∷ events)
  stored-Live t (ok done) written = let e : t ≡ token = ground arith in rw e issued
  stored-Live t (err e) (inl written) = let e : t ≡ token = ground arith in rw e issued
  stored-Live t (err e) (inr kept) = Kept-Live _ tt kept

  deleted-Live :
      (r : Result String (Unit {0}))
      → Written r none (before id) (after id)
      → Live id token (deleted id r ∷ events)
  deleted-Live (ok done) written = absurd (ground arith)
  deleted-Live (err e) (inl gone) = absurd (ground arith)
  deleted-Live (err e) (inr kept) = Kept-Live _ tt kept

  Moves-Live : (event : Event) → Moves event before after → Live id token (event ∷ events)
  Moves-Live (stored other t r) (written, elsewhere) = elim (same_or_not id other) [
    | inl same ↦ rw (sym same) (stored-Live t r (rw (sym same) at written))
    | inr differs ↦
        elsewhere-Live _ other differs (stored-Spares id other t r differs) (elsewhere id)
  ]
  Moves-Live (verified other t r) (_, kept) = Kept-Live _ tt (kept id)
  Moves-Live (deleted other r) (written, elsewhere) = elim (same_or_not id other) [
    | inl same ↦ rw (sym same) (deleted-Live r (rw (sym same) at written))
    | inr differs ↦
        elsewhere-Live _ other differs (deleted-Spares id other r differs) (elsewhere id)
  ]

pub Reaches-Live :
    {events : List Event} (view : View) (id token : String)
    → Reaches events view
    → view id ≡ some token
    → Live id token events
Reaches-Live view id token (start none_yet) held = absurd (ground (arith, none_yet id))
Reaches-Live view id token (step {event} {before} past moves) held =
    Moves-Live before view id token (Reaches-Live before id token past) held event moves
