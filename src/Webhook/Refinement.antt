-- ===== src/Webhook/Refinement.antt =====
-- A token store (pkg/webhook/store.go) keeps what `TokenStore` promises; the in-memory one does.
use cloud_agent.Common.{
  String, Bool, true, Option, none, some, List, [], ◌∷◌, ◌==◌, Result, ok, err, ◌≡◌, ◌⊎◌, inl, inr,
  refl, sym, ◌∙◌, ap, arith, eq_iff, eq_refl, if◌then◌else◌, ◌↔◌, Option-cases,
}
use cloud_agent.Webhook.Store.{TokenMap, get_token, verify_token}
use cloud_agent.Webhook.Lookup.{get_token-store_token, get_token-delete_token}
use cloud_agent.Webhook.Contract.{
  TokenStore, in_memory, Op, perform, perform_all, View, Kept, matches, Verdict, Moves, Reaches,
  Reaches.start, Reaches.step, Live, Live.issued, Live.spared,
}
use cloud_agent.Webhook.InForce.{same_or_not, Reaches-Live}

-- A store whose every operation is a move on the tokens in force.
pub record IsStore (s : TokenStore) (view : s.State → View) : Type 0 where
  pub begins : (id : String) → view s.empty id ≡ none
  pub moves :
      (op : Op) (st : s.State) → Moves (perform s op st).0 (view st) (view (perform s op st).1)

matches-true :
    (entry : Option String) (token : String) → matches entry token ≡ true → entry ≡ some token
matches-true none token found = absurd (ground arith)
matches-true (some entry) token found = ground (arith, eq_iff entry token)

-- a token that is accepted was in force before the look-up
was_held :
    (r : Result String Bool) (token : String) (before after : Option String)
    → r ≡ ok true
    → Verdict r token after
    → Kept before after
    → before ≡ some token
was_held (ok b) token before after accepted verdict (inl same) =
    sym same ∙ matches-true after token (ground arith)
was_held (ok b) token before after accepted verdict (inr gone) =
    absurd (ground (arith, matches-true after token))
was_held (err e) token before after accepted verdict kept = absurd (ground arith)

module _ (s : TokenStore) (view : s.State → View) (store : IsStore s view) where
  pub IsStore-Reaches : (ops : List Op) → Reaches (perform_all s ops).0 (view (perform_all s ops).1)
  unfolding perform_all
  IsStore-Reaches [] = start store.begins
  IsStore-Reaches (op ∷ earlier) = step (IsStore-Reaches earlier) (store.moves op _)

  pub IsStore-Live :
      (ops : List Op) (id token : String)
      → (s.verify id token (perform_all s ops).1).0 ≡ ok true
      → Live id token (perform_all s ops).0
  unfolding perform
  IsStore-Live ops id token accepted =
      let st = (perform_all s ops).1 in
      let (verdict, kept) = store.moves (Op.verify id token) st in
      Reaches-Live (view st) id token (IsStore-Reaches ops)
        (was_held _ token _ _ accepted verdict (kept id))

-- a look-up where an entry was written, and elsewhere
pub written_or_Kept :
    (id other : String) (before after entry : Option String)
    → after ≡ (if id == other then entry else before)
    → (other ≡ id) ⊎ Kept before after
written_or_Kept id other before after entry e = elim (same_or_not other id) [
  | inl same ↦ inl same
  | inr differs ↦ inr (inl (ground (arith, eq_iff id other)))
]

pub found_there :
    (id : String) (before after entry : Option String)
    → after ≡ (if id == id then entry else before)
    → after ≡ entry
found_there id before after entry e = ground (arith, eq_refl id)

abbrev memory_view : TokenMap → View
memory_view m id = get_token id m

memory-Moves :
    (op : Op) (m : TokenMap)
    → Moves (perform in_memory op m).0 (memory_view m) (memory_view (perform in_memory op m).1)
unfolding perform verify_token
memory-Moves (Op.store id token) m = (
  found_there id _ _ _ (get_token-store_token id id token m),
  λ other. written_or_Kept id other _ _ _ (get_token-store_token id other token m),
)
memory-Moves (Op.verify id token) m = (verdict, λ other. inl refl)
  where
    verdict : verify_token id token m ≡ matches (get_token id m) token
    verdict = elim (Option-cases (get_token id m)) [
      | inl e ↦ ground arith
      | inr (t, e) ↦ ground arith
    ]
memory-Moves (Op.delete id) m = (
  found_there id _ _ _ (get_token-delete_token id id m),
  λ other. written_or_Kept id other _ _ _ (get_token-delete_token id other m),
)

memory-IsStore : IsStore in_memory memory_view
unfolding get_token
memory-IsStore = record { begins = λ id. refl; moves = memory-Moves }

Live-memory :
    (id token : String) (ops : List Op)
    → Live id token (perform_all in_memory ops).0
    → get_token id (perform_all in_memory ops).1 ≡ some token
unfolding perform_all perform
Live-memory id token [] live = elim live [ ]
Live-memory id token (Op.store other t ∷ earlier) issued =
    ground (arith, get_token-store_token id id token (perform_all in_memory earlier).1, eq_refl id)
Live-memory id token (Op.store other t ∷ earlier) (spared spares live) = ground (
  arith,
  Live-memory id token earlier live,
  get_token-store_token other id t (perform_all in_memory earlier).1,
  eq_iff other id,
)
Live-memory id token (Op.verify other t ∷ earlier) (spared spares live) =
    Live-memory id token earlier live
Live-memory id token (Op.delete other ∷ earlier) (spared spares live) = ground (
  arith,
  Live-memory id token earlier live,
  get_token-delete_token other id (perform_all in_memory earlier).1,
  eq_iff other id,
)

verify_held :
    (id token : String) (m : TokenMap)
    → get_token id m ≡ some token
    → verify_token id token m ≡ true
unfolding verify_token
verify_held id token m held = ground (arith, eq_refl token)

-- After any operations from the empty store, the in-memory store accepts a token for a task exactly
-- when the token was stored for it and since then neither another one was, nor was it deleted.
pub memory_accepts_iff :
    (ops : List Op) (id token : String)
    → (verify_token id token (perform_all in_memory ops).1 ≡ true)
      ↔ Live id token (perform_all in_memory ops).0
memory_accepts_iff ops id token = (
  λ accepted. IsStore-Live in_memory memory_view memory-IsStore ops id token (ap ok accepted),
  λ live. verify_held id token _ (Live-memory id token ops live),
)
