-- ===== src/Webhook/Contract.antt =====
-- The interface `TokenStore` (pkg/webhook/store.go), its two implementations, and what a store
-- promises: a machine on the tokens in force, in which an entry may expire at any operation.
use cloud_agent.Common.{
  String, Bool, false, Option, none, some, List, [], ◌∷◌, ◌==◌, Result, ok, err, ◌≡◌, ◌≢◌, ◌⊎◌,
}
use cloud_agent.Webhook.Store.{
  TokenMap, Redis, store_token, verify_token, delete_token, redis_store_token, redis_verify_token,
  redis_delete_token,
}

pub record TokenStore : Type 1 where
  pub State : Type 0
  pub empty : State
  pub store : String → String → State → Result String (Unit {0}) × State
  pub verify : String → String → State → Result String Bool × State
  pub delete : String → State → Result String (Unit {0}) × State

-- `InMemoryTokenStore`, from `NewInMemoryTokenStore`
abbrev pub in_memory : TokenStore
in_memory = record {
  State = TokenMap;
  empty = [];
  store = λ id token s. (ok tt, store_token id token s);
  verify = λ id token s. (ok (verify_token id token s), s);
  delete = λ id s. (ok tt, delete_token id s);
}

-- `RedisTokenStore`, on a server that starts out as `db`
abbrev pub in_redis : (redis : Redis) → redis.Db → TokenStore
in_redis redis db = record {
  State = redis.Db;
  empty = db;
  store = redis_store_token redis;
  verify = redis_verify_token redis;
  delete = redis_delete_token redis;
}

-- An operation with its answer.
pub data Event : Type 0 where
  stored : String → String → Result String (Unit {0}) → Event
  verified : String → String → Result String Bool → Event
  deleted : String → Result String (Unit {0}) → Event

pub data Op : Type 0 where
  store verify : String → String → Op
  delete : String → Op

-- The events of some operations, newest first, and the state behind them.
module _ (s : TokenStore) where
  unfoldable pub perform : Op → s.State → Event × s.State
  perform (Op.store id token) st = let (r, st') = s.store id token st in (stored id token r, st')
  perform (Op.verify id token) st =
      let (r, st') = s.verify id token st in (verified id token r, st')
  perform (Op.delete id) st = let (r, st') = s.delete id st in (deleted id r, st')

  unfoldable pub perform_all : List Op → List Event × s.State
  perform_all [] = ([], s.empty)
  perform_all (op ∷ earlier) =
      let (events, st) = perform_all earlier in
      let (event, st') = perform op st in (event ∷ events, st')

-- The token in force for each task.
abbrev pub View : Type 0
View = String → Option String

-- An entry that is as it was, or has expired.
abbrev pub Kept : Option String → Option String → Type 0
Kept before after = (after ≡ before) ⊎ (after ≡ none)

abbrev pub Elsewhere : String → View → View → Type 0
Elsewhere id before after = (other : String) → (other ≡ id) ⊎ Kept (before other) (after other)

-- A write of an entry has an effect for certain only when it succeeds.
abbrev pub Written :
    Result String (Unit {0}) → Option String → Option String → Option String → Type 0
Written (ok _) entry before after = after ≡ entry
Written (err _) entry before after = (after ≡ entry) ⊎ Kept before after

abbrev pub matches : Option String → String → Bool
matches none token = false
matches (some entry) token = entry == token

-- a verdict on the entry
abbrev pub Verdict : Result String Bool → String → Option String → Type 0
Verdict (ok b) token entry = b ≡ matches entry token
Verdict (err _) token entry = Unit

abbrev pub Moves : Event → View → View → Type 0
Moves (stored id token r) before after =
    Written r (some token) (before id) (after id) × Elsewhere id before after
Moves (verified id token r) before after =
    Verdict r token (after id) × ((other : String) → Kept (before other) (after other))
Moves (deleted id r) before after =
    Written r none (before id) (after id) × Elsewhere id before after

-- What some events, newest first, can lead to from no token at all.
pub data Reaches : List Event → View → Type 0 where
  start : {view : View} → ((id : String) → view id ≡ none) → Reaches [] view
  step :
      {events : List Event} {event : Event} {before after : View}
      → Reaches events before
      → Moves event before after
      → Reaches (event ∷ events) after

-- An event that leaves the entry of a task in force: no other token was stored for it, and it was
-- not deleted. One that failed counts for nothing.
abbrev pub Spares : String → Event → Type 0
Spares id (stored other _ (ok _)) = id ≢ other
Spares id (deleted other (ok _)) = id ≢ other
Spares id _ = Unit

-- The token was stored for the task, and every event since has spared it.
pub data Live (id token : String) : List Event → Type 0 where
  issued :
      {events : List Event} {r : Result String (Unit {0})}
      → Live id token (stored id token r ∷ events)
  spared :
      {events : List Event} {event : Event}
      → Spares id event
      → Live id token events
      → Live id token (event ∷ events)
