-- ===== src/Webhook/Store.antt =====
-- The token stores (pkg/webhook/store.go): the in-memory map, and the store in Redis.
use Prim.Native.String.{◌++◌}
use cloud_agent.Common.{
  ℕ, ◌*◌, String, Bool, false, Option, none, some, List, [], ◌∷◌, ◌==◌, if◌then◌else◌, Result, ok,
  err,
}
use cloud_agent.Webhook.Server.{Call}

-- the map `tokens`
abbrev pub TokenMap : Type 0
TokenMap = List (String × String)

-- `GetToken`
unfoldable pub get_token : String → TokenMap → Option String
get_token id [] = none
get_token id ((k, v) ∷ m) = if k == id then some v else get_token id m

-- `StoreToken`: `s.tokens[taskID] = token`
unfoldable pub store_token : String → String → TokenMap → TokenMap
store_token id token [] = (id, token) ∷ []
store_token id token ((k, v) ∷ m) =
    if k == id then (id, token) ∷ m else (k, v) ∷ store_token id token m

-- `DeleteToken`: `delete(s.tokens, taskID)`. A map has a key once, and this drops every pair of it.
unfoldable pub delete_token : String → TokenMap → TokenMap
delete_token id [] = []
delete_token id ((k, v) ∷ m) = if k == id then delete_token id m else (k, v) ∷ delete_token id m

unfoldable pub verify_token : String → String → TokenMap → Bool
verify_token id token m = elim (get_token id m) [ none ↦ false | some stored ↦ stored == token ]

-- The map after the calls of a history, from the empty one of `NewInMemoryTokenStore`.
unfoldable pub tokens_after : List Call → TokenMap
unfolding store_token delete_token
tokens_after [] = []
tokens_after (Call.store_token id token ∷ h) = store_token id token (tokens_after h)
tokens_after (Call.delete_token id ∷ h) = delete_token id (tokens_after h)
tokens_after (_ ∷ h) = tokens_after h

-- The client of go-redis, on a server with a state of its own. Durations are in nanoseconds; a
-- look-up that finds nothing (`redis.Nil`) is `ok none`.
pub record Redis : Type 1 where
  pub Db : Type 0
  pub set : Db → String → String → ℕ → Result String (Unit {0}) × Db
  pub get : Db → String → Result String (Option String) × Db
  pub del : Db → String → Result String (Unit {0}) × Db

-- `redisKey`
unfoldable pub redis_key : String → String
redis_key task_id = "callback_token:" ++ task_id

abbrev pub token_lifetime : ℕ
token_lifetime = 24 * 3600 * 1_000_000_000

wrapped : {A : Type 0} → String → Result String A → Result String A
wrapped context (ok a) = ok a
wrapped context (err e) = err (context ++ e)

module _ (redis : Redis) where
  open redis use {Db, set, get, del}

  unfoldable pub redis_store_token : String → String → Db → Result String (Unit {0}) × Db
  unfolding wrapped
  redis_store_token id token db =
      let (r, db') = set db (redis_key id) token token_lifetime in
      (wrapped "failed to store token in Redis: " r, db')

  unfoldable pub redis_verify_token : String → String → Db → Result String Bool × Db
  redis_verify_token id token db =
      let (r, db') = get db (redis_key id) in
      let valid : Result String Bool = elim r [
        | ok none ↦ ok false
        | ok (some stored) ↦ ok (stored == token)
        | err e ↦ err ("failed to get token from Redis: " ++ e)
      ] in
      (valid, db')

  unfoldable pub redis_delete_token : String → Db → Result String (Unit {0}) × Db
  unfolding wrapped
  redis_delete_token id db =
      let (r, db') = del db (redis_key id) in (wrapped "failed to delete token from Redis: " r, db')
