-- ===== src/Webhook/RedisStore.antt =====
-- The token store in Redis (pkg/webhook/store.go) keeps what `TokenStore` promises.
use Prim.Native.String.{◌++◌}
use text.Mathlib.TextLemmas.{append_cancel_left}
use cloud_agent.Common.{
  String, true, false, Option, none, some, List, ◌==◌, Result, ok, err, ◌≡◌, ◌⊎◌, inl, inr, refl,
  sym, ℕ,
}
use cloud_agent.Webhook.Store.{
  Redis, redis_key, token_lifetime, redis_store_token, redis_verify_token, redis_delete_token,
}
use cloud_agent.Webhook.Contract.{
  in_redis, Op, perform, perform_all, View, Kept, Elsewhere, Written, Verdict, Moves, Reaches, Live,
}
use cloud_agent.Webhook.Refinement.{IsStore, IsStore-Reaches, IsStore-Live}

-- What go-redis and its server are documented to do, by a view of the keys in force: a look-up that
-- succeeds finds the entry, a write that succeeds has its effect, and otherwise an entry can only
-- expire.
pub record IsRedis (redis : Redis) (view : redis.Db → View) : Type 0 where
  pub sets :
      (db : redis.Db) (key value : String) (lifetime : ℕ)
      → Written
          (redis.set db key value lifetime).0
          (some value)
          (view db key)
          (view (redis.set db key value lifetime).1 key)
        × Elsewhere key (view db) (view (redis.set db key value lifetime).1)
  pub finds :
      (db : redis.Db) (key : String) (found : Option String)
      → (redis.get db key).0 ≡ ok found
      → found ≡ view (redis.get db key).1 key
  pub keeps :
      (db : redis.Db) (key other : String) → Kept (view db other) (view (redis.get db key).1 other)
  pub dels :
      (db : redis.Db) (key : String)
      → Written (redis.del db key).0 none (view db key) (view (redis.del db key).1 key)
        × Elsewhere key (view db) (view (redis.del db key).1)

module _ (redis : Redis) (keys : redis.Db → View) (server : IsRedis redis keys) where
  abbrev redis_view : redis.Db → View
  redis_view db id = keys db (redis_key id)

  redis_key_injective : (other id : String) → redis_key other ≡ redis_key id → other ≡ id
  unfolding redis_key
  redis_key_injective other id e = append_cancel_left _ other id e

  Elsewhere-redis :
      (id other : String) (before after : View)
      → Elsewhere (redis_key id) before after
      → (other ≡ id) ⊎ Kept (before (redis_key other)) (after (redis_key other))
  Elsewhere-redis id other before after elsewhere = elim (elsewhere (redis_key other)) [
    | inl e ↦ inl (redis_key_injective other id e)
    | inr kept ↦ inr kept
  ]

  wrapped-Written :
      (context : String) (r : Result String (Unit {0})) (entry before after : Option String)
      → Written r entry before after
      → Written (elim r [ ok a ↦ ok a | err e ↦ err (context ++ e) ]) entry before after
  wrapped-Written context (ok a) entry before after written = written
  wrapped-Written context (err e) entry before after written = written

  redis-Verdict :
      (r : Result String (Option String)) (token : String) (entry : Option String)
      → ((found : Option String) → r ≡ ok found → found ≡ entry)
      → Verdict
          (elim r [
            | ok none ↦ ok false
            | ok (some value) ↦ ok (value == token)
            | err e ↦ err ("failed to get token from Redis: " ++ e)
          ])
          token
          entry
  redis-Verdict (ok none) token entry finds = rw (sym (finds none refl)) refl
  redis-Verdict (ok (some found)) token entry finds = rw (sym (finds (some found) refl)) refl
  redis-Verdict (err e) token entry finds = tt

  redis-Moves :
      (db0 : redis.Db) (op : Op) (db : redis.Db)
      → Moves
          (perform (in_redis redis db0) op db).0
          (redis_view db)
          (redis_view (perform (in_redis redis db0) op db).1)
  unfolding perform redis_store_token redis_verify_token redis_delete_token
  redis-Moves db0 (Op.store id token) db =
      let (written, elsewhere) = server.sets db (redis_key id) token token_lifetime in
      (wrapped-Written _ _ _ _ _ written, λ other. Elsewhere-redis id other _ _ elsewhere)
  redis-Moves db0 (Op.verify id token) db = (
    redis-Verdict _ token _ (server.finds db (redis_key id)),
    λ other. server.keeps db (redis_key id) (redis_key other),
  )
  redis-Moves db0 (Op.delete id) db =
      let (written, elsewhere) = server.dels db (redis_key id) in
      (wrapped-Written _ _ _ _ _ written, λ other. Elsewhere-redis id other _ _ elsewhere)

  module _ (db0 : redis.Db) (fresh : (key : String) → keys db0 key ≡ none) where
    redis-IsStore : IsStore (in_redis redis db0) redis_view
    redis-IsStore = record { begins = λ id. fresh (redis_key id); moves = redis-Moves db0 }

    -- With a Redis server as documented, which starts out empty: any operations on the store, with
    -- the answers that it gives, are a run of the abstract machine on the tokens in force, in which
    -- an entry may expire at any time, and the machine ends in the view of the server's keys.
    pub redis-Reaches :
        (ops : List Op)
        → Reaches
            (perform_all (in_redis redis db0) ops).0
            (redis_view (perform_all (in_redis redis db0) ops).1)
    redis-Reaches = IsStore-Reaches _ redis_view redis-IsStore

    -- With a Redis server as documented, which starts out empty: a token that the store accepts for
    -- a task was stored for that task, and since then no other token was stored for it and no
    -- deletion of it succeeded.
    pub redis_accepts :
        (ops : List Op) (id token : String)
        → (redis_verify_token redis id token (perform_all (in_redis redis db0) ops).1).0 ≡ ok true
        → Live id token (perform_all (in_redis redis db0) ops).0
    redis_accepts ops id token accepted =
        IsStore-Live _ redis_view redis-IsStore ops id token accepted
