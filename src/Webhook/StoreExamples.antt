-- ===== src/Webhook/StoreExamples.antt =====
-- The token stores' theorems on concrete operations.
use cloud_agent.Common.{String, true, Option, none, List, [], ◌∷◌, ok, Result, ◌≡◌, inl, refl, ◌↔◌}
use cloud_agent.Webhook.Store.{
  TokenMap, Redis, redis_key, get_token, store_token, verify_token, delete_token, redis_store_token,
  redis_verify_token, redis_delete_token,
}
use cloud_agent.Webhook.Lookup.{get_token-store_token, get_token-delete_token}
use cloud_agent.Webhook.Contract.{
  Op, in_memory, in_redis, perform, perform_all, View, Reaches, Live,
}
use cloud_agent.Webhook.Refinement.{written_or_Kept, found_there, memory_accepts_iff}
use cloud_agent.Webhook.RedisStore.{IsRedis, redis-Reaches, redis_accepts}

-- a server that never fails, and on which nothing expires
abbrev redis : Redis
redis = record {
  Db = TokenMap;
  set = λ db key value lifetime. (ok tt, store_token key value db);
  get = λ db key. (ok (get_token key db), db);
  del = λ db key. (ok tt, delete_token key db);
}

abbrev keys : TokenMap → View
keys db key = get_token key db

the_same :
    (db : TokenMap) (key : String) (found : Option String)
    → ◌≡◌ {A = Result String (Option String)} (ok (get_token key db)) (ok found)
    → found ≡ get_token key db
the_same db key found e = cc

server : IsRedis redis keys
server = record {
  sets = λ db key value lifetime. (
    found_there key _ _ _ (get_token-store_token key key value db),
    λ other. written_or_Kept key other _ _ _ (get_token-store_token key other value db),
  );
  finds = λ db key found e. the_same db key found e;
  keeps = λ db key other. inl refl;
  dels = λ db key. (
    found_there key _ _ _ (get_token-delete_token key key db),
    λ other. written_or_Kept key other _ _ _ (get_token-delete_token key other db),
  );
}

-- newest first: a second task's token is stored, and then deleted
abbrev ops : List Op
ops = Op.delete "b" ∷ Op.store "b" "c2" ∷ Op.verify "a" "guess" ∷ Op.store "a" "c1" ∷ []

fresh : (key : String) → keys [] key ≡ none
unfolding get_token
fresh key = refl

redis-Reaches_example :
    Reaches
      (perform_all (in_redis redis []) ops).0
      (λ id. keys (perform_all (in_redis redis []) ops).1 (redis_key id))
redis-Reaches_example = redis-Reaches redis keys server [] fresh ops

accepted : (redis_verify_token redis "a" "c1" (perform_all (in_redis redis []) ops).1).0 ≡ ok true
unfolding redis_verify_token perform_all perform redis_store_token redis_delete_token redis_key
    get_token store_token delete_token
accepted = refl

redis_accepts_example : Live "a" "c1" (perform_all (in_redis redis []) ops).0
redis_accepts_example = redis_accepts redis keys server [] fresh ops "a" "c1" accepted

memory_accepts_iff_example :
    (verify_token "a" "c1" (perform_all in_memory ops).1 ≡ true)
    ↔ Live "a" "c1" (perform_all in_memory ops).0
memory_accepts_iff_example = memory_accepts_iff ops "a" "c1"
