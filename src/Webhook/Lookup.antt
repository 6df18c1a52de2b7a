-- ===== src/Webhook/Lookup.antt =====
-- Looking up the tokens of the in-memory store (pkg/webhook/store.go).
use cloud_agent.Common.{String, none, some, [], ◌∷◌, ◌==◌, if◌then◌else◌, ◌≡◌, arith, eq_iff}
use cloud_agent.Webhook.Store.{TokenMap, get_token, store_token, delete_token}

-- A token that was stored is the one found, and no other key is touched.
pub get_token-store_token :
    (id other token : String) (m : TokenMap)
    → get_token other (store_token id token m)
      ≡ (if id == other then some token else get_token other m)
unfolding get_token store_token
get_token-store_token id other token [] = ground arith
get_token-store_token id other token ((k, v) ∷ m) =
    ground
      (arith, get_token-store_token id other token m, eq_iff k id, eq_iff k other, eq_iff id other)

-- A token that was deleted is not found, and no other key is touched.
pub get_token-delete_token :
    (id other : String) (m : TokenMap)
    → get_token other (delete_token id m) ≡ (if id == other then none else get_token other m)
unfolding get_token delete_token
get_token-delete_token id other [] = ground arith
get_token-delete_token id other ((k, v) ∷ m) =
    ground (arith, get_token-delete_token id other m, eq_iff k id, eq_iff k other, eq_iff id other)
