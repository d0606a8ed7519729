-- ===== src/Rpc/Tests.antt =====
-- The cache at concrete inputs.
use engine_bot.Shared.{
  ℕ, ◌+◌, ◌≡◌, refl, String, str_eq, false, none, some, [], ◌∷◌, if◌then◌else◌, ltb,
}
use engine_bot.Shared.Dict.{IsUnique, contains}
use engine_bot.Rpc.Cache.{RpcCache, or_default, set}
use engine_bot.Rpc.Expiry.{answer, get-set}

abbrev cache : RpcCache ℕ
cache = record {
  default_ttl = 300;
  cache =
      ("slot", record { value = 7; expires_at = 10 })
      ∷ ("block", record { value = 8; expires_at = 500 })
      ∷ [];
  hits = 0;
  misses = 0;
  evictions = 0;
}

cache-IsUnique : IsUnique cache.cache
unfolding contains
cache-IsUnique = (refl, (refl, tt))

get-set_example :
    (answer "fee" 40 (set "fee" 9 none 30 cache)
      ≡ (if ltb (30 + or_default none cache.default_ttl) 40 then none else some 9))
    × ((j : String)
        → str_eq "fee" j ≡ false
        → answer j 40 (set "fee" 9 none 30 cache) ≡ answer j 40 cache)
get-set_example = get-set "fee" 9 none 30 40 cache
