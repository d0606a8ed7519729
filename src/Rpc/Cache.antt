-- ===== src/Rpc/Cache.antt =====
-- ingestion/rpc/cache.py: `RpcCache`. Times are whole numbers of a smallest unit, and a cached
-- value is not `None`. Every method runs under the cache's lock, so that a call is one step.
use engine_bot.Shared.{
  ℕ, ◌+◌, String, Bool, true, false, Option, none, some, List, [], length, keep, ltb, if◌then◌else◌,
}
use engine_bot.Shared.Dict.{Dict, lookup, contains, insert, erase, keys, erase_all}

module _ {ℓ} (V : Type ℓ) where
  pub record CacheEntry : Type ℓ where
    pub value : V
    pub expires_at : ℕ

  pub record RpcCache : Type ℓ where
    pub default_ttl : ℕ
    pub cache : Dict CacheEntry
    pub hits : ℕ
    pub misses : ℕ
    pub evictions : ℕ

-- `ttl if ttl is not None else self._default_ttl`.
abbrev pub or_default : Option ℕ → ℕ → ℕ
or_default none d = d
or_default (some t) d = t

module _ {ℓ} {V : Type ℓ} where
  unfoldable pub new_cache : ℕ → RpcCache V
  new_cache ttl = record { default_ttl = ttl; cache = []; hits = 0; misses = 0; evictions = 0 }

  unfoldable pub is_expired : ℕ → CacheEntry V → Bool
  is_expired now e = ltb e.expires_at now

  unfoldable pub get : String → ℕ → RpcCache V → Option V × RpcCache V
  get key now c = elim (lookup key c.cache) [
    | none ↦ (none, record c { misses = c.misses + 1 })
    | some e ↦
        if is_expired now e
        then (
          none,
          record c {
            cache = erase key c.cache;
            evictions = c.evictions + 1;
            misses = c.misses + 1;
          },
        )
        else (some e.value, record c { hits = c.hits + 1 })
  ]

  unfoldable pub set : String → V → Option ℕ → ℕ → RpcCache V → RpcCache V
  set key v ttl now c = record c {
    cache =
        insert key (record { value = v; expires_at = now + or_default ttl c.default_ttl }) c.cache;
  }

  unfoldable pub delete : String → RpcCache V → Bool × RpcCache V
  delete key c =
      if contains key c.cache then (true, record c { cache = erase key c.cache }) else (false, c)

  unfoldable pub clear : RpcCache V → RpcCache V
  clear c = record c { cache = [] }

  -- The keys that `cleanup_expired` collects.
  unfoldable pub expired_keys : ℕ → RpcCache V → List String
  expired_keys now c = keys (keep (λ e. is_expired now e.1) c.cache)

  unfoldable pub cleanup_expired : ℕ → RpcCache V → ℕ × RpcCache V
  cleanup_expired now c =
      let to_remove = expired_keys now c in
      (
        length to_remove,
        record c {
          cache = erase_all to_remove c.cache;
          evictions = c.evictions + length to_remove;
        },
      )

  unfoldable pub get_size : RpcCache V → ℕ
  get_size c = length c.cache

  -- `__contains__` is a `get`, with its effects.
  unfoldable pub has : String → ℕ → RpcCache V → Bool × RpcCache V
  has key now c =
      let (found, c') = get key now c in (elim found [ none ↦ false | some _ ↦ true ], c')
