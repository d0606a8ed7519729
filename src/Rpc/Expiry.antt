-- ===== src/Rpc/Expiry.antt =====
-- What the cache answers, and its metrics.
use engine_bot.Shared.{
  ℕ, ◌+◌, ◌≤◌, ◌≡◌, refl, inl, inr, String, str_eq, str_eq_self, eq_iff, true, false, Option, none,
  some, arith, ltb, Bool-cases, Option-cases, String-cases, if◌then◌else◌,
}
use engine_bot.Shared.Dict.{Dict, lookup, erase, lookup-insert, lookup-erase}
use engine_bot.Rpc.Cache.{CacheEntry, RpcCache, is_expired, get, or_default, set}

module _ {V : Type 0} where
  -- The value that a `get` gives, without its effects.
  abbrev pub answer : String → ℕ → RpcCache V → Option V
  answer key now c = (get key now c).0

  -- The value of an entry that may be missing or expired.
  abbrev pub live : ℕ → Option (CacheEntry V) → Option V
  live now none = none
  live now (some e) = if is_expired now e then none else some e.value

  pub answer_lem :
      (key : String) (now : ℕ) (c : RpcCache V) → answer key now c ≡ live now (lookup key c.cache)
  unfolding get
  answer_lem key now c = elim (Option-cases (lookup key c.cache)) [
    | inl gone ↦ ground (arith, gone)
    | inr (e, found) ↦ ground (arith, found)
  ]

  -- A value that is set is given for its key until its time to live is over, and not after; with
  -- no time of its own it has the default one. The answers for other keys do not change.
  pub get-set :
      (key : String) (v : V) (ttl : Option ℕ) (now later : ℕ) (c : RpcCache V)
      → let c' = set key v ttl now c in
        (answer key later c'
          ≡ (if ltb (now + or_default ttl c.default_ttl) later then none else some v))
        × ((j : String) → str_eq key j ≡ false → answer j later c' ≡ answer j later c)
  unfolding set is_expired
  get-set key v ttl now later c =
      let e : CacheEntry V = record {
        value = v;
        expires_at = now + or_default ttl c.default_ttl;
      } in
      (
        rw
            (
              answer_lem key later (set key v ttl now c),
              lookup-insert key key e c.cache,
              str_eq_self key,
            )
            refl,
        λ j other.
            rw
              (
                answer_lem j later (set key v ttl now c),
                answer_lem j later c,
                lookup-insert key j e c.cache,
                other,
              )
              refl,
      )

  -- An entry that is expired stays so.
  pub still_expired :
      (now later : ℕ) (e : CacheEntry V)
      → now ≤ later
      → is_expired now e ≡ true
      → is_expired later e ≡ true
  unfolding is_expired
  still_expired now later e le old = ground arith

  pub live_expired :
      (now : ℕ) (e : CacheEntry V) → is_expired now e ≡ true → live now (some e) ≡ none
  live_expired now e old = rw old refl

  erase_expired :
      (key j : String) (now later : ℕ) (e : CacheEntry V) (cache : Dict (CacheEntry V))
      → now ≤ later
      → lookup key cache ≡ some e
      → is_expired now e ≡ true
      → live later (lookup j (erase key cache)) ≡ live later (lookup j cache)
  erase_expired key j now later e cache le found old = elim (String-cases key j) [
    | inl same ↦ ground (
      arith,
      lookup-erase key j cache,
      eq_iff key j,
      live_expired later e (still_expired now later e le old),
    )
    | inr other ↦ rw (lookup-erase key j cache, other.1) refl
  ]

  -- What a `get` does to the entries.
  pub get_entry :
      (key : String) (now : ℕ) (e : CacheEntry V) (c : RpcCache V)
      → lookup key c.cache ≡ some e
      → (get key now c).1.cache ≡ (if is_expired now e then erase key c.cache else c.cache)
  unfolding get
  get_entry key now e c found =
      rw (found, get)
        (elim (Bool-cases (is_expired now e)) [ inl old ↦ rw old refl | inr fresh ↦ rw fresh refl ])

  pub get_missing :
      (key : String) (now : ℕ) (c : RpcCache V)
      → lookup key c.cache ≡ none
      → (get key now c).1.cache ≡ c.cache
  unfolding get
  get_missing key now c gone = rw (gone, get) refl

  -- Reading changes no later answer: after a `get` of any key, every key is answered as before,
  -- then and at every later time.
  pub get-get :
      (key j : String) (now later : ℕ) (c : RpcCache V)
      → now ≤ later
      → answer j later (get key now c).1 ≡ answer j later c
  get-get key j now later c le =
      rw (answer_lem j later (get key now c).1, answer_lem j later c)
        (elim (Option-cases (lookup key c.cache)) [
          | inl gone ↦ rw (get_missing key now c gone) refl
          | inr (e, found) ↦ elim (Bool-cases (is_expired now e)) [
            | inl old ↦
                rw (get_entry key now e c found, old)
                  (erase_expired key j now later e c.cache le found old)
            | inr fresh ↦ rw (get_entry key now e c found, fresh) refl
          ]
        ])

  -- Every `get` is counted once, as a hit when it gives a value and as a miss when it does not;
  -- a hit counts no eviction.
  pub get_metrics_counts :
      (key : String) (now : ℕ) (c : RpcCache V)
      → let c' = (get key now c).1 in
        (answer key now c ≡ none → (c'.hits ≡ c.hits) × (c'.misses ≡ c.misses + 1))
        × ((v : V)
            → answer key now c ≡ some v
            → (c'.hits ≡ c.hits + 1) × (c'.misses ≡ c.misses) × (c'.evictions ≡ c.evictions))
  unfolding get
  get_metrics_counts key now c = elim (Option-cases (lookup key c.cache)) [
    | inl gone ↦ ground (arith, gone)
    | inr (e, found) ↦ ground (arith, found)
  ]
