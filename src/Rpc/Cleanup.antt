-- ===== src/Rpc/Cleanup.antt =====
-- The cleanup of the expired entries.
use engine_bot.Shared.{
  ℕ, ◌+◌, ◌≤◌, ◌≡◌, sym, ◌∙◌, ap, refl, String, str_eq, eq_iff, str_eq_self, Bool, true, false, not,
  none, List, [], ◌∷◌, length, All, All-keep, keep, arith, Bool-cases, inl, inr, String-cases,
}
use engine_bot.Shared.Dict.{
  Dict, lookup, contains, keys, erase, erase_all, IsUnique, lookup-none, erase-missing,
  erase_all-cons, All-ne_of_missing,
}
use engine_bot.Rpc.Cache.{CacheEntry, RpcCache, is_expired, expired_keys, cleanup_expired}
use engine_bot.Rpc.Expiry.{answer, answer_lem, live, live_expired, still_expired}

module _ {A : Type 0} where
  All-fails : (p : A → Bool) (xs : List A) → All (λ x. p x ≡ false) (keep (λ x. not (p x)) xs)
  All-fails p [] = tt
  All-fails p (x ∷ xs) = elim (Bool-cases (p x)) [
    | inl pass ↦ rw pass (All-fails p xs)
    | inr fail ↦ rw fail (fail, All-fails p xs)
  ]

module _ {V : Type 0} where
  length-split :
      (p : String × V → Bool) (d : Dict V)
      → length (keys (keep p d)) + length (keep (λ x. not (p x)) d) ≡ length d
  length-split p [] = omega arith
  length-split p (e ∷ d) = ground (arith, length-split p d)

  -- The keys of a list that differ from a key.
  All-keys :
      (k : String) (d : Dict V)
      → All (λ e. str_eq k e.0 ≡ false) d
      → All (λ j. str_eq k j ≡ false) (keys d)
  All-keys k [] h = tt
  All-keys k (e ∷ d) h = (h.0, All-keys k d h.1)

  -- Deleting the first key of a dictionary of distinct keys.
  erase_head : (e : String × V) (d : Dict V) → contains e.0 d ≡ false → erase e.0 (e ∷ d) ≡ d
  unfolding erase
  erase_head e d new = rw (str_eq_self e.0) (erase-missing e.0 d new)

  -- Deleting the keys of the items that pass a test leaves the items that do not.
  pub erase_all-keep :
      (p : String × V → Bool) (d : Dict V)
      → IsUnique d
      → erase_all (keys (keep p d)) d ≡ keep (λ e. not (p e)) d
  unfolding erase_all
  erase_all-keep p [] u = refl
  erase_all-keep p (e ∷ d) u = elim (Bool-cases (p e)) [
    | inl pass ↦
        rw pass (ap (erase_all (keys (keep p d))) (erase_head e d u.0) ∙ erase_all-keep p d u.1)
    | inr fail ↦
        rw
          (
            fail,
            erase_all-cons (keys (keep p d)) e d (
                All-keys e.0 (keep p d)
                  (All-keep (λ x. str_eq e.0 x.0 ≡ false) p d (All-ne_of_missing e.0 d u.0))),
          )
          (ap (λ t. e ∷ t) (erase_all-keep p d u.1))
  ]

module _ {V : Type 0} where
  -- Dropping the expired entries of distinct keys changes no answer.
  live-keep :
      (j : String) (now later : ℕ) (d : Dict (CacheEntry V))
      → now ≤ later
      → IsUnique d
      → live later (lookup j (keep (λ e. not (is_expired now e.1)) d)) ≡ live later (lookup j d)
  unfolding lookup
  live-keep j now later [] le u = refl
  live-keep j now later (e ∷ d) le u = elim (Bool-cases (is_expired now e.1)) [
    | inl old ↦ elim (String-cases e.0 j) [
      | inl same ↦
          let missing : lookup j d ≡ none = lookup-none j d (rw same at u.0) in
          let rest : live later (lookup j (keep (λ x. not (is_expired now x.1)) d)) ≡ none =
            live-keep j now later d le u.1 ∙ ap (live later) missing in
          let head : str_eq e.0 j ≡ true = (eq_iff e.0 j).1 same in
          rw (old, head) (rest ∙ sym (live_expired later e.1 (still_expired now later e.1 le old)))
      | inr other ↦ rw (old, other.1) (live-keep j now later d le u.1)
    ]
    | inr fresh ↦ elim (Bool-cases (str_eq e.0 j)) [
      | inl same ↦ rw (fresh, same) refl
      | inr other ↦ rw (fresh, other) (live-keep j now later d le u.1)
    ]
  ]

  -- With distinct keys the cleanup drops the expired entries and no others, gives their number
  -- and adds it to the evictions; no answer changes by it, then and at every later time.
  pub cleanup_expired-answers :
      (now : ℕ) (c : RpcCache V)
      → IsUnique c.cache
      → let (count, c') = cleanup_expired now c in
        (c'.cache ≡ keep (λ e. not (is_expired now e.1)) c.cache)
        × All (λ e. is_expired now e.1 ≡ false) c'.cache
        × (count + length c'.cache ≡ length c.cache)
        × (c'.evictions ≡ c.evictions + count)
        × ((j : String) (later : ℕ) → now ≤ later → answer j later c' ≡ answer j later c)
  unfolding cleanup_expired expired_keys
  cleanup_expired-answers now c u =
      let dropped = erase_all-keep (λ e. is_expired now e.1) c.cache u in
      (
        dropped,
        rw dropped (All-fails (λ e. is_expired now e.1) c.cache),
        rw dropped (length-split (λ e. is_expired now e.1) c.cache),
        refl,
        λ j later le.
            answer_lem j later (cleanup_expired now c).1
            ∙ ap (λ d. live later (lookup j d)) dropped
            ∙ live-keep j now later c.cache le u
            ∙ sym (answer_lem j later c),
      )
