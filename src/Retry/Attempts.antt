-- ===== src/Retry/Attempts.antt =====
-- One call of `on_partial_fill`: when a retry is ordered, and what it may spend.
use engine_bot.Shared.{
  ℕ, ◌+◌, ◌≤◌, ◌<◌, ◌≡◌, refl, String, eq_iff, str_eq_self, true, false, none, some, ◌==◌, arith,
  inl, inr, Bool-cases, Option-cases,
}
use engine_bot.Shared.Dict.{lookup, contains, insert, lookup-insert, contains-erase}
use engine_bot.Retry.Manager.{
  Order, Config, RetryChainState, Chains, scaled, almost_full, new_chain, get_or_create_chain,
  cancel_chain, filled_chain, must_stop, attempt_size, retry_order, on_partial_fill,
}

-- Every chain is stored under its own id.
abbrev pub Keyed : Chains → String → Type 0
Keyed chains key =
    (chain : RetryChainState) → lookup key chains ≡ some chain → chain.chain_client_id ≡ key

-- The chain is stopped before it is overfilled: what is left of it is positive.
pub must_stop-false :
    (config : Config) (now : ℕ) (order : Order) (chain : RetryChainState)
    → must_stop config now order chain ≡ false
    → (chain.chain_filled < chain.chain_size)
      × (order.retry_attempt < config.max_attempts)
      × (now ≤ chain.chain_created_at + config.ttl_sec)
unfolding must_stop almost_full
must_stop-false config now order chain h = ground arith

own_id :
    (order : Order) (filled : ℕ) (chains : Chains)
    → Keyed chains order.original_client_id
    → (filled_chain order filled chains).chain_client_id ≡ order.original_client_id
unfolding filled_chain get_or_create_chain new_chain
own_id order filled chains keyed = elim (Option-cases (lookup order.original_client_id chains)) [
  | inl new ↦ rw (new, get_or_create_chain) refl
  | inr (chain, old) ↦ rw (old, get_or_create_chain) (keyed chain old)
]

contains-cancel_chain :
    (k j : String) (chains : Chains) → k ≡ j → contains j (cancel_chain k chains) ≡ false
unfolding cancel_chain
contains-cancel_chain k j chains same =
    let equal = (eq_iff k j).1 same in ground (arith, equal, same, contains-erase k j chains)

module _ (text : ℕ → String) where
  -- A retry is ordered just when the manager is enabled, no limit is reached and an amount is
  -- left for it; then the chain with the new fill is stored.
  pub ordered_parts :
      (config : Config) (now filled : ℕ) (order o' : Order) (chains : Chains)
      → (on_partial_fill text config now order filled chains).0 ≡ some o'
      → let chain = filled_chain order filled chains in
        (must_stop config now order chain ≡ false)
        × (0 < attempt_size config (order.retry_attempt + 1) chain)
        × (o' ≡ retry_order text config order chain)
        × ((on_partial_fill text config now order filled chains).1
            ≡ insert order.original_client_id chain chains)
  unfolding on_partial_fill
  ordered_parts config now filled order o' chains e = elim (Bool-cases config.enabled) [
    | inl on ↦ elim (Bool-cases (must_stop config now order (filled_chain order filled chains))) [
      | inl stop ↦ ground (arith, on, stop)
      | inr free ↦ ground (arith, on, free)
    ]
    | inr off ↦ ground (arith, off)
  ]

  -- A retry is the next attempt, within the number of attempts and the chain's time to live; it
  -- asks for a positive amount that is at most the decayed size, and that with what the chain
  -- has been filled so far is at most the original size; it carries the chain's id, size, fill
  -- and start, and the chain with the new fill is what is stored for it.
  pub on_partial_fill-within :
      (config : Config) (now filled : ℕ) (order o' : Order) (chains : Chains)
      → (on_partial_fill text config now order filled chains).0 ≡ some o'
      → let chain = get_or_create_chain order chains in
        (o'.retry_attempt ≡ order.retry_attempt + 1)
        × (o'.retry_attempt ≤ config.max_attempts)
        × (now ≤ o'.created_at + config.ttl_sec)
        × (0 < o'.amount)
        × (o'.amount ≤ scaled o'.original_size config.size_decay o'.retry_attempt)
        × (o'.cumulative_filled + o'.amount ≤ o'.original_size)
        × (o'.original_client_id ≡ chain.chain_client_id)
        × (o'.original_size ≡ chain.chain_size)
        × (o'.created_at ≡ chain.chain_created_at)
        × (o'.cumulative_filled ≡ chain.chain_filled + filled)
        × (lookup order.original_client_id (on_partial_fill text config now order filled chains).1
            ≡ some (record chain { chain_filled = chain.chain_filled + filled }))
  unfolding filled_chain retry_order attempt_size
  on_partial_fill-within config now filled order o' chains e =
      let (free, pos, same, stored) = ordered_parts config now filled order o' chains e in
      let (room, more, alive) =
        must_stop-false config now order (filled_chain order filled chains) free in
      rw (same, stored)
        (
          refl,
          omega arith,
          alive,
          pos,
          omega arith,
          omega arith,
          refl,
          refl,
          refl,
          refl,
          rw
              (
                lookup-insert order.original_client_id order.original_client_id
                    (filled_chain order filled chains) chains,
                str_eq_self order.original_client_id,
              )
              refl,
        )

  -- When the manager is enabled, the order's chain is stored under its own id, and no retry is
  -- ordered, the chain is forgotten.
  pub on_partial_fill-stops :
      (config : Config) (now filled : ℕ) (order : Order) (chains : Chains)
      → config.enabled ≡ true
      → Keyed chains order.original_client_id
      → (on_partial_fill text config now order filled chains).0 ≡ none
      → contains order.original_client_id (on_partial_fill text config now order filled chains).1
        ≡ false
  unfolding on_partial_fill
  on_partial_fill-stops config now filled order chains on keyed e =
      let chain = filled_chain order filled chains in
      let stored = insert order.original_client_id chain chains in
      let gone =
        contains-cancel_chain chain.chain_client_id order.original_client_id stored
          (own_id order filled chains keyed) in
      elim (Bool-cases (must_stop config now order chain)) [
        | inl stop ↦ rw (stop, on) gone
        | inr free ↦ elim (Bool-cases (attempt_size config (order.retry_attempt + 1) chain == 0)) [
          | inl small ↦ rw (free, small, on) gone
          | inr large ↦ ground (arith, on, free, large, e)
        ]
      ]
