-- ===== src/Retry/Budget.antt =====
-- A chain of retries: each order is filled in part, and the retry that this orders comes next.
use engine_bot.Shared.{
  ℕ, ◌+◌, ◌≤◌, ◌≡◌, refl, sym, ap, ◌∙◌, String, none, some, List, [], ◌∷◌, arith, length,
}
use engine_bot.Shared.Dict.{lookup}
use engine_bot.Retry.Manager.{
  Order, Config, RetryChainState, Chains, get_or_create_chain, on_partial_fill, new_chain,
}
use engine_bot.Retry.Attempts.{on_partial_fill-within}

abbrev pub total : List ℕ → ℕ
total [] = 0
total (x ∷ xs) = x + total xs

module _ (text : ℕ → String) (config : Config) where
  -- The fills of a chain, the last one first, with the order that is then open and the manager's
  -- chains; every fill is at most what its order asked for.
  pub data Run (first : Order) (chains : Chains) : List ℕ → Order → Chains → Type 0 where
    start : Run first chains [] first chains
    retry :
        (fills : List ℕ) (order o' : Order) (m : Chains) (now filled : ℕ)
        → Run first chains fills order m
        → filled ≤ order.amount
        → (on_partial_fill text config now order filled m).0 ≡ some o'
        → Run first chains (filled ∷ fills) o' (on_partial_fill text config now order filled m).1

  -- What a run keeps, of the chain of the open order.
  Tracks : Order → List ℕ → Order → RetryChainState → Type 0
  Tracks first fills order chain =
      (order.original_client_id ≡ first.original_client_id)
      × (order.retry_attempt ≡ length fills)
      × (length fills ≤ config.max_attempts)
      × (chain.chain_client_id ≡ first.original_client_id)
      × (chain.chain_filled ≡ total fills)
      × (chain.chain_size ≡ first.original_size)
      × (total fills + order.amount ≤ first.original_size)

  Run-Tracks :
      (first : Order) (chains : Chains)
      → lookup first.original_client_id chains ≡ none
      → first.retry_attempt ≡ 0
      → first.cumulative_filled ≡ 0
      → first.amount ≤ first.original_size
      → {fills : List ℕ} {order : Order} {m : Chains} → Run first chains fills order m
      → Tracks first fills order (get_or_create_chain order m)
  unfolding Tracks get_or_create_chain new_chain
  Run-Tracks first chains new zeroth none_filled fits start =
      rw (new, get_or_create_chain)
        (refl, zeroth, omega arith, refl, none_filled, refl, omega arith)
  Run-Tracks first chains new zeroth none_filled fits (retry fills order o' m now filled run le e) =
      let (same_id, attempt, count, id, sum, size, room) =
        Run-Tracks first chains new zeroth none_filled fits run in
      let (next, limit, alive, pos, decayed, budget, o_id, o_size, o_start, o_filled, stored) =
        on_partial_fill-within text config now filled order o' m e in
      let key : o'.original_client_id ≡ order.original_client_id = o_id ∙ id ∙ sym same_id in
      rw
        (
          ap (λ k. lookup k (on_partial_fill text config now order filled m).1) key ∙ stored,
          get_or_create_chain,
        )
        (
          key ∙ same_id,
          omega (arith, next, attempt),
          omega (arith, next, attempt, limit),
          id,
          omega (arith, sum),
          size,
          omega (arith, sum, size, budget, o_filled, o_size),
        )

  -- Along every chain of partial fills and retries from a fresh order, in which no fill is more
  -- than its order asked for: what is filled, with all that the open order still asks for, is at
  -- most the original size; the order's attempt number counts the fills; and there are at most
  -- `max_attempts` retries.
  pub Run-within_budget :
      (first : Order) (chains : Chains)
      → lookup first.original_client_id chains ≡ none
      → first.retry_attempt ≡ 0
      → first.cumulative_filled ≡ 0
      → first.amount ≤ first.original_size
      → {fills : List ℕ} {order : Order} {m : Chains} → Run first chains fills order m
      → (total fills + order.amount ≤ first.original_size)
        × (order.retry_attempt ≡ length fills)
        × (length fills ≤ config.max_attempts)
  unfolding Tracks
  Run-within_budget first chains new zeroth none_filled fits run =
      let (same_id, attempt, count, id, sum, size, room) =
        Run-Tracks first chains new zeroth none_filled fits run in
      (room, attempt, count)
