-- ===== src/Retry/Manager.antt =====
-- execution/partial_retry.py: `PartialFillRetryManager`, over the orders of execution/models.py
-- and the fields of config/runtime_schema.py that it reads. A factor of the configuration is a
-- fraction with its denominator; amounts are atomic units and times are whole seconds. The text
-- of an attempt number is a parameter.
use engine_bot.Shared.{
  ℕ, ◌+◌, ◌*◌, ◌-◌, ◌/◌, ◌^◌, min, String, Bool, true, not, Option, none, some, ltb, leb, ◌==◌,
  if◌then◌else◌,
}
use engine_bot.Shared.Dict.{Dict, lookup, contains, insert, erase}
use Prim.Native.String.{◌++◌ as ◌+s◌}

pub data Side : Type 0 where
  buy : Side
  sell : Side

pub record Order : Type 0 where
  pub client_id : String
  pub original_client_id : String
  pub retry_attempt : ℕ
  pub original_size : ℕ
  pub cumulative_filled : ℕ
  pub created_at : ℕ
  pub input_mint : String
  pub output_mint : String
  pub amount : ℕ
  pub side : Side
  pub slippage_bps : ℕ
  pub priority_fee : ℕ

pub record Factor : Type 0 where
  pub numerator : ℕ
  pub denominator : ℕ

pub record Config : Type 0 where
  pub enabled : Bool
  pub max_attempts : ℕ
  pub size_decay : Factor
  pub fee_multiplier : Factor
  pub ttl_sec : ℕ

pub record RetryChainState : Type 0 where
  pub chain_client_id : String
  pub chain_size : ℕ
  pub chain_filled : ℕ
  pub chain_created_at : ℕ
  pub base_priority_fee : ℕ

abbrev pub Chains : Type 0
Chains = Dict RetryChainState

-- `int(amount * factor ** attempt)`.
unfoldable pub scaled : ℕ → Factor → ℕ → ℕ
scaled amount f attempt = amount * f.numerator ^ attempt / f.denominator ^ attempt

-- `int(original_size * 0.99)`.
unfoldable pub almost_full : ℕ → ℕ
almost_full size = size * 99 / 100

unfoldable pub new_chain : Order → RetryChainState
new_chain order = record {
  chain_client_id = order.original_client_id;
  chain_size = order.original_size;
  chain_filled = order.cumulative_filled;
  chain_created_at = order.created_at;
  base_priority_fee = order.priority_fee;
}

-- The chain of an order, which is stored by the caller with its new fill.
unfoldable pub get_or_create_chain : Order → Chains → RetryChainState
get_or_create_chain order chains = elim (lookup order.original_client_id chains) [
  | none ↦ new_chain order
  | some chain ↦ chain
]

unfoldable pub cancel_chain : String → Chains → Chains
cancel_chain key chains = if contains key chains then erase key chains else chains

unfoldable pub on_full_fill : String → Chains → Chains
on_full_fill original_client_id chains = cancel_chain original_client_id chains

unfoldable pub filled_chain : Order → ℕ → Chains → RetryChainState
filled_chain order filled_amount chains =
    let chain = get_or_create_chain order chains in
    record chain { chain_filled = chain.chain_filled + filled_amount }

-- The tests that stop a chain before another attempt is sized.
unfoldable pub must_stop : Config → ℕ → Order → RetryChainState → Bool
must_stop config now order chain =
    if leb (almost_full chain.chain_size) chain.chain_filled
    then true
    else if leb config.max_attempts order.retry_attempt
    then true
    else ltb (chain.chain_created_at + config.ttl_sec) now

-- The remaining amount is positive where this is used: the chain is not almost full.
unfoldable pub attempt_size : Config → ℕ → RetryChainState → ℕ
attempt_size config next_attempt chain =
    min (scaled chain.chain_size config.size_decay next_attempt)
      (chain.chain_size - chain.chain_filled)

module _ (text : ℕ → String) where
  unfoldable pub retry_order : Config → Order → RetryChainState → Order
  retry_order config order chain =
      let next_attempt = order.retry_attempt + 1 in
      record {
        client_id = chain.chain_client_id +s "_retry_" +s text next_attempt;
        original_client_id = chain.chain_client_id;
        retry_attempt = next_attempt;
        original_size = chain.chain_size;
        cumulative_filled = chain.chain_filled;
        created_at = chain.chain_created_at;
        input_mint = order.input_mint;
        output_mint = order.output_mint;
        amount = attempt_size config next_attempt chain;
        side = order.side;
        slippage_bps = order.slippage_bps;
        priority_fee = scaled chain.base_priority_fee config.fee_multiplier next_attempt;
      }

  unfoldable pub on_partial_fill : Config → ℕ → Order → ℕ → Chains → Option Order × Chains
  on_partial_fill config now order filled_amount chains =
      if not config.enabled
      then (none, chains)
      else let chain = filled_chain order filled_amount chains in
        let stored = insert order.original_client_id chain chains in
        if must_stop config now order chain
        then (none, cancel_chain chain.chain_client_id stored)
        else if attempt_size config (order.retry_attempt + 1) chain == 0
        then (none, cancel_chain chain.chain_client_id stored)
        else (some (retry_order config order chain), stored)
