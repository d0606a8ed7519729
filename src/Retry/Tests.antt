-- ===== src/Retry/Tests.antt =====
-- Retries at concrete inputs.
use engine_bot.Shared.{
  ℕ, ◌+◌, ◌≤◌, ◌≡◌, refl, arith, String, true, none, some, List, [], ◌∷◌, length,
}
use engine_bot.Shared.Dict.{lookup}
use engine_bot.Retry.Manager.{
  Order, Config, Chains, buy, RetryChainState, scaled, get_or_create_chain, filled_chain, must_stop,
  attempt_size, retry_order, on_partial_fill,
}
use engine_bot.Retry.Attempts.{Keyed}
use engine_bot.Retry.Budget.{total, Run, start, retry, Run-within_budget}

abbrev text_of : ℕ → String
text_of n = "n"

abbrev config : Config
config = record {
  enabled = true;
  max_attempts = 3;
  size_decay = record { numerator = 7; denominator = 10 };
  fee_multiplier = record { numerator = 3; denominator = 2 };
  ttl_sec = 120;
}

abbrev order : Order
order = record {
  client_id = "one";
  original_client_id = "one";
  retry_attempt = 0;
  original_size = 1000;
  cumulative_filled = 0;
  created_at = 50;
  input_mint = "sol";
  output_mint = "usdc";
  amount = 1000;
  side = buy;
  slippage_bps = 100;
  priority_fee = 2000;
}

abbrev no_chains : Chains
no_chains = []

abbrev fills : List ℕ
fills = 400 ∷ []

abbrev second_order : Order
second_order = retry_order text_of config order (filled_chain order 400 no_chains)

retry_is_ordered : (on_partial_fill text_of config 60 order 400 no_chains).0 ≡ some second_order
unfolding on_partial_fill must_stop attempt_size engine_bot.Retry.Manager.almost_full filled_chain
    get_or_create_chain lookup engine_bot.Retry.Manager.new_chain scaled
retry_is_ordered = refl

late_fill_stops : (on_partial_fill text_of config 171 order 400 no_chains).0 ≡ none
unfolding on_partial_fill must_stop engine_bot.Retry.Manager.almost_full filled_chain
    get_or_create_chain lookup engine_bot.Retry.Manager.new_chain
late_fill_stops = refl

no_chains-Keyed : Keyed no_chains order.original_client_id
unfolding lookup
no_chains-Keyed chain e = ground (arith, e)

one_retry :
    Run text_of config order no_chains fills second_order
      (on_partial_fill text_of config 60 order 400 no_chains).1
one_retry = retry [] order second_order no_chains 60 400 start (omega arith) retry_is_ordered

no_chain : lookup order.original_client_id no_chains ≡ none
unfolding lookup
no_chain = refl

Run-within_budget_example :
    (total fills + second_order.amount ≤ order.original_size)
    × (second_order.retry_attempt ≡ length fills)
    × (length fills ≤ config.max_attempts)
Run-within_budget_example =
    Run-within_budget text_of config order no_chains no_chain refl refl (omega arith) one_retry
