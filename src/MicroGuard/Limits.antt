-- ===== src/MicroGuard/Limits.antt =====
-- Which orders the guard lets through.
use engine_bot.Shared.{◌≡◌, ◌↔◌, arith, String, true, some, List}
use engine_bot.Shared.Int.{ℤ, ◌+ℤ◌, ◌≤ℤ◌, ◌<ℤ◌}
use engine_bot.Shared.Results.{ok}
use engine_bot.MicroGuard.Guard.{
  make_config, member, is_wallet_allowed, validate_order, max_micro_trade_sol,
  max_micro_daily_loss_sol, max_micro_exposure_sol,
}

-- The guard lets an order through exactly if its amount is within the configured limit and 0.1
-- SOL, its wallet is listed, the daily loss is below the configured limit and 0.5 SOL, and the
-- exposure with it is at most 1 SOL: a configuration can lower the first and the third limit,
-- not raise them.
pub validate_order-within :
    (trade loss : ℤ) (wallets : List String) (wallet : String) (amount exposure daily_loss : ℤ)
    → (validate_order (make_config trade loss (some wallets)) wallet amount exposure daily_loss
        ≡ ok true)
      ↔ ((amount ≤ℤ trade)
          × (amount ≤ℤ max_micro_trade_sol)
          × (member wallet wallets ≡ true)
          × (daily_loss <ℤ loss)
          × (daily_loss <ℤ max_micro_daily_loss_sol)
          × (exposure +ℤ amount ≤ℤ max_micro_exposure_sol))
unfolding validate_order make_config is_wallet_allowed
validate_order-within trade loss wallets wallet amount exposure daily_loss =
    (λ e. ground arith, λ h. ground arith)
