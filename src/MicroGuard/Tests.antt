-- ===== src/MicroGuard/Tests.antt =====
-- The guard at concrete inputs.
use engine_bot.Shared.{◌≡◌, ◌↔◌, refl, true, none, some, [], ◌∷◌}
use engine_bot.Shared.Int.{pos, ◌+ℤ◌, ◌≤ℤ◌, ◌<ℤ◌}
use engine_bot.Shared.Results.{ok, err}
use engine_bot.MicroGuard.Guard.{
  make_config, member, validate_order, wallet_not_allowed, max_micro_trade_sol,
  max_micro_daily_loss_sol, max_micro_exposure_sol,
}
use engine_bot.MicroGuard.Limits.{validate_order-within}

no_wallet_is_allowed :
    validate_order
      (make_config (pos 50000000) (pos 200000000) none)
      "wallet"
      (pos 1)
      (pos 0)
      (pos 0)
    ≡ err wallet_not_allowed
unfolding validate_order make_config engine_bot.MicroGuard.Guard.is_wallet_allowed member
no_wallet_is_allowed = refl

validate_order-within_example :
    (validate_order
        (make_config (pos 900000000) (pos 200000000) (some ("wallet" ∷ [])))
        "wallet"
        (pos 90000000)
        (pos 800000000)
        (pos 0)
      ≡ ok true)
    ↔ ((pos 90000000 ≤ℤ pos 900000000)
        × (pos 90000000 ≤ℤ max_micro_trade_sol)
        × (member "wallet" ("wallet" ∷ []) ≡ true)
        × (pos 0 <ℤ pos 200000000)
        × (pos 0 <ℤ max_micro_daily_loss_sol)
        × (pos 800000000 +ℤ pos 90000000 ≤ℤ max_micro_exposure_sol))
validate_order-within_example =
    validate_order-within (pos 900000000) (pos 200000000) ("wallet" ∷ []) "wallet" (pos 90000000)
      (pos 800000000) (pos 0)
