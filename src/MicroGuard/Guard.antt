-- ===== src/MicroGuard/Guard.antt =====
-- execution/safety/micro_guard.py: the limits of micro trading. Amounts of SOL are whole numbers
-- of lamports, 1000000000 to one SOL.
use engine_bot.Shared.{
  ℕ, String, str_eq, Bool, true, false, not, Option, none, some, List, [], ◌∷◌, length,
  if◌then◌else◌,
}
use engine_bot.Shared.Int.{ℤ, pos, ◌+ℤ◌, ltb_ℤ, leb_ℤ, min_ℤ}
use engine_bot.Shared.Results.{Result, ok, err}

abbrev pub max_micro_trade_sol : ℤ
max_micro_trade_sol = pos 100000000

abbrev pub max_micro_daily_loss_sol : ℤ
max_micro_daily_loss_sol = pos 500000000

abbrev pub max_micro_exposure_sol : ℤ
max_micro_exposure_sol = pos 1000000000

-- The reason of a `SafetyViolationError`.
pub data SafetyViolationError : Type 0 where
  trade_over_limit : SafetyViolationError
  wallet_not_allowed : SafetyViolationError
  daily_loss_over_limit : SafetyViolationError
  exposure_over_limit : SafetyViolationError

pub record SafetyConfig : Type 0 where
  pub max_trade_sol : ℤ
  pub max_daily_loss_sol : ℤ
  pub allowed_wallets : List String

-- `SafetyConfig(…)` with its `__post_init__`.
unfoldable pub make_config : ℤ → ℤ → Option (List String) → SafetyConfig
make_config max_trade max_daily_loss wallets = record {
  max_trade_sol = min_ℤ max_trade max_micro_trade_sol;
  max_daily_loss_sol = min_ℤ max_daily_loss max_micro_daily_loss_sol;
  allowed_wallets = elim wallets [ none ↦ [] | some ws ↦ ws ];
}

-- `wallet in wallets`
unfoldable pub member : String → List String → Bool
member w [] = false
member w (x ∷ xs) = let rest = member w xs in if str_eq x w then true else rest

unfoldable pub is_wallet_allowed : SafetyConfig → String → Bool
is_wallet_allowed c wallet = member wallet c.allowed_wallets

unfoldable pub validate_order : SafetyConfig → String → ℤ → ℤ → ℤ → Result SafetyViolationError Bool
validate_order c wallet_source amount_in_sol current_exposure_sol daily_loss_sol =
    if ltb_ℤ c.max_trade_sol amount_in_sol
    then err trade_over_limit
    else if not (is_wallet_allowed c wallet_source)
    then err wallet_not_allowed
    else if leb_ℤ c.max_daily_loss_sol daily_loss_sol
    then err daily_loss_over_limit
    else if ltb_ℤ max_micro_exposure_sol (current_exposure_sol +ℤ amount_in_sol)
    then err exposure_over_limit
    else ok true

pub record Limits : Type 0 where
  pub max_trade_sol : ℤ
  pub max_daily_loss_sol : ℤ
  pub max_exposure_sol : ℤ
  pub allowed_wallets_count : ℕ

unfoldable pub get_limits : SafetyConfig → Limits
get_limits c = record {
  max_trade_sol = c.max_trade_sol;
  max_daily_loss_sol = c.max_daily_loss_sol;
  max_exposure_sol = max_micro_exposure_sol;
  allowed_wallets_count = length c.allowed_wallets;
}
