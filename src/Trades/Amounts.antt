-- ===== src/Trades/Amounts.antt =====
-- execution/transaction_builder.py: the amounts of a swap. A share of a balance counts ten-
-- thousandths, and a price a smallest unit; tokens are whole.
use engine_bot.Shared.{ℕ, ◌*◌, ◌/◌, String, Bool, not, ◌&&◌, ltb, if◌then◌else◌}
use engine_bot.Shared.Int.{ℤ, pos, ◌*ℤ◌, ◌-ℤ◌, pos_part, neg_part, sub_ℕ, ltb_ℤ, leb_ℤ}
use engine_bot.Shared.Results.{Result, ok, err}

pub data AmountError : Type 0 where
  bad_size_pct : AmountError
  negative_balance : AmountError

-- `int(balance * size_pct)`, but at least 1 and at most the balance.
unfoldable pub share_of : ℕ → ℕ → ℕ
share_of balance size_pct =
    let amount = balance * size_pct / 10000 in
    let least = if ltb amount 1 then 1 else amount in if ltb balance least then balance else least

unfoldable pub calculate_swap_amount : ℤ → ℤ → Result AmountError ℕ
calculate_swap_amount balance size_pct =
    if not (ltb_ℤ (pos 0) size_pct && leb_ℤ size_pct (pos 10000))
    then err bad_size_pct
    else if ltb_ℤ balance (pos 0)
    then err negative_balance
    else ok (share_of (pos_part balance) (pos_part size_pct))

-- `int(x)` of a number of ten-thousandths, towards 0.
unfoldable pub truncated : ℤ → ℤ
truncated x = sub_ℕ (pos_part x / 10000) (neg_part x / 10000)

unfoldable pub calculate_min_output : ℕ → ℕ → ℤ → ℤ
calculate_min_output amount_in current_price slippage_bps =
    truncated (pos (amount_in * current_price) *ℤ (pos 10000 -ℤ slippage_bps))

pub record SwapInstruction : Type 0 where
  pub amount_in_u64 : ℕ
  pub min_amount_out_u64 : ℤ
  pub mint : String

unfoldable pub build_swap_instruction : ℤ → ℤ → String → ℕ → ℤ → Result AmountError SwapInstruction
build_swap_instruction balance size_pct mint current_price slippage_bps =
    elim (calculate_swap_amount balance size_pct) [
      | err e ↦ err e
      | ok amount ↦ ok (record {
        amount_in_u64 = amount;
        min_amount_out_u64 = calculate_min_output amount current_price slippage_bps;
        mint = mint;
      })
    ]

-- The threshold is one token.
unfoldable pub is_dust_remaining : ℕ → Bool
is_dust_remaining balance = ltb balance 1
