-- ===== src/Amm/Tests.antt =====
-- Swaps at concrete inputs.
use engine_bot.Shared.{ℕ, ◌+◌, ◌-◌, ◌≤◌, ◌<◌, ◌≡◌, refl, arith, false}
use engine_bot.Shared.Results.{ok, err}
use engine_bot.Amm.Swap.{
  drains_pool, zero_division, divide, get_amount_out, get_amount_in, get_x_per_y,
  calculate_k_constant, check_k_invariant,
}
use engine_bot.Amm.Bounds.{get_amount_out-k_constant}
use engine_bot.Amm.Inverse.{get_amount_in-pays}

swap_pays : get_amount_out 1000 1000000 2000000 25 ≡ ok 1993
unfolding get_amount_out divide
swap_pays = refl

larger_swap_pays : get_amount_out 2000 1000000 2000000 25 ≡ ok 3982
unfolding get_amount_out divide
larger_swap_pays = refl

swap_back_pays : get_x_per_y 1001000 1998007 1993 25 ≡ ok 995
unfolding get_x_per_y get_amount_out divide
swap_back_pays = refl

all_is_refused : get_amount_in 2000000 1000000 2000000 25 ≡ err drains_pool
unfolding get_amount_in
all_is_refused = refl

whole_fee_divides_by_zero : get_amount_in 5 1000000 2000000 10000 ≡ err zero_division
unfolding get_amount_in divide
whole_fee_divides_by_zero = refl

-- The fee of one ordinary swap is more than the default tolerance.
fee_is_refused : check_k_invariant 1000000 2000000 1001000 1998007 1 ≡ false
unfolding check_k_invariant
fee_is_refused = refl

get_amount_out-k_constant_example :
    (1993 < 2000000)
    × (calculate_k_constant 1000000 2000000
        ≤ calculate_k_constant (1000000 + 1000) (2000000 - 1993))
get_amount_out-k_constant_example =
    get_amount_out-k_constant 1000 1000000 2000000 25 1993 (omega arith) swap_pays

get_amount_in-pays_example :
    (a : ℕ) × (q : ℕ) × (get_amount_in 1993 1000000 2000000 25 ≡ ok a)
    × (get_amount_out a 1000000 2000000 25 ≡ ok q)
    × (1993 ≤ q)
    × ((a' q' : ℕ) → get_amount_out a' 1000000 2000000 25 ≡ ok q' → 1993 ≤ q' → a ≤ a' + 1)
get_amount_in-pays_example =
    get_amount_in-pays 1993 1000000 2000000 25 (omega arith) (omega arith) (omega arith)
      (omega arith)
