-- ===== src/Amm/Swap.antt =====
-- ingestion/dex/raydium/math.py: the whole-number functions of the constant product pool.
-- Amounts and reserves are not negative (a negative one raises as 0 does), and a fee is at most
-- 10000 basis points. `ValueError` and `ZeroDivisionError` are the errors of a `Result`.
use engine_bot.Shared.{ℕ, ◌+◌, ◌*◌, ◌-◌, ◌/◌, Bool, leb, ◌==◌, ◌||◌, if◌then◌else◌}
use engine_bot.Shared.Results.{Result, ok, err, ◌>>=◌}

pub data MathError : Type 0 where
  bad_amount_in : MathError
  bad_amount_out : MathError
  bad_reserves : MathError
  drains_pool : MathError
  zero_division : MathError

abbrev pub default_fee_bps : ℕ
default_fee_bps = 25

-- `n // d`.
unfoldable pub divide : ℕ → ℕ → Result MathError ℕ
divide n d = if d == 0 then err zero_division else ok (n / d)

unfoldable pub get_amount_out : ℕ → ℕ → ℕ → ℕ → Result MathError ℕ
get_amount_out amount_in reserve_in reserve_out fee_bps =
    if amount_in == 0
    then err bad_amount_in
    else if reserve_in == 0 || reserve_out == 0
    then err bad_reserves
    else let fee_numerator = 10000 - fee_bps in
      let amount_in_with_fee = amount_in * fee_numerator in
      let numerator = amount_in_with_fee * reserve_out in
      let denominator = reserve_in * 10000 + amount_in_with_fee in divide numerator denominator

unfoldable pub get_amount_in : ℕ → ℕ → ℕ → ℕ → Result MathError ℕ
get_amount_in amount_out reserve_in reserve_out fee_bps =
    if amount_out == 0
    then err bad_amount_out
    else if reserve_in == 0 || reserve_out == 0
    then err bad_reserves
    else if leb reserve_out amount_out
    then err drains_pool
    else let numerator = amount_out * reserve_in * 10000 in
      let denominator = (reserve_out - amount_out) * (10000 - fee_bps) in
      divide numerator denominator >>= λ amount_in. ok (amount_in + 1)

unfoldable pub get_y_per_x : ℕ → ℕ → ℕ → ℕ → Result MathError ℕ
get_y_per_x reserve_x reserve_y amount_x fee_bps =
    get_amount_out amount_x reserve_x reserve_y fee_bps

unfoldable pub get_x_per_y : ℕ → ℕ → ℕ → ℕ → Result MathError ℕ
get_x_per_y reserve_x reserve_y amount_y fee_bps =
    get_amount_out amount_y reserve_y reserve_x fee_bps

unfoldable pub calculate_k_constant : ℕ → ℕ → ℕ
calculate_k_constant reserve_a reserve_b = reserve_a * reserve_b

-- One of the two differences is 0 on natural numbers, so that their sum is the distance.
unfoldable pub check_k_invariant : ℕ → ℕ → ℕ → ℕ → ℕ → Bool
check_k_invariant reserve_a reserve_b new_reserve_a new_reserve_b tolerance =
    let k_before = reserve_a * reserve_b in
    let k_after = new_reserve_a * new_reserve_b in
    leb (k_before - k_after + (k_after - k_before)) (tolerance * 1000)
