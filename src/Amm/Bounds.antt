-- ===== src/Amm/Bounds.antt =====
-- What a swap can give: less than the pool holds, and never at the pool's expense.
use engine_bot.Shared.{ℕ, ◌+◌, ◌*◌, ◌-◌, ◌/◌, ◌≤◌, ◌<◌, ◌≡◌, ◌↔◌, sym, ◌∙◌, ap, arith}
use engine_bot.Shared.Results.{ok}
use engine_bot.Amm.Swap.{get_amount_out, divide, get_x_per_y, get_y_per_x, calculate_k_constant}
use native.Mathlib.Nat.{
  le-div_iff_mul-le, mul-pos, le_of_mul-le-mul_right, mul-le-mul, mul-add, mul-le-mul_left,
  div-lt_iff_lt-mul,
}

-- What a successful swap was given and gives, without the division.
pub get_amount_out-ok :
    (a ri ro f o : ℕ)
    → get_amount_out a ri ro f ≡ ok o
    → (0 < a) × (0 < ri) × (0 < ro) × (o ≡ a * (10000 - f) * ro / (ri * 10000 + a * (10000 - f)))
unfolding get_amount_out divide
get_amount_out-ok a ri ro f o e = ground arith

-- The curve itself: a payout `o` of a reserve `o + r` is within the quotient just when it is
-- below the curve.
pub payout_le : (x c o r : ℕ) → 0 < c → (o ≤ x * (o + r) / (c + x)) ↔ (o * c ≤ x * r)
payout_le x c o r pos =
    let bound = le-div_iff_mul-le {k = c + x} {x = o} {y = x * (o + r)} (omega arith) in
    (λ h. let h' = bound.0 h in grind arith, λ h. bound.1 (grind arith))

payout_lt : (x c r : ℕ) → 0 < c → 0 < r → x * r / (c + x) < r
payout_lt x c r cpos rpos =
    (div-lt_iff_lt-mul {k = c + x} {x = x * r} {y = r} (omega arith)).1
      (let p : 0 < r * c = mul-pos rpos cpos in grind arith)

-- A swap pays out less than the pool's reserve of that token.
pub get_amount_out_lt : (a ri ro f o : ℕ) → get_amount_out a ri ro f ≡ ok o → o < ro
get_amount_out_lt a ri ro f o e =
    let (apos, ipos, opos, is) = get_amount_out-ok a ri ro f o e in
    rw is (payout_lt (a * (10000 - f)) (ri * 10000) ro (omega arith) opos)

-- What is paid out keeps below the constant product curve, with the fee taken off.
pub below_curve :
    (a ri ro f o : ℕ)
    → get_amount_out a ri ro f ≡ ok o
    → o * (ri * 10000) ≤ a * (10000 - f) * (ro - o)
below_curve a ri ro f o e =
    let (apos, ipos, opos, is) = get_amount_out-ok a ri ro f o e in
    let below = (payout_le (a * (10000 - f)) (ri * 10000) o (ro - o) (omega arith)).0 in
    let whole : o + (ro - o) ≡ ro = omega (arith, get_amount_out_lt a ri ro f o e) in
    below (rw (whole, ← is) (omega arith))

-- The same without the fee.
pub below_free_curve : (a ri ro f o : ℕ) → get_amount_out a ri ro f ≡ ok o → o * ri ≤ a * (ro - o)
below_free_curve a ri ro f o e =
    let below = below_curve a ri ro f o e in
    let less : a * (10000 - f) * (ro - o) ≤ a * 10000 * (ro - o) =
      mul-le-mul (mul-le-mul_left a (omega arith)) (omega arith) in
    le_of_mul-le-mul_right {m = o * ri} {n = a * (ro - o)} {k = 10000} (grind arith) (omega arith)

curve_k : (a ri o r ro : ℕ) → o + r ≡ ro → o * ri ≤ a * r → ri * ro ≤ (ri + a) * r
curve_k a ri o r ro e h = grind arith

-- With a fee of at most 100 percent, a swap pays out less than the reserve and never lowers the
-- pool's product of reserves: with the amount that is paid in added to one reserve and the amount
-- that is paid out taken off the other, the product is at least what it was.
pub get_amount_out-k_constant :
    (a ri ro f o : ℕ)
    → f ≤ 10000
    → get_amount_out a ri ro f ≡ ok o
    → (o < ro) × (calculate_k_constant ri ro ≤ calculate_k_constant (ri + a) (ro - o))
unfolding calculate_k_constant
get_amount_out-k_constant a ri ro f o fee e =
    let lt = get_amount_out_lt a ri ro f o e in
    let below = below_free_curve a ri ro f o e in
    let whole : o + (ro - o) ≡ ro = omega (arith, lt) in
    (lt, curve_k a ri o (ro - o) ro whole below)

back_le : (a ri o r b d : ℕ) → 0 < r → b + d ≡ ri + a → o * ri ≤ a * r → b * r ≤ o * d → b ≤ a
back_le a ri o r b d pos whole there back =
    let spread : o * b + o * d ≡ o * ri + o * a =
      sym (mul-add o b d) ∙ ap (λ t. o * t) whole ∙ mul-add o ri a in
    le_of_mul-le-mul_right {m = b} {n = a} {k = r + o} (grind arith) (omega arith)

-- Changing an amount and changing what was paid for it back, at the reserves that the first swap
-- leaves, gives no more than the amount, whatever the two fees of at most 100 percent are.
pub swap_back_le :
    (a ri ro f g o b : ℕ)
    → f ≤ 10000
    → g ≤ 10000
    → get_y_per_x ri ro a f ≡ ok o
    → get_x_per_y (ri + a) (ro - o) o g ≡ ok b
    → b ≤ a
unfolding get_y_per_x get_x_per_y
swap_back_le a ri ro f g o b fee fee' e e' =
    let lt = get_amount_out_lt a ri ro f o e in
    let lt' = get_amount_out_lt o (ro - o) (ri + a) g b e' in
    let there = below_free_curve a ri ro f o e in
    let back = below_free_curve o (ro - o) (ri + a) g b e' in
    let left : 0 < ro - o = omega (arith, lt) in
    let whole : b + (ri + a - b) ≡ ri + a = omega (arith, lt') in
    back_le a ri o (ro - o) b (ri + a - b) left whole there back
