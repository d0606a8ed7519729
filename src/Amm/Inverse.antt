-- ===== src/Amm/Inverse.antt =====
-- The inverse of a swap: the amount that pays for a wanted payout.
use engine_bot.Shared.{ℕ, suc, ◌+◌, ◌*◌, ◌-◌, ◌/◌, ◌≤◌, ◌<◌, ◌≡◌, ◌↔◌, arith}
use engine_bot.Shared.Results.{ok}
use engine_bot.Amm.Swap.{get_amount_out, get_amount_in, divide}
use engine_bot.Amm.Bounds.{payout_le, get_amount_out-ok, get_amount_out_lt, below_curve}
use native.Mathlib.Nat.{lt-div-mul-add, mul-le-mul_right, mul-pos, div-lt_iff_lt-mul}

-- On positive amounts a swap succeeds.
pub get_amount_out_succeeds :
    (a ri ro f : ℕ)
    → 0 < a
    → 0 < ri
    → 0 < ro
    → get_amount_out a ri ro f ≡ ok (a * (10000 - f) * ro / (ri * 10000 + a * (10000 - f)))
unfolding get_amount_out divide
get_amount_out_succeeds a ri ro f apos ipos opos = ground arith

-- With a fee below 100 percent and a wanted payout below the reserve, the inverse succeeds.
pub get_amount_in_succeeds :
    (o ri ro f : ℕ)
    → 0 < o
    → 0 < ri
    → o < ro
    → f < 10000
    → get_amount_in o ri ro f ≡ ok (o * ri * 10000 / ((ro - o) * (10000 - f)) + 1)
unfolding get_amount_in divide
get_amount_in_succeeds o ri ro f opos ipos lt fee =
    let pos : 0 < (ro - o) * (10000 - f) = mul-pos (omega arith) (omega arith) in ground arith

-- An amount pays for a payout just when the payout is below the curve.
pub pays_iff :
    (a o ri ro f q : ℕ)
    → get_amount_out a ri ro f ≡ ok q
    → o < ro
    → (o ≤ q) ↔ (o * (ri * 10000) ≤ a * (10000 - f) * (ro - o))
pays_iff a o ri ro f q e lt =
    let (apos, ipos, opos, is) = get_amount_out-ok a ri ro f q e in
    let curve = payout_le (a * (10000 - f)) (ri * 10000) o (ro - o) (omega arith) in
    let whole : o + (ro - o) ≡ ro = omega (arith, lt) in rw is (rw whole at curve)

rearrange :
    (o ri s m t : ℕ) → o * ri * 10000 < t * (s * m) + s * m → o * (ri * 10000) ≤ (t + 1) * m * s
rearrange o ri s m t h = grind arith

-- The quotient of the inverse, one added, is enough.
enough : (o ri s m : ℕ) → 0 < s * m → o * (ri * 10000) ≤ (o * ri * 10000 / (s * m) + 1) * m * s
enough o ri s m pos =
    let near = lt-div-mul-add {a = o * ri * 10000} {b = s * m} pos in
    rearrange o ri s m (o * ri * 10000 / (s * m)) near

-- The quotient itself is not more than any amount that is enough.
quotient_least : (n d a : ℕ) → 0 < d → n ≤ a * d → n / d ≤ a
quotient_least n d a pos h =
    let near = (div-lt_iff_lt-mul {k = d} {x = n} {y = suc a} pos).1 in
    omega (arith, near (grind arith))

least :
    (o ri s m a : ℕ)
    → 0 < s * m
    → o * (ri * 10000) ≤ a * m * s
    → o * ri * 10000 / (s * m) + 1 ≤ a + 1
least o ri s m a pos h = omega (arith, quotient_least (o * ri * 10000) (s * m) a pos (grind arith))

-- For a wanted payout below the reserve, with a fee below 100 percent, the inverse gives an
-- amount for which the swap succeeds and pays at least the wanted payout; and every amount for
-- which the swap pays as much is at least the one given less one, so that it overpays by at most
-- one unit.
pub get_amount_in-pays :
    (o ri ro f : ℕ)
    → 0 < o
    → 0 < ri
    → o < ro
    → f < 10000
    → (a : ℕ) × (q : ℕ) × (get_amount_in o ri ro f ≡ ok a)
      × (get_amount_out a ri ro f ≡ ok q)
      × (o ≤ q)
      × ((a' q' : ℕ) → get_amount_out a' ri ro f ≡ ok q' → o ≤ q' → a ≤ a' + 1)
get_amount_in-pays o ri ro f opos ipos lt fee =
    let m = 10000 - f in
    let d = (ro - o) * m in
    let pos : 0 < d = mul-pos (omega arith) (omega arith) in
    let a = o * ri * 10000 / d + 1 in
    let q = a * m * ro / (ri * 10000 + a * m) in
    let pays : get_amount_out a ri ro f ≡ ok q =
      get_amount_out_succeeds a ri ro f (omega arith) ipos (omega arith) in
    (
      a,
      q,
      get_amount_in_succeeds o ri ro f opos ipos lt fee,
      pays,
      (pays_iff a o ri ro f q pays lt).1 (enough o ri (ro - o) m pos),
      λ a' q' e' le. least o ri (ro - o) m a' pos ((pays_iff a' o ri ro f q' e' lt).0 le),
    )

-- A larger amount is paid at least as much, at the same reserves and fee.
pub get_amount_out_mono :
    (a a' ri ro f o o' : ℕ)
    → a ≤ a'
    → get_amount_out a ri ro f ≡ ok o
    → get_amount_out a' ri ro f ≡ ok o'
    → o ≤ o'
get_amount_out_mono a a' ri ro f o o' le e e' =
    let lt = get_amount_out_lt a ri ro f o e in
    let more : a * (10000 - f) * (ro - o) ≤ a' * (10000 - f) * (ro - o) =
      mul-le-mul_right (ro - o) (mul-le-mul_right (10000 - f) le) in
    (pays_iff a' o ri ro f o' e' lt).1 (omega (arith, below_curve a ri ro f o e))
