-- ===== src/Trades/Balance.antt =====
-- execution/sim_fill.py: what exits keep.
use engine_bot.Shared.{
  ℕ, ◌+◌, ◌*◌, ◌/◌, ◌≤◌, ◌<◌, ◌≡◌, refl, List, [], ◌∷◌, arith, inl, inr, ltb, Bool-cases,
  if◌then◌else◌,
}
use engine_bot.Shared.Int.{ℤ, pos, ◌+ℤ◌, int_laws, of_eq, eq_of_parts}
use native.Mathlib.Nat.{
  mul-le-mul_left, mul-le-mul_right, le-div_iff_mul-le, div-mul-le_self, lt-div-mul-add,
}
use engine_bot.Trades.Exits.{
  ExitSignal, SimulatedTrade, ExitResult, amount_to_sell, is_dust_remaining, process_exit_signal,
  Priced, process_all,
}

-- The trade after a run, and what the run has sold and gained.
abbrev pub last_trade : SimulatedTrade → List ExitResult → SimulatedTrade
last_trade trade [] = trade
last_trade trade (r ∷ rs) = last_trade r.trade rs

abbrev pub total_sold : List ExitResult → ℕ
total_sold [] = 0
total_sold (r ∷ rs) = r.amount_sold + total_sold rs

abbrev pub total_pnl : List ExitResult → ℤ
total_pnl [] = pos 0
total_pnl (r ∷ rs) = r.pnl_realized +ℤ total_pnl rs

-- No more is sold than there is.
amount-le : (parts size pct : ℕ) → amount_to_sell parts size pct * parts ≤ size
unfolding amount_to_sell
amount-le parts size pct =
    let least =
      (if ltb (size * pct / (10000 * parts)) 1 then 1 else size * pct / (10000 * parts)) in
    elim (Bool-cases (ltb size (least * parts))) [
      | inl more ↦ rw more (div-mul-le_self size parts)
      | inr enough ↦ rw enough (ground (arith, enough))
    ]

-- A whole share covers the whole tokens.
whole_share :
    (parts size pct : ℕ) → 1 ≤ parts → 10000 ≤ pct → size / parts ≤ size * pct / (10000 * parts)
whole_share parts size pct unit whole =
    let tokens = div-mul-le_self size parts in
    let scaled : size / parts * parts * 10000 ≤ size * 10000 = omega (arith, tokens) in
    let more : size * 10000 ≤ size * pct = mul-le-mul_left size whole in
    (le-div_iff_mul-le {k = 10000 * parts} {x = size / parts} {y = size * pct} (omega arith)).1
      (omega (arith, scaled, more))

-- With a whole share less than a token is left.
amount_whole :
    (parts size pct : ℕ)
    → 1 ≤ parts
    → 10000 ≤ pct
    → size < amount_to_sell parts size pct * parts + parts
unfolding amount_to_sell
amount_whole parts size pct unit whole =
    let least =
      (if ltb (size * pct / (10000 * parts)) 1 then 1 else size * pct / (10000 * parts)) in
    let near = lt-div-mul-add {a = size} {b = parts} (omega arith) in
    let share = whole_share parts size pct unit whole in
    let covers : size / parts ≤ least = ground (arith, share) in
    elim (Bool-cases (ltb size (least * parts))) [
      | inl more ↦ rw more near
      | inr enough ↦ rw enough (omega (arith, near, mul-le-mul_right parts covers))
    ]

-- What an exit keeps of the size: what is sold and left is no more than there was, and less by
-- less than one token; where something is left, nothing is lost.
abbrev pub IsKept : ℕ → ℕ → ℕ → ℕ → Type 0
IsKept parts sold left before =
    (sold * parts + left ≤ before)
    × (before < sold * parts + left + parts)
    × (1 ≤ left → sold * parts + left ≡ before)

one_exit :
    (parts : ℕ) (trade : SimulatedTrade) (s : ExitSignal) (price : ℕ)
    → 1 ≤ parts
    → IsKept parts
        (process_exit_signal parts trade s price).amount_sold
        (process_exit_signal parts trade s price).trade.size_remaining
        trade.size_remaining
unfolding process_exit_signal is_dust_remaining
one_exit parts trade s price unit =
    let le = amount-le parts trade.size_remaining s.size_pct in
    let whole = amount_whole parts trade.size_remaining s.size_pct unit in
    (ground (arith, le), ground (arith, le, whole), λ some_left. ground (arith, le, some_left))

one_pnl :
    (parts : ℕ) (trade : SimulatedTrade) (s : ExitSignal) (price : ℕ)
    → (process_exit_signal parts trade s price).trade.realized_pnl
      ≡ trade.realized_pnl +ℤ (process_exit_signal parts trade s price).pnl_realized
unfolding process_exit_signal
one_pnl parts trade s price = refl

plus_zero : (x : ℤ) → x ≡ x +ℤ pos 0
plus_zero x = eq_of_parts _ _ (omega int_laws)

-- An exit and the later ones.
IsKept-trans :
    (parts a b left middle before : ℕ)
    → IsKept parts a middle before
    → IsKept parts b left middle
    → IsKept parts (a + b) left before
IsKept-trans parts a b left middle before (le, near, exact) (le', near', exact') =
    elim (Bool-cases (ltb 0 middle)) [
      | inl some_left ↦
          let same = exact (ground (arith, some_left)) in
          (omega arith, omega arith, λ h. omega (arith, exact' h))
      | inr gone ↦
          let closed : middle ≡ 0 = ground (arith, gone) in
          (omega arith, omega arith, λ h. omega arith)
    ]

-- Over every sequence of exit signals, with sizes in parts of a token: what is sold and what is
-- left of the trade is at most what was there, and less than that by less than one token, which
-- a close drops; while something is left of the trade nothing is lost; and the realized profit
-- grows by exactly the profits of the single exits.
pub process_all-keeps :
    (parts : ℕ) (trade : SimulatedTrade) (ps : List Priced)
    → 1 ≤ parts
    → IsKept parts
        (total_sold (process_all parts trade ps))
        (last_trade trade (process_all parts trade ps)).size_remaining
        trade.size_remaining
      × ((last_trade trade (process_all parts trade ps)).realized_pnl
          ≡ trade.realized_pnl +ℤ total_pnl (process_all parts trade ps))
unfolding process_all
process_all-keeps parts trade [] unit =
    ((omega arith, omega arith, λ some_left. omega arith), plus_zero trade.realized_pnl)
process_all-keeps parts trade (p ∷ ps) unit =
    let r = process_exit_signal parts trade p.signal p.price in
    let (kept, pnl) = process_all-keeps parts r.trade ps unit in
    let first = one_pnl parts trade p.signal p.price in
    (
      IsKept-trans parts r.amount_sold _ _ _ _ (one_exit parts trade p.signal p.price unit) kept,
      eq_of_parts _ _ (omega (int_laws, of_eq pnl, of_eq first)),
    )

-- Every signal sells: where a whole token is left an exit sells at least one, also where the
-- signal only updates the trailing stop.
pub every_signal_sells :
    (parts : ℕ) (trade : SimulatedTrade) (s : ExitSignal) (price : ℕ)
    → 1 ≤ parts
    → parts ≤ trade.size_remaining
    → 1 ≤ (process_exit_signal parts trade s price).amount_sold
unfolding process_exit_signal amount_to_sell
every_signal_sells parts trade s price unit filled =
    let token =
      (le-div_iff_mul-le {k = parts} {x = 1} {y = trade.size_remaining} (omega arith)).1
        (omega (arith, filled)) in
    ground (arith, token)
