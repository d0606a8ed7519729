-- ===== src/Orders/Due.antt =====
-- Which positions a tick closes, and why.
use engine_bot.Shared.{
  ◌≡◌, ◌≢◌, ◌⊎◌, refl, inl, inr, String, str_eq, eq_iff, Bool, true, false, Option, none, some,
  ◌++◌, not, ◌||◌, if◌then◌else◌, arith, Option-cases, String-cases,
}
use engine_bot.Shared.Int.{ℤ, ◌≤ℤ◌}
use engine_bot.Shared.Results.{ok}
use engine_bot.Orders.Position.{
  PositionStatus, CloseReason, PositionState, is_active, check_ttl, check_tp, check_sl,
}
use engine_bot.Orders.Manager.{OrderManager, Tick, tick_reason, on_tick}
use engine_bot.Orders.Invariant.{IsValid}
use engine_bot.Orders.Ticks.{tick_actions, survivors, tick_entries, on_tick-eq}

-- The tick is about the mint of the position, which is still open.
abbrev pub IsConcerned : Tick → PositionState → Type 0
IsConcerned t p =
    (p.mint ≡ t.mint) × ((p.status ≡ PositionStatus.active) ⊎ (p.status ≡ PositionStatus.pending))

abbrev pub IsPastTtl : Tick → PositionState → Type 0
IsPastTtl t p = p.ttl_expires_at ≤ℤ t.current_ts

-- The price has reached the take profit: from below for a BUY, from above for any other side.
abbrev pub IsAtTp : Tick → PositionState → Type 0
IsAtTp t p =
    (tp : ℤ) × (p.tp_price ≡ some tp)
    × (((t.side ≡ "BUY") × (tp ≤ℤ t.current_price)) ⊎ ((t.side ≢ "BUY") × (t.current_price ≤ℤ tp)))

-- The price has reached the stop loss: from above for a BUY, from below for any other side.
abbrev pub IsAtSl : Tick → PositionState → Type 0
IsAtSl t p =
    (sl : ℤ) × (p.sl_price ≡ some sl)
    × (((t.side ≡ "BUY") × (t.current_price ≤ℤ sl)) ⊎ ((t.side ≢ "BUY") × (sl ≤ℤ t.current_price)))

-- When the tick closes a position for a reason, and when it does not close it.
abbrev pub IsDue : Tick → PositionState → Option CloseReason → Type 0
IsDue t p none = IsConcerned t p → (¬ IsPastTtl t p) × (¬ IsAtTp t p) × (¬ IsAtSl t p)
IsDue t p (some CloseReason.ttl_expired) = IsConcerned t p × IsPastTtl t p
IsDue t p (some CloseReason.tp_hit) = IsConcerned t p × (¬ IsPastTtl t p) × IsAtTp t p
IsDue t p (some CloseReason.sl_hit) =
    IsConcerned t p × (¬ IsPastTtl t p) × (¬ IsAtTp t p) × IsAtSl t p
IsDue t p (some CloseReason.manual_close) = ⊥
IsDue t p (some CloseReason.reorg) = ⊥
IsDue t p (some CloseReason.error) = ⊥

-- A test that answers as a statement holds.
abbrev Decides : Bool → Type 0 → Type 0
Decides b P = (b ≡ true → P) × (b ≡ false → ¬ P)

is_buy : (side : String) → side ≡ "BUY" → str_eq side "BUY" ≡ true
is_buy side h = (eq_iff side "BUY").1 h

is_other : (side : String) → side ≢ "BUY" → str_eq side "BUY" ≡ false
is_other side h = elim (String-cases side "BUY") [
  | inl buy ↦ absurd (h buy)
  | inr (other, differs) ↦ differs
]

active_of :
    (p : PositionState)
    → is_active p ≡ true
    → (p.status ≡ PositionStatus.active) ⊎ (p.status ≡ PositionStatus.pending)
unfolding is_active
active_of p h = ground (arith, h)

concerned :
    (t : Tick) (p : PositionState)
    → Decides (not (not (str_eq p.mint t.mint) || not (is_active p))) (IsConcerned t p)
unfolding is_active
concerned t p = (
  λ h. ((eq_iff p.mint t.mint).0 (ground (arith, h)), active_of p (ground (arith, h))),
  λ h c. ground (arith, h, c.1, (eq_iff p.mint t.mint).1 c.0),
)

past_ttl : (t : Tick) (p : PositionState) → Decides (check_ttl p t.current_ts) (IsPastTtl t p)
unfolding check_ttl
past_ttl t p = (λ h. ground (arith, h), λ h past. ground (arith, h, past))

at_tp : (t : Tick) (p : PositionState) → Decides (check_tp p t.current_price t.side) (IsAtTp t p)
unfolding check_tp
at_tp t p = (reached, missed)
  where
    reached : check_tp p t.current_price t.side ≡ true → IsAtTp t p
    reached h = elim (Option-cases p.tp_price) [
      | inl unset ↦ ground (arith, h, unset)
      | inr (tp, is) ↦ elim (String-cases t.side "BUY") [
        | inl buy ↦ (tp, is, inl (buy, ground (arith, h, is, is_buy t.side buy)))
        | inr (other, differs) ↦ (tp, is, inr (other, ground (arith, h, is, differs)))
      ]
    ]

    missed : check_tp p t.current_price t.side ≡ false → ¬ IsAtTp t p
    missed h (tp, is, inl (buy, le)) = ground (arith, h, is, is_buy t.side buy, le)
    missed h (tp, is, inr (other, le)) = ground (arith, h, is, is_other t.side other, le)

at_sl : (t : Tick) (p : PositionState) → Decides (check_sl p t.current_price t.side) (IsAtSl t p)
unfolding check_sl
at_sl t p = (reached, missed)
  where
    reached : check_sl p t.current_price t.side ≡ true → IsAtSl t p
    reached h = elim (Option-cases p.sl_price) [
      | inl unset ↦ ground (arith, h, unset)
      | inr (sl, is) ↦ elim (String-cases t.side "BUY") [
        | inl buy ↦ (sl, is, inl (buy, ground (arith, h, is, is_buy t.side buy)))
        | inr (other, differs) ↦ (sl, is, inr (other, ground (arith, h, is, differs)))
      ]
    ]

    missed : check_sl p t.current_price t.side ≡ false → ¬ IsAtSl t p
    missed h (sl, is, inl (buy, le)) = ground (arith, h, is, is_buy t.side buy, le)
    missed h (sl, is, inr (other, le)) = ground (arith, h, is, is_other t.side other, le)

-- The reason for each outcome of the tests.
tick_reason-IsDue : (t : Tick) (p : PositionState) → IsDue t p (tick_reason t p)
unfolding tick_reason
tick_reason-IsDue t p =
    let aside = concerned t p in
    let ttl = past_ttl t p in
    let tp = at_tp t p in
    let sl = at_sl t p in
    go (not (str_eq p.mint t.mint) || not (is_active p)) (check_ttl p t.current_ts)
      (check_tp p t.current_price t.side) (check_sl p t.current_price t.side) aside ttl tp sl
  where
    go :
        (a b c d : Bool)
        → Decides (not a) (IsConcerned t p)
        → Decides b (IsPastTtl t p)
        → Decides c (IsAtTp t p)
        → Decides d (IsAtSl t p)
        → IsDue t p (
            if a
            then none
            else if b
            then some CloseReason.ttl_expired
            else if c
            then some CloseReason.tp_hit
            else if d
            then some CloseReason.sl_hit
            else none)
    go true b c d x y z w = λ concerns. absurd (x.1 refl concerns)
    go false true c d x y z w = (x.0 refl, y.0 refl)
    go false false true d x y z w = (x.0 refl, y.1 refl, z.0 refl)
    go false false false true x y z w = (x.0 refl, y.1 refl, z.1 refl, w.0 refl)
    go false false false false x y z w = λ concerns. (y.1 refl, z.1 refl, w.1 refl)

-- In a valid manager a tick raises nothing; it closes, each once and in order, exactly the
-- positions for which the test of a single position gives a reason, keeps the others as they
-- were, and appends one history entry for each close. The test gives a reason only for a position
-- of the tick's mint that is active or pending: the expiry of its time to live if that has come;
-- else the take profit if there is one and the price has reached it; else the stop loss if there
-- is one and the price has reached it; and it gives none only where none of the three holds, or
-- the mint is another one, or the position is not open. Prices reach a take profit from below and
-- a stop loss from above for the side BUY, and the other way round for any other side.
pub on_tick-IsDue :
    (t : Tick) (now : ℤ) (m : OrderManager)
    → IsValid m
    → (on_tick t now m ≡ (
      ok (tick_actions t m.positions),
      record m {
        positions = survivors t m.positions;
        history = m.history ++ tick_entries t now m.positions;
      },
    ))
      × ((p : PositionState) → IsDue t p (tick_reason t p))
on_tick-IsDue t now m v = (on_tick-eq t now m v, tick_reason-IsDue t)
