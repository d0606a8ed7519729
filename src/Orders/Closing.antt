-- ===== src/Orders/Closing.antt =====
-- Opening and closing single positions: `on_fill` and `force_close`.
use engine_bot.Shared.{
  ◌≤◌, ◌<◌, ◌≡◌, refl, inl, inr, String, str_eq, eq_iff, true, false, Option, none, some, [], ◌∷◌,
  ◌++◌, length, arith, Option-cases, if◌then◌else◌,
}
use engine_bot.Shared.Int.{ℤ, ◌-ℤ◌, ltb_ℤ}
use engine_bot.Shared.Dict.{
  lookup, erase, modify, lookup-insert, lookup-erase, lookup-modify, contains_of_lookup, All-lookup,
}
use engine_bot.Shared.Results.{ok, err}
use engine_bot.Orders.Position.{
  partial, PositionState, is_active, close, partial_close, make_action, max_positions_reached,
}
use engine_bot.Orders.Manager.{
  OrderManager, history_entry, Fill, opened, on_fill, or_number, is_partial_close, reduced,
  create_close_action, force_close, Tick, tick_reason, on_tick,
}
use engine_bot.Orders.Invariant.{IsValid, IsItem}
use engine_bot.Orders.Ticks.{on_tick-eq, lookup-survivors}

-- `on_fill` on every branch: a known signal gives the stored position and changes nothing; a new
-- one is refused with nothing changed where `max_positions` are held, and is stored otherwise,
-- with every other signal's position as it was.
pub on_fill_branches :
    (f : Fill) (m : OrderManager)
    → ((p : PositionState) → lookup f.signal_id m.positions ≡ some p → on_fill f m ≡ (ok p, m))
      × (lookup f.signal_id m.positions ≡ none
          → m.config.max_positions ≤ length m.positions
          → on_fill f m ≡ (err max_positions_reached, m))
      × (lookup f.signal_id m.positions ≡ none
          → length m.positions < m.config.max_positions
          → ((on_fill f m).0 ≡ ok (opened f))
            × ((j : String)
                → lookup j (on_fill f m).1.positions
                  ≡ (if str_eq f.signal_id j then some (opened f) else lookup j m.positions)))
unfolding on_fill
on_fill_branches f m = (
  λ p e. rw (e, on_fill),
  λ e full. rw (e, on_fill) (ground arith),
  λ e free. (
    rw (e, on_fill) (ground arith),
    λ j. rw (e, on_fill) (ground (arith, lookup-insert f.signal_id j (opened f) m.positions)),
  ),
)

-- A second fill of a signal, whatever else it says, gives the position of the first and changes
-- nothing, as long as the first was accepted.
pub on_fill_again :
    (f g : Fill) (m : OrderManager) (p : PositionState)
    → f.signal_id ≡ g.signal_id
    → (on_fill f m).0 ≡ ok p
    → on_fill g (on_fill f m).1 ≡ (ok p, (on_fill f m).1)
unfolding on_fill
on_fill_again f g m p same h = elim (Option-cases (lookup f.signal_id m.positions)) [
  | inr (old, e) ↦ ground (arith, same)
  | inl e ↦ ground (
    arith,
    same,
    lookup-insert f.signal_id f.signal_id (opened f) m.positions,
    eq_iff f.signal_id f.signal_id,
  )
]

module _ (k reason : String) (price size : Option ℤ) (now : ℤ) (m : OrderManager)
    (p : PositionState) (v : IsValid m) (found : lookup k m.positions ≡ some p)
    (live : is_active p ≡ true) where
  keyed : k ≡ p.signal_id
  keyed = (All-lookup IsItem k p m.positions v.items found).0

  -- The price that a close records.
  abbrev close_price : ℤ
  close_price = or_number price p.entry_price

  force_close-full_eq :
      is_partial_close p size ≡ false
      → force_close k reason price size now m ≡ (
        ok (some (make_action k close reason close_price size)),
        record m {
          positions = erase k m.positions;
          history = m.history ++ history_entry p close reason close_price size now ∷ [];
        },
      )
  unfolding force_close create_close_action
  force_close-full_eq full =
      ground (arith, found, live, keyed, contains_of_lookup k p m.positions found)

  force_close-part_eq :
      is_partial_close p size ≡ true
      → force_close k reason price size now m ≡ (
        ok (some (make_action k partial_close reason close_price size)),
        record m {
          positions = modify k (reduced reason close_price size now) m.positions;
          history = m.history ++ history_entry p partial_close reason close_price size now ∷ [];
        },
      )
  unfolding force_close create_close_action
  force_close-part_eq part = ground (arith, found, live, keyed)

-- A forced close of an unknown signal does nothing.
force_close-missing :
    (k reason : String) (price size : Option ℤ) (now : ℤ) (m : OrderManager)
    → lookup k m.positions ≡ none
    → force_close k reason price size now m ≡ (ok none, m)
unfolding force_close
force_close-missing k reason price size now m gone = ground (arith, gone)

-- In a valid manager, a forced close of an active position with no size, or with one that covers
-- what remains, gives a CLOSE of that signal at the given price (at the entry price if it is
-- missing or zero), takes the position out and no other, and a second forced close of the signal
-- does nothing.
pub force_close_full :
    (k reason : String) (price size : Option ℤ) (now : ℤ) (m : OrderManager) (p : PositionState)
    → IsValid m
    → lookup k m.positions ≡ some p
    → is_active p ≡ true
    → is_partial_close p size ≡ false
    → let m' = (force_close k reason price size now m).1 in
      ((force_close k reason price size now m).0
        ≡ ok (some (make_action k close reason (or_number price p.entry_price) size)))
      × ((j : String) → lookup j m'.positions ≡ (if str_eq k j then none else lookup j m.positions))
      × ((again : String) (price' size' : Option ℤ) (later : ℤ)
          → force_close k again price' size' later m' ≡ (ok none, m'))
force_close_full k reason price size now m p v found live full =
    rw (force_close-full_eq k reason price size now m p v found live full) (
      refl,
      λ j. lookup-erase k j m.positions,
      λ again price' size' later.
          force_close-missing k again price' size' later _
            (ground (arith, lookup-erase k k m.positions, eq_iff k k)),
    )

-- In a valid manager, a forced close of an active position with a size below what remains gives a
-- PARTIAL_CLOSE, lowers the remaining size by exactly that size, marks the position PARTIAL, and
-- leaves every other position as it was.
pub force_close_part :
    (k reason : String) (price : Option ℤ) (size now : ℤ) (m : OrderManager) (p : PositionState)
    → IsValid m
    → lookup k m.positions ≡ some p
    → is_active p ≡ true
    → ltb_ℤ size p.remaining_size_usd ≡ true
    → let (r, m') = force_close k reason price (some size) now m in
      (r
        ≡ ok
            (some (make_action k partial_close reason (or_number price p.entry_price) (some size))))
      × ((j : String) → str_eq k j ≡ false → lookup j m'.positions ≡ lookup j m.positions)
      × ((q : PositionState)
          → lookup k m'.positions ≡ some q
          → (q.status ≡ partial) × (q.remaining_size_usd ≡ p.remaining_size_usd -ℤ size))
unfolding is_partial_close reduced or_number
force_close_part k reason price size now m p v found live part =
    rw (force_close-part_eq k reason price (some size) now m p v found live part) (
      refl,
      λ j ne. ground (
        arith,
        lookup-modify k j (reduced reason (or_number price p.entry_price) (some size) now)
            m.positions,
      ),
      λ q h. ground (
        arith,
        eq_iff k k,
        found,
        lookup-modify k k (reduced reason (or_number price p.entry_price) (some size) now)
            m.positions,
      ),
    )

tick_reason-partial : (t : Tick) (p : PositionState) → p.status ≡ partial → tick_reason t p ≡ none
unfolding tick_reason is_active
tick_reason-partial t p h = ground arith

-- In a valid manager, a position that was closed in part is never closed again: every tick keeps
-- it as it is, and every forced close of its signal does nothing.
pub partial_is_stuck :
    (k : String) (m : OrderManager) (p : PositionState)
    → IsValid m
    → lookup k m.positions ≡ some p
    → p.status ≡ partial
    → ((t : Tick) (now : ℤ) → lookup k (on_tick t now m).1.positions ≡ some p)
      × ((reason : String) (price size : Option ℤ) (now : ℤ)
          → force_close k reason price size now m ≡ (ok none, m))
unfolding force_close is_active
partial_is_stuck k m p v found part = (
  λ t now.
      rw (on_tick-eq t now m v)
        (lookup-survivors t k p m.positions found (tick_reason-partial t p part)),
  λ reason price size now. ground (arith, found, part),
)
