-- ===== src/Orders/Ticks.antt =====
-- What `on_tick` does, against a description of it without a loop over changing state.
use engine_bot.Shared.{
  ◌≡◌, refl, String, str_eq, Bool, true, false, not, none, some, List, [], ◌∷◌, ◌++◌, All,
  All-combine, keep, arith, Option-cases, inl, inr, eq_iff,
}
use mathlib.Core.List.{append_assoc, append-nil}
use engine_bot.Shared.Int.{ℤ}
use engine_bot.Shared.Dict.{
  Dict, lookup, contains, erase, erase_all, erase_all-cons, IsUnique, All-ne_of_missing,
  contains-erase, erase-missing, All-contains,
}
use engine_bot.Shared.Results.{ok}
use engine_bot.Orders.Position.{PositionState, reason_value, close, CloseAction, make_action}
use engine_bot.Orders.Manager.{
  OrderManager, HistoryEntry, history_entry, create_close_action, is_partial_close, Tick,
  tick_reason, tick_loop, on_tick,
}
use engine_bot.Orders.Invariant.{IsValid, IsItem, on_tick-IsValid}

-- Whether the tick closes the position.
abbrev pub is_hit : Tick → String × PositionState → Bool
is_hit t e = elim (tick_reason t e.1) [ none ↦ false | some _ ↦ true ]

-- The closes that a tick asks for, in the order of the dictionary.
abbrev pub tick_actions : Tick → Dict PositionState → List CloseAction
tick_actions t [] = []
tick_actions t (e ∷ d) = elim (tick_reason t e.1) [
  | none ↦ tick_actions t d
  | some r ↦
      make_action e.1.signal_id close (reason_value r) t.current_price none ∷ tick_actions t d
]

abbrev pub tick_entries : Tick → ℤ → Dict PositionState → List HistoryEntry
tick_entries t now [] = []
tick_entries t now (e ∷ d) = elim (tick_reason t e.1) [
  | none ↦ tick_entries t now d
  | some r ↦
      history_entry e.1 close (reason_value r) t.current_price none now ∷ tick_entries t now d
]

abbrev hit_keys : Tick → Dict PositionState → List String
hit_keys t [] = []
hit_keys t (e ∷ d) = elim (tick_reason t e.1) [
  | none ↦ hit_keys t d
  | some _ ↦ e.1.signal_id ∷ hit_keys t d
]

abbrev pub survivors : Tick → Dict PositionState → Dict PositionState
survivors t = keep (λ e. not (is_hit t e))

-- A close with no size takes the position out.
close_full :
    (p : PositionState) (reason : String) (price now : ℤ) (m : OrderManager)
    → contains p.signal_id m.positions ≡ true
    → create_close_action p reason price none now m ≡ (
      ok (make_action p.signal_id close reason price none),
      record m {
        positions = erase p.signal_id m.positions;
        history = m.history ++ history_entry p close reason price none now ∷ [];
      },
    )
unfolding create_close_action is_partial_close
close_full p reason price now m h = rw h refl

-- Deleting one position leaves the others of the snapshot in place.
rest_stay :
    (e : String × PositionState) (rest : Dict PositionState) (m : OrderManager)
    → IsUnique (e ∷ rest)
    → e.0 ≡ e.1.signal_id
    → All (λ x. contains x.0 m.positions ≡ true) rest
    → All (λ x. contains x.0 (erase e.1.signal_id m.positions) ≡ true) rest
rest_stay e rest m u k c =
    All-combine (λ x. str_eq e.0 x.0 ≡ false) (λ x. contains x.0 m.positions ≡ true) _ rest
      (λ x ne there. ground (arith, contains-erase e.1.signal_id x.0 m.positions))
      (All-ne_of_missing e.0 rest u.0) c

tick_loop-eq :
    (t : Tick) (now : ℤ) (snapshot : Dict PositionState) (m : OrderManager)
    → IsUnique snapshot
    → All IsItem snapshot
    → All (λ e. contains e.0 m.positions ≡ true) snapshot
    → tick_loop t now snapshot m ≡ (
      ok (tick_actions t snapshot),
      record m {
        positions = erase_all (hit_keys t snapshot) m.positions;
        history = m.history ++ tick_entries t now snapshot;
      },
    )
unfolding tick_loop erase_all
tick_loop-eq t now [] m u i c = rw append-nil refl
tick_loop-eq t now (e ∷ rest) m u i c = elim (Option-cases (tick_reason t e.1)) [
  | inl skip ↦ ground (arith, tick_loop-eq t now rest m u.1 i.1 c.1)
  | inr (r, hit) ↦ ground (
    arith,
    close_full e.1 (reason_value r) t.current_price now m (rw (← i.0.0) c.0),
    append_assoc m.history (history_entry e.1 close (reason_value r) t.current_price none now ∷ [])
        (tick_entries t now rest),
    tick_loop-eq t now rest
        (record m {
          positions = erase e.1.signal_id m.positions;
          history =
              m.history ++ history_entry e.1 close (reason_value r) t.current_price none now ∷ [];
        })
        u.1 i.1 (rest_stay e rest m u i.0.0 c.1),
  )
]

hit_keys-ne :
    (t : Tick) (k : String) (d : Dict PositionState)
    → All IsItem d
    → All (λ e. str_eq k e.0 ≡ false) d
    → All (λ j. str_eq k j ≡ false) (hit_keys t d)
hit_keys-ne t k [] i h = tt
hit_keys-ne t k (e ∷ d) i h = ground (arith, i.0, hit_keys-ne t k d i.1 h.1)

-- The keys that are hit leave exactly the survivors.
erase_all-hit_keys :
    (t : Tick) (d : Dict PositionState)
    → IsUnique d
    → All IsItem d
    → erase_all (hit_keys t d) d ≡ survivors t d
unfolding erase_all erase
erase_all-hit_keys t [] u i = refl
erase_all-hit_keys t (e ∷ d) u i = elim (Option-cases (tick_reason t e.1)) [
  | inl skip ↦ ground (
    arith,
    erase_all-cons (hit_keys t d) e d (hit_keys-ne t e.0 d i.1 (All-ne_of_missing e.0 d u.0)),
    erase_all-hit_keys t d u.1 i.1,
  )
  | inr (r, hit) ↦ ground (
    arith,
    i.0,
    eq_iff e.0 e.1.signal_id,
    erase-missing e.0 d u.0,
    erase_all-hit_keys t d u.1 i.1,
  )
]

-- A tick without a loop: the actions, the positions that stay and the new entries, each by the
-- test of a single position.
pub on_tick-eq :
    (t : Tick) (now : ℤ) (m : OrderManager)
    → IsValid m
    → on_tick t now m ≡ (
      ok (tick_actions t m.positions),
      record m {
        positions = survivors t m.positions;
        history = m.history ++ tick_entries t now m.positions;
      },
    )
unfolding on_tick
on_tick-eq t now m v = ground (
  arith,
  tick_loop-eq t now m.positions m v.unique v.items (All-contains m.positions),
  erase_all-hit_keys t m.positions v.unique v.items,
)

tick_actions-survivors :
    (t : Tick) (now : ℤ) (d : Dict PositionState)
    → (tick_actions t (survivors t d) ≡ [])
      × (tick_entries t now (survivors t d) ≡ [])
      × (survivors t (survivors t d) ≡ survivors t d)
tick_actions-survivors t now [] = (refl, refl, refl)
tick_actions-survivors t now (e ∷ d) = ground (arith, tick_actions-survivors t now d)

-- A tick is idempotent: in a valid manager, running the same tick a second time closes nothing
-- and changes nothing, at whatever time it runs.
pub on_tick_again :
    (t : Tick) (now later : ℤ) (m : OrderManager)
    → IsValid m
    → on_tick t later (on_tick t now m).1 ≡ (ok [], (on_tick t now m).1)
on_tick_again t now later m v = ground (
  arith,
  on_tick-eq t now m v,
  on_tick-eq t later (on_tick t now m).1 (on_tick-IsValid t now m v),
  tick_actions-survivors t later m.positions,
  append-nil (m.history ++ tick_entries t now m.positions),
)

-- What the tick does not hit, it keeps.
pub lookup-survivors :
    (t : Tick) (k : String) (p : PositionState) (d : Dict PositionState)
    → lookup k d ≡ some p
    → tick_reason t p ≡ none
    → lookup k (survivors t d) ≡ some p
unfolding lookup
lookup-survivors t k p [] h n = cc
lookup-survivors t k p (e ∷ d) h n = ground (arith, lookup-survivors t k p d)
