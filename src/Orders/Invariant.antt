-- ===== src/Orders/Invariant.antt =====
-- The invariant of `OrderManager`, and that every operation keeps it.
use engine_bot.Shared.{
  ◌≤◌, ◌≡◌, inl, inr, String, Bool, false, Option, none, List, [], ◌∷◌, All, length, arith, leb,
  Bool-cases, Option-cases,
}
use engine_bot.Shared.Int.{ℤ}
use engine_bot.Shared.Dict.{
  Dict, lookup, contains, IsUnique, insert-IsUnique, erase-IsUnique, modify-IsUnique, All-insert,
  All-erase, All-modify, length-insert, length-erase-le, length-modify, lookup_of_contains,
}
use engine_bot.Shared.Results.{Result, ok, err}
use engine_bot.Orders.Position.{
  CloseAction, is_active, reason_value, PositionStatus, active, partial, PositionState, post_init,
  OrderError, OrderManagerConfig,
}
use engine_bot.Orders.Manager.{
  after_close, or_number, OrderManager, new_manager, Fill, opened, on_fill, create_close_action,
  is_partial_close, reduced, Tick, tick_reason, tick_loop, on_tick, force_close,
}

abbrev pub IsOpen : PositionStatus → Type 0
IsOpen active = Unit
IsOpen partial = Unit
IsOpen _ = ⊥

-- An item of `_positions` is keyed by its signal, and neither closed nor waiting.
abbrev pub IsItem : String × PositionState → Type 0
IsItem e = (e.0 ≡ e.1.signal_id) × IsOpen e.1.status

pub record IsValid (m : OrderManager) : Type 0 where
  pub unique : IsUnique m.positions
  pub items : All IsItem m.positions
  pub room : length m.positions ≤ m.config.max_positions

pub new_manager-IsValid : (c : OrderManagerConfig) (d : Bool) → IsValid (new_manager c d)
unfolding new_manager
new_manager-IsValid c d = record { unique = tt; items = tt; room = omega arith }

contains-none : (k : String) (d : Dict PositionState) → lookup k d ≡ none → contains k d ≡ false
contains-none k d h = elim (Bool-cases (contains k d)) [
  | inl there ↦ ground (arith, lookup_of_contains k d there)
  | inr gone ↦ gone
]

pub on_fill-IsValid : (f : Fill) (m : OrderManager) → IsValid m → IsValid (on_fill f m).1
unfolding on_fill opened post_init
on_fill-IsValid f m v = elim (Option-cases (lookup f.signal_id m.positions)) [
  | inr (p, e) ↦ rw (e, on_fill) v
  | inl e ↦
      rw (e, on_fill)
        (elim (Bool-cases (leb m.config.max_positions (length m.positions))) [
          | inl full ↦ rw full v
          | inr free ↦ rw free (record {
            unique = insert-IsUnique f.signal_id (opened f) m.positions v.unique;
            items = All-insert IsItem f.signal_id (opened f) m.positions v.items (ground arith);
            room = ground (
              arith,
              length-insert f.signal_id (opened f) m.positions,
              contains-none f.signal_id m.positions e,
            );
          })
        ])
]

-- What `_create_close_action` keeps, however it ends.
pub create_close_action-IsValid :
    (p : PositionState) (reason : String) (price : ℤ) (size : Option ℤ) (now : ℤ) (m : OrderManager)
    → IsValid m
    → IsValid (create_close_action p reason price size now m).1
unfolding create_close_action reduced
create_close_action-IsValid p reason price size now m v =
    elim (Bool-cases (is_partial_close p size)) [
      | inl part ↦ rw part (record {
        unique = modify-IsUnique p.signal_id (reduced reason price size now) m.positions v.unique;
        items =
            All-modify IsItem p.signal_id (reduced reason price size now) m.positions
              (λ e h. (h.0, tt)) v.items;
        room =
            omega (
              arith,
              length-modify p.signal_id (reduced reason price size now) m.positions,
              v.room,
            );
      })
      | inr full ↦ rw full (elim (Bool-cases (contains p.signal_id m.positions)) [
        | inl there ↦ rw there (record {
          unique = erase-IsUnique p.signal_id m.positions v.unique;
          items = All-erase IsItem p.signal_id m.positions v.items;
          room = omega (arith, length-erase-le p.signal_id m.positions, v.room);
        })
        | inr gone ↦ rw gone v
      ])
    ]

after_close-IsValid :
    (rest : OrderManager → Result OrderError (List CloseAction) × OrderManager)
    (r : Result OrderError CloseAction × OrderManager)
    → ((m : OrderManager) → IsValid m → IsValid (rest m).1)
    → IsValid r.1
    → IsValid (after_close rest r).1
after_close-IsValid rest (ok a, m) h v = h m v
after_close-IsValid rest (err x, m) h v = v

tick_loop-IsValid :
    (t : Tick) (now : ℤ) (snapshot : Dict PositionState) (m : OrderManager)
    → IsValid m
    → IsValid (tick_loop t now snapshot m).1
unfolding tick_loop
tick_loop-IsValid t now [] m v = v
tick_loop-IsValid t now (e ∷ rest) m v = elim (Option-cases (tick_reason t e.1)) [
  | inl skip ↦ rw (skip, tick_loop) (tick_loop-IsValid t now rest m v)
  | inr (reason, hit) ↦
      rw (hit, tick_loop)
        (after_close-IsValid (tick_loop t now rest)
          (create_close_action e.1 (reason_value reason) t.current_price none now m)
          (tick_loop-IsValid t now rest)
          (create_close_action-IsValid e.1 (reason_value reason) t.current_price none now m v))
]

pub on_tick-IsValid :
    (t : Tick) (now : ℤ) (m : OrderManager) → IsValid m → IsValid (on_tick t now m).1
unfolding on_tick
on_tick-IsValid t now m v = tick_loop-IsValid t now m.positions m v

pub force_close-IsValid :
    (k reason : String) (price size : Option ℤ) (now : ℤ) (m : OrderManager)
    → IsValid m
    → IsValid (force_close k reason price size now m).1
unfolding force_close
force_close-IsValid k reason price size now m v = elim (Option-cases (lookup k m.positions)) [
  | inl gone ↦ rw (gone, force_close) v
  | inr (p, found) ↦
      rw (found, force_close)
        (elim (Bool-cases (is_active p)) [
          | inl live ↦
              rw live
                (create_close_action-IsValid p reason (or_number price p.entry_price) size now m v)
          | inr idle ↦ rw idle v
        ])
]
