-- ===== src/Orders/Reports.antt =====
-- execution/order_manager.py: the methods of `OrderManager` that change nothing.
use engine_bot.Shared.{
  ℕ, ◌-◌, ◌==◌, String, Bool, true, false, Option, none, some, List, [], ◌∷◌, length, keep, suc,
  if◌then◌else◌,
}
use engine_bot.Shared.Int.{ℤ}
use engine_bot.Shared.Dict.{Dict, lookup, insert, values}
use engine_bot.Orders.Position.{PositionState, is_active, close, partial_close, CloseAction}
use engine_bot.Orders.Manager.{HistoryEntry, OrderManager}

-- The executor is a parameter: it answers, or raises (`none`).
unfoldable pub execute_close :
    Option (String → String → ℤ → ℤ → Option Bool) → CloseAction → OrderManager → Bool
execute_close executor a m = if m.dry_run then true else elim executor [
  | none ↦ false
  | some run ↦ elim (run a.signal_id a.reason a.price a.size_usd) [ none ↦ false | some b ↦ b ]
]

unfoldable pub get_position : String → OrderManager → Option PositionState
get_position signal_id m = lookup signal_id m.positions

unfoldable pub get_active_positions : OrderManager → List PositionState
get_active_positions m = keep is_active (values m.positions)

abbrev pub drop {ℓ} : {A : Type ℓ} → ℕ → List A → List A
drop n [] = []
drop ℕ.zero (x ∷ xs) = x ∷ xs
drop (suc n) (x ∷ xs) = drop n xs

-- `self._history[-limit:]`: with a limit of zero the whole list.
unfoldable pub get_position_history : ℕ → OrderManager → List HistoryEntry
get_position_history limit m =
    if limit == 0 then m.history else drop (length m.history - limit) m.history

abbrev pub is_close : HistoryEntry → Bool
is_close h = elim h.action [ close ↦ true | partial_close ↦ false ]

abbrev pub or_zero : Option ℕ → ℕ
or_zero none = 0
or_zero (some n) = n

-- `reasons[reason] = reasons.get(reason, 0) + 1` over the closed entries.
unfoldable pub count_reasons : List HistoryEntry → Dict ℕ → Dict ℕ
count_reasons [] reasons = reasons
count_reasons (h ∷ hs) reasons =
    count_reasons hs (insert h.reason (suc (or_zero (lookup h.reason reasons))) reasons)

pub record Stats : Type 0 where
  pub active_positions : ℕ
  pub total_closed : ℕ
  pub close_reasons : Dict ℕ
  pub max_positions : ℕ

unfoldable pub get_stats : OrderManager → Stats
get_stats m =
    let closed_entries = keep is_close m.history in
    record {
      active_positions = length (get_active_positions m);
      total_closed = length closed_entries;
      close_reasons = count_reasons closed_entries [];
      max_positions = m.config.max_positions;
    }
