-- ===== src/Orders/Manager.antt =====
-- execution/order_manager.py: the methods of `OrderManager`. A method gives its result, or the
-- exception that it raises, beside the manager that it leaves. `now` is `datetime.utcnow()`.
use engine_bot.Shared.{
  String, str_eq, Bool, false, not, ◌||◌, Option, none, some, List, [], ◌∷◌, ◌++◌, length, leb,
  if◌then◌else◌,
}
use engine_bot.Shared.Int.{ℤ, pos, ◌+ℤ◌, ◌-ℤ◌, ltb_ℤ, is_zero}
use engine_bot.Shared.Dict.{Dict, lookup, contains, insert, erase, modify}
use engine_bot.Shared.Results.{Result, ok, err}
use engine_bot.Orders.Position.{
  active, partial, CloseReason, ttl_expired, tp_hit, sl_hit, reason_value, PositionState, post_init,
  is_active, check_ttl, check_tp, check_sl, ActionType, close, partial_close, CloseAction,
  make_action, OrderError, max_positions_reached, key_error, OrderManagerConfig,
}

-- An entry of `_history`.
pub record HistoryEntry : Type 0 where
  pub timestamp : ℤ
  pub signal_id : String
  pub action : ActionType
  pub reason : String
  pub price : ℤ
  pub size_usd : ℤ

pub record OrderManager : Type 0 where
  pub config : OrderManagerConfig
  pub dry_run : Bool
  pub positions : Dict PositionState
  pub history : List HistoryEntry

unfoldable pub new_manager : OrderManagerConfig → Bool → OrderManager
new_manager config dry_run = record {
  config = config;
  dry_run = dry_run;
  positions = [];
  history = [];
}

-- The arguments of `on_fill`.
pub record Fill : Type 0 where
  pub signal_id : String
  pub mint : String
  pub entry_price : ℤ
  pub size_usd : ℤ
  pub entry_ts : ℤ
  pub ttl_seconds : ℤ
  pub tp_price : Option ℤ
  pub sl_price : Option ℤ

-- The position that a fill opens.
unfoldable pub opened : Fill → PositionState
opened f = post_init (record {
  signal_id = f.signal_id;
  mint = f.mint;
  entry_price = f.entry_price;
  size_usd = f.size_usd;
  entry_ts = f.entry_ts;
  ttl_expires_at = f.entry_ts +ℤ f.ttl_seconds;
  tp_price = f.tp_price;
  sl_price = f.sl_price;
  status = active;
  close_reason = none;
  close_price = none;
  close_ts = none;
  remaining_size_usd = f.size_usd;
})

unfoldable pub on_fill : Fill → OrderManager → Result OrderError PositionState × OrderManager
on_fill f m = elim (lookup f.signal_id m.positions) [
  | some existing ↦ (ok existing, m)
  | none ↦
      if leb m.config.max_positions (length m.positions)
      then (err max_positions_reached, m)
      else (ok (opened f), record m { positions = insert f.signal_id (opened f) m.positions })
]

-- `a or b` of a number that may be missing: zero counts as missing.
unfoldable pub or_number : Option ℤ → ℤ → ℤ
or_number none b = b
or_number (some a) b = if is_zero a then b else a

unfoldable pub is_partial_close : PositionState → Option ℤ → Bool
is_partial_close p none = false
is_partial_close p (some size) = ltb_ℤ size p.remaining_size_usd

-- What a partial close writes to the position.
unfoldable pub reduced : String → ℤ → Option ℤ → ℤ → PositionState → PositionState
reduced reason price size_usd now p = record p {
  status = partial;
  remaining_size_usd = p.remaining_size_usd -ℤ or_number size_usd (pos 0);
  close_reason = some reason;
  close_price = some price;
  close_ts = some now;
}

unfoldable pub history_entry : PositionState → ActionType → String → ℤ → Option ℤ → ℤ → HistoryEntry
history_entry p action reason price size_usd now = record {
  timestamp = now;
  signal_id = p.signal_id;
  action = action;
  reason = reason;
  price = price;
  size_usd = or_number size_usd p.size_usd;
}

-- `_create_close_action` on a position of the manager. A full close takes it out of the
-- dictionary; `del` raises `KeyError` where its signal is no key.
unfoldable pub create_close_action :
    PositionState
    → String
    → ℤ
    → Option ℤ
    → ℤ
    → OrderManager
    → Result OrderError CloseAction × OrderManager
create_close_action p reason price size_usd now m =
    if is_partial_close p size_usd
    then (
      ok (make_action p.signal_id partial_close reason price size_usd),
      record m {
        positions = modify p.signal_id (reduced reason price size_usd now) m.positions;
        history = m.history ++ history_entry p partial_close reason price size_usd now ∷ [];
      },
    )
    else if contains p.signal_id m.positions
    then (
      ok (make_action p.signal_id close reason price size_usd),
      record m {
        positions = erase p.signal_id m.positions;
        history = m.history ++ history_entry p close reason price size_usd now ∷ [];
      },
    )
    else (err key_error, m)

-- The tick that `on_tick` is given.
pub record Tick : Type 0 where
  pub mint : String
  pub current_price : ℤ
  pub current_ts : ℤ
  pub side : String

-- The tests in the body of the loop of `on_tick`: why the position is to be closed, if it is.
unfoldable pub tick_reason : Tick → PositionState → Option CloseReason
tick_reason t p =
    if not (str_eq p.mint t.mint) || not (is_active p)
    then none
    else if check_ttl p t.current_ts
    then some ttl_expired
    else if check_tp p t.current_price t.side
    then some tp_hit
    else if check_sl p t.current_price t.side
    then some sl_hit
    else none

abbrev pub prepend :
    CloseAction → Result OrderError (List CloseAction) → Result OrderError (List CloseAction)
prepend a (ok actions) = ok (a ∷ actions)
prepend a (err e) = err e

-- The rest of the loop goes on from the manager that a close leaves; an exception ends it.
abbrev pub after_close :
    (OrderManager → Result OrderError (List CloseAction) × OrderManager)
    → Result OrderError CloseAction × OrderManager
    → Result OrderError (List CloseAction) × OrderManager
after_close rest (err x, m) = (err x, m)
after_close rest (ok a, m) = let (rs, m') = rest m in (prepend a rs, m')

-- The loop over `list(self._positions.items())`.
unfoldable pub tick_loop :
    Tick
    → ℤ
    → Dict PositionState
    → OrderManager
    → Result OrderError (List CloseAction) × OrderManager
tick_loop t now [] m = (ok [], m)
tick_loop t now (e ∷ rest) m = elim (tick_reason t e.1) [
  | none ↦ tick_loop t now rest m
  | some reason ↦
      after_close (tick_loop t now rest)
        (create_close_action e.1 (reason_value reason) t.current_price none now m)
]

unfoldable pub on_tick :
    Tick → ℤ → OrderManager → Result OrderError (List CloseAction) × OrderManager
on_tick t now m = tick_loop t now m.positions m

abbrev pub as_some : Result OrderError CloseAction → Result OrderError (Option CloseAction)
as_some (ok a) = ok (some a)
as_some (err e) = err e

unfoldable pub force_close :
    String
    → String
    → Option ℤ
    → Option ℤ
    → ℤ
    → OrderManager
    → Result OrderError (Option CloseAction) × OrderManager
force_close signal_id reason price size_usd now m = elim (lookup signal_id m.positions) [
  | none ↦ (ok none, m)
  | some p ↦
      if not (is_active p)
      then (ok none, m)
      else (let (r, m') =
            create_close_action p reason (or_number price p.entry_price) size_usd now m in
          (as_some r, m'))
]
