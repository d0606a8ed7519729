-- ===== src/KillSwitch/Shutdown.antt =====
-- ops/kill_switch.py: the check before each cycle and the emergency close, over the order
-- manager.
use engine_bot.Shared.{
  ℕ, String, str_eq, Bool, true, false, Option, none, some, List, [], ◌∷◌, length, keep,
  if◌then◌else◌,
}
use engine_bot.Shared.Int.{ℤ, pos}
use engine_bot.Shared.Dict.{Dict}
use engine_bot.Shared.Results.{Result, ok, err}
use engine_bot.Orders.Position.{PositionState, status_value, CloseAction, OrderError}
use engine_bot.Orders.Manager.{OrderManager, force_close}
use engine_bot.KillSwitch.Panic.{
  World, is_panic_active, get_panic_reason, or_text, require_no_panic,
}

pub record KillSwitchConfig : Type 0 where
  pub enabled : Bool
  pub flag_path : String
  pub on_panic : String
  pub cache_ttl_seconds : ℤ

abbrev pub default_config : KillSwitchConfig
default_config = record {
  enabled = true;
  flag_path = "/tmp/strategy_panic.flag";
  on_panic = "close_all_market";
  cache_ttl_seconds = pos 0;
}

abbrev pub or_default {ℓ} : {A : Type ℓ} → Option A → A → A
or_default none d = d
or_default (some a) d = a

-- The entries of the `panic` table that are given.
pub record PanicTable : Type 0 where
  pub enabled : Option Bool
  pub flag_path : Option String
  pub on_panic : Option String
  pub cache_ttl_seconds : Option ℤ

unfoldable pub load_kill_switch_config : PanicTable → KillSwitchConfig
load_kill_switch_config t = record {
  enabled = or_default t.enabled true;
  flag_path = or_default t.flag_path "/tmp/strategy_panic.flag";
  on_panic = or_default t.on_panic "close_all_market";
  cache_ttl_seconds = or_default t.cache_ttl_seconds (pos 0);
}

-- The error is `PanicShutdown`.
unfoldable pub check_panic : Option KillSwitchConfig → ℤ → World → Result String (Unit {0}) × World
check_panic config now w =
    let c = or_default config default_config in
    if c.enabled then require_no_panic c.flag_path now w else (ok tt, w)

-- An entry of the list that `force_close_all_positions` gives.
pub record CloseResult : Type 0 where
  pub position_id : String
  pub success : Bool

-- `pos.status.value == "open"`
unfoldable pub counts_as_open : String × PositionState → Bool
counts_as_open e = str_eq (status_value e.1.status) "open"

-- `order_manager.force_close(…)` and `action.success`: the action has no such field, so that an
-- action, as well as an exception, ends in the `except` branch; without one the close has failed.
unfoldable pub close_result : String → Result OrderError (Option CloseAction) → CloseResult
close_result pos_id (ok none) = record { position_id = pos_id; success = false }
close_result pos_id (ok (some a)) = record { position_id = pos_id; success = false }
close_result pos_id (err e) = record { position_id = pos_id; success = false }

unfoldable pub close_each :
    String → ℤ → Dict PositionState → OrderManager → List CloseResult × OrderManager
close_each reason now [] m = ([], m)
close_each reason now (e ∷ rest) m =
    let (r, m') = force_close e.0 reason none none now m in
    let (rs, m'') = close_each reason now rest m' in (close_result e.0 r ∷ rs, m'')

unfoldable pub force_close_all_positions :
    String → ℤ → Option OrderManager → List CloseResult × Option OrderManager
force_close_all_positions reason now none = ([], none)
force_close_all_positions reason now (some m) =
    let (rs, m') = close_each reason now (keep counts_as_open m.positions) m in (rs, some m')

unfoldable pub cancel_all_pending_orders : Option OrderManager → ℕ
cancel_all_pending_orders m = 0

pub record Status : Type 0 where
  pub enabled : Bool
  pub active : Bool
  pub reason : Option String
  pub flag_path : String
  pub on_panic : String

-- `KillSwitch.get_status`
unfoldable pub get_status : KillSwitchConfig → ℤ → World → Status × World
get_status c now w =
    let (active, w') = is_panic_active c.flag_path (pos 0) now w in
    (
      record {
        enabled = c.enabled;
        active = active;
        reason = if active then get_panic_reason c.flag_path w' else none;
        flag_path = c.flag_path;
        on_panic = c.on_panic;
      },
      w',
    )

pub record ShutdownResult : Type 0 where
  pub panic_active : Bool
  pub reason : String
  pub positions_closed : ℕ
  pub orders_canceled : ℕ
  pub errors : List String

-- `KillSwitch.emergency_shutdown`
unfoldable pub emergency_shutdown :
    KillSwitchConfig → ℤ → Option OrderManager → World → ShutdownResult × Option OrderManager
emergency_shutdown c now m w =
    let (rs, m') = force_close_all_positions "PANIC: Emergency shutdown" now m in
    (
      record {
        panic_active = true;
        reason = or_text (get_panic_reason c.flag_path w) "Unknown";
        positions_closed = length (keep (λ r. r.success) rs);
        orders_canceled = cancel_all_pending_orders m;
        errors = [];
      },
      m',
    )
