-- ===== src/Orders/Tests.antt =====
-- The order manager at concrete inputs.
use engine_bot.Shared.{
  ℕ, ◌≡◌, ◌≢◌, ◌≤◌, ◌<◌, refl, arith, String, str_eq, Bool, true, false, Option, none, some, List,
  [], ◌∷◌, ◌++◌, length, keep, if◌then◌else◌,
}
use mathlib.Core.Path.{subst}
use engine_bot.Shared.Int.{ℤ, pos, negsuc, ◌-ℤ◌, ltb_ℤ, is_zero}
use engine_bot.Shared.Dict.{lookup, insert, modify}
use engine_bot.Shared.Results.{ok}
use engine_bot.Orders.Position.{
  active, partial, PositionState, is_active, close, partial_close, make_action,
  max_positions_reached, OrderManagerConfig, IsoFormat, IsPrintable, to_dict, from_dict, post_init,
  check_tp, check_sl,
}
use engine_bot.Orders.Manager.{
  OrderManager, Fill, Tick, new_manager, opened, on_fill, on_tick, force_close, is_partial_close,
  or_number, reduced, create_close_action, tick_reason,
}
use engine_bot.Orders.Invariant.{IsValid}
use engine_bot.Orders.Steps.{Reach, start, next, fill, forced, Reach-IsValid}
use engine_bot.Orders.Ticks.{tick_actions, survivors, tick_entries}
use engine_bot.Orders.Due.{IsDue, on_tick-IsDue}
use engine_bot.Orders.Closing.{partial_is_stuck}
use engine_bot.Orders.Records.{from_dict-to_dict}

abbrev config : OrderManagerConfig
config = record {
  check_interval_seconds = 1;
  default_ttl_seconds = 60;
  enable_partial_closes = true;
  max_positions = 2;
}

abbrev fill_one : Fill
fill_one = record {
  signal_id = "one";
  mint = "sol";
  entry_price = pos 100;
  size_usd = pos 50;
  entry_ts = pos 0;
  ttl_seconds = pos 60;
  tp_price = some (pos 120);
  sl_price = some (pos 90);
}

abbrev tick_high : Tick
tick_high = record { mint = "sol"; current_price = pos 125; current_ts = pos 10; side = "BUY" }

abbrev empty_manager : OrderManager
empty_manager = new_manager config true

abbrev one_open : OrderManager
one_open = (on_fill fill_one empty_manager).1

abbrev one_partial : OrderManager
one_partial = (force_close "one" "manual_close" none (some (pos 20)) (pos 5) one_open).1

abbrev partial_position : PositionState
partial_position = reduced "manual_close" (pos 100) (some (pos 20)) (pos 5) (opened fill_one)

one_open-Reach : Reach config true one_open
one_open-Reach = next start (fill fill_one)

one_partial-Reach : Reach config true one_partial
one_partial-Reach = next one_open-Reach (forced "one" "manual_close" none (some (pos 20)) (pos 5))

one_open-IsValid : IsValid one_open
one_open-IsValid = Reach-IsValid one_open-Reach

one_partial-IsValid : IsValid one_partial
one_partial-IsValid = Reach-IsValid one_partial-Reach

tick_closes :
    (on_tick tick_high (pos 10) one_open).0
    ≡ ok (make_action "one" close "tp_hit" (pos 125) none ∷ [])
unfolding on_tick on_fill opened post_init tick_reason is_active new_manager check_tp
    create_close_action engine_bot.Orders.Manager.tick_loop lookup insert
    engine_bot.Orders.Position.check_ttl engine_bot.Shared.Int.◌+ℤ◌ is_partial_close
    engine_bot.Shared.Dict.contains engine_bot.Orders.Position.reason_value
tick_closes = refl

Reach-IsValid_example : IsValid one_partial
Reach-IsValid_example = Reach-IsValid one_partial-Reach

on_tick-IsDue_example :
    (on_tick tick_high (pos 10) one_open ≡ (
      ok (tick_actions tick_high one_open.positions),
      record one_open {
        positions = survivors tick_high one_open.positions;
        history = one_open.history ++ tick_entries tick_high (pos 10) one_open.positions;
      },
    ))
    × ((p : PositionState) → IsDue tick_high p (tick_reason tick_high p))
on_tick-IsDue_example = on_tick-IsDue tick_high (pos 10) one_open one_open-IsValid

fill_opens : (on_fill fill_one empty_manager).0 ≡ ok (opened fill_one)
unfolding on_fill new_manager lookup
fill_opens = refl

one_found : lookup "one" one_open.positions ≡ some (opened fill_one)
unfolding on_fill new_manager lookup insert
one_found = refl

one_active : is_active (opened fill_one) ≡ true
unfolding is_active opened post_init
one_active = refl

all_of_it : is_partial_close (opened fill_one) none ≡ false
unfolding is_partial_close
all_of_it = refl

some_of_it : ltb_ℤ (pos 20) (opened fill_one).remaining_size_usd ≡ true
unfolding opened post_init
some_of_it = refl

partial_found : lookup "one" one_partial.positions ≡ some partial_position
unfolding force_close on_fill new_manager lookup insert create_close_action is_active opened
    post_init is_partial_close modify reduced or_number
partial_found = refl

partial_is_partial : partial_position.status ≡ partial
unfolding reduced
partial_is_partial = refl

partial_is_stuck_example :
    ((t : Tick) (now : ℤ)
      → lookup "one" (on_tick t now one_partial).1.positions ≡ some partial_position)
    × ((reason : String) (price size : Option ℤ) (now : ℤ)
        → force_close "one" reason price size now one_partial ≡ (ok none, one_partial))
partial_is_stuck_example =
    partial_is_stuck "one" one_partial partial_position one_partial-IsValid partial_found
      partial_is_partial

-- A clock that knows one time.
abbrev one_time : IsoFormat
one_time = record {
  isoformat = λ t. "1970-01-01T00:00:05";
  fromisoformat = λ text. if str_eq text "1970-01-01T00:00:05" then some (pos 5) else none;
}

abbrev stored_position : PositionState
stored_position = record partial_position {
  entry_ts = pos 5;
  ttl_expires_at = pos 5;
  remaining_size_usd = pos 0;
}

five_prints : IsPrintable one_time (pos 5)
five_prints = record { reads_back = refl; not_empty = refl }

five_closes : (t : ℤ) → stored_position.close_ts ≡ some t → IsPrintable one_time t
unfolding reduced
five_closes t e =
    let same : pos 5 ≡ t = ground (arith, e) in subst (IsPrintable one_time) same five_prints

from_dict-to_dict_example :
    from_dict one_time (to_dict one_time stored_position)
    ≡ some (record stored_position {
      remaining_size_usd =
          if is_zero stored_position.remaining_size_usd
          then stored_position.size_usd
          else stored_position.remaining_size_usd;
    })
from_dict-to_dict_example =
    from_dict-to_dict one_time stored_position five_prints five_prints five_closes
