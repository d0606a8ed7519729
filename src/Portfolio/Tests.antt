-- ===== src/Portfolio/Tests.antt =====
-- The portfolio at concrete inputs.
use engine_bot.Shared.{◌≡◌, ◌∙◌, sym, ap, refl, true, false, none, some, List, [], ◌∷◌, arith}
use engine_bot.Shared.Int.{pos, negsuc, ◌+ℤ◌, ◌-ℤ◌, ◌*ℤ◌}
use engine_bot.Shared.Dict.{lookup, contains, insert, erase}
use engine_bot.Portfolio.State.{
  Limit, StateUpdateParams, PortfolioState, FillError, initial, to_dict,
}
use engine_bot.Portfolio.Update.{FillEvent, apply_fill_event}
use mathlib.Core.Option.{some-injective}
use engine_bot.Portfolio.Update
use engine_bot.Portfolio.Manager.{PortfolioManager, new_manager, on_fill}
use engine_bot.Portfolio.Cooldown.{Call, fill, new_day, run, IsStuck, cooldown_never_ends}
use engine_bot.Portfolio.Assets.{fill_all, assets, BuysAreNew, IsBooked, fill_all-assets}
use engine_bot.Portfolio.Exposure.{IsExposed, AllFaithful, fill_all-IsExposed}

abbrev limits : StateUpdateParams
limits = record {
  max_daily_loss_usd = pos 100;
  cooldown_duration_sec = pos 3600;
  max_positions = 3;
  max_token_concentration = record { numerator = 1; denominator = 1 };
  max_wallet_concentration = record { numerator = 1; denominator = 1 };
}

abbrev buy : FillEvent
buy = record {
  signal_id = "one";
  side = "BUY";
  token_mint = "sol";
  wallet_address = "w";
  size_usd = pos 200;
  price = pos 10;
  pnl_usd = pos 0;
  ts = pos 5;
}

abbrev sell : FillEvent
sell = record buy { side = "SELL"; pnl_usd = negsuc 149; ts = pos 9 }

abbrev start : PortfolioState
start = initial (pos 1000) (pos 0)

start-IsBooked : IsBooked limits start
unfolding initial
start-IsBooked = record { unique = tt; counted = refl; room = omega arith }

start-IsExposed : IsExposed start
unfolding initial lookup
start-IsExposed = record { unique = tt; nonneg = tt; tokens = λ t. refl; wallets = λ t. refl }

trade_new : BuysAreNew (buy ∷ sell ∷ []) limits start
unfolding contains initial
trade_new = (λ is. refl, (λ is. cc, tt))

fill_all-assets_example :
    (assets (fill_all (buy ∷ sell ∷ []) limits start)
        -ℤ (fill_all (buy ∷ sell ∷ []) limits start).daily_pnl_usd
      ≡ assets start -ℤ start.daily_pnl_usd)
    × IsBooked limits (fill_all (buy ∷ sell ∷ []) limits start)
fill_all-assets_example = fill_all-assets (buy ∷ sell ∷ []) limits start start-IsBooked trade_new

abbrev bought : PortfolioState
bought = (apply_fill_event buy limits start).0

buy_found : lookup "one" bought.open_positions ≡ some (Update.new_position buy)
unfolding lookup apply_fill_event Update.transition_on_entry
    engine_bot.Portfolio.State.can_open_position initial
    engine_bot.Portfolio.State.can_increase_exposure ◌+ℤ◌
    engine_bot.Portfolio.State.get_total_exposure engine_bot.Portfolio.State.exceeds ◌*ℤ◌
    engine_bot.Portfolio.State.get_token_exposure engine_bot.Portfolio.State.get_wallet_exposure
    Update.entered insert
buy_found = refl

trade_faithful : AllFaithful (buy ∷ sell ∷ []) limits start
unfolding contains initial Update.new_position
trade_faithful = (
  (λ is. (refl, omega arith), λ p is found. cc),
  (
    (
      λ is. cc,
      λ p is found.
          (let same = some-injective _ _ (sym buy_found ∙ found) in
            (sym (ap (λ q. q.token_mint) same), sym (ap (λ q. q.wallet_address) same))),
    ),
    tt,
  ),
)

fill_all-IsExposed_example : IsExposed (fill_all (buy ∷ sell ∷ []) limits start)
fill_all-IsExposed_example =
    fill_all-IsExposed (buy ∷ sell ∷ []) limits start start-IsExposed trade_faithful

rebuy_accepted : (apply_fill_event buy limits bought).1 ≡ none
unfolding apply_fill_event Update.transition_on_entry engine_bot.Portfolio.State.can_open_position
    initial engine_bot.Portfolio.State.can_increase_exposure ◌+ℤ◌
    engine_bot.Portfolio.State.get_total_exposure engine_bot.Portfolio.State.exceeds ◌*ℤ◌
    engine_bot.Portfolio.State.get_token_exposure lookup
    engine_bot.Portfolio.State.get_wallet_exposure Update.entered insert ◌-ℤ◌ Update.raised
rebuy_accepted = refl

-- The loss of 150 starts a cooldown, and nothing is open.
abbrev cooling : PortfolioManager
cooling = record {
  params = limits;
  has_checkpoint_path = true;
  checkpoint = none;
  write_fails = false;
  state = record start { cooldown_active = true; cooldown_until_ts = some (pos 3609) };
}

cooling-IsStuck : IsStuck cooling.state
unfolding initial
cooling-IsStuck = record { cooling = refl; nothing_open = refl }

abbrev later : List Call
later = fill buy ∷ new_day (pos 90000) ∷ fill (record buy { ts = pos 90001 }) ∷ []

cooldown_never_ends_example :
    IsStuck (run later cooling).state
    × ((e : FillEvent)
        → (reason : FillError) × (on_fill e (run later cooling) ≡ (some reason, run later cooling)))
cooldown_never_ends_example = cooldown_never_ends later cooling cooling-IsStuck

abbrev ready : PortfolioManager
ready = record {
  params = limits;
  has_checkpoint_path = true;
  checkpoint = none;
  write_fails = false;
  state = start;
}

-- The fill and the loss make the manager reach the state above by itself.
loss_starts_cooldown : ((on_fill sell (on_fill buy ready).1).1.state.cooldown_active ≡ true)
unfolding on_fill apply_fill_event Update.transition_on_exit lookup Update.transition_on_entry
    engine_bot.Portfolio.State.can_open_position initial
    engine_bot.Portfolio.State.can_increase_exposure ◌+ℤ◌
    engine_bot.Portfolio.State.get_total_exposure engine_bot.Portfolio.State.exceeds ◌*ℤ◌
    engine_bot.Portfolio.State.get_token_exposure engine_bot.Portfolio.State.get_wallet_exposure
    engine_bot.Portfolio.Manager.save_checkpoint Update.update_cooldown
    engine_bot.Portfolio.State.check_daily_loss_limit to_dict Update.cooldown_is_over
    Update.drawdown Update.entered Update.exited Update.lowered Update.new_position Update.raised
    erase insert ◌-ℤ◌
loss_starts_cooldown = refl

loss_leaves_nothing : (on_fill sell (on_fill buy ready).1).1.state.open_positions ≡ []
unfolding on_fill apply_fill_event Update.transition_on_exit lookup Update.transition_on_entry
    engine_bot.Portfolio.State.can_open_position initial
    engine_bot.Portfolio.State.can_increase_exposure ◌+ℤ◌
    engine_bot.Portfolio.State.get_total_exposure engine_bot.Portfolio.State.exceeds ◌*ℤ◌
    engine_bot.Portfolio.State.get_token_exposure engine_bot.Portfolio.State.get_wallet_exposure
    engine_bot.Portfolio.Manager.save_checkpoint Update.update_cooldown
    engine_bot.Portfolio.State.check_daily_loss_limit to_dict Update.cooldown_is_over
    Update.drawdown Update.entered Update.exited Update.lowered Update.new_position Update.raised
    erase insert ◌-ℤ◌
loss_leaves_nothing = refl

buy_accepted : (on_fill buy ready).0 ≡ none
unfolding on_fill apply_fill_event Update.transition_on_entry
    engine_bot.Portfolio.State.can_open_position initial
    engine_bot.Portfolio.State.can_increase_exposure ◌+ℤ◌
    engine_bot.Portfolio.State.get_total_exposure engine_bot.Portfolio.State.exceeds ◌*ℤ◌
    engine_bot.Portfolio.State.get_token_exposure lookup
    engine_bot.Portfolio.State.get_wallet_exposure
buy_accepted = refl
