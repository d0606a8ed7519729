-- ===== src/Trades/Exits.antt =====
-- strategy/trade_types.py and process_exit_signal of execution/sim_fill.py. The size of a trade,
-- a float of tokens, counts parts of a token, `parts` of them to one; what is sold is a whole
-- number of tokens. Prices count a smallest unit, stop and activation prices ten-thousandths of
-- it, and rates ten-thousandths; sizes and prices are not negative.
use engine_bot.Shared.{
  ℕ, ◌-◌, ◌*◌, ◌/◌, String, Bool, true, false, not, ◌&&◌, ◌||◌, Option, none, some, List, [], ◌∷◌,
  leb, ltb, if◌then◌else◌,
}
use engine_bot.Shared.Int.{ℤ, pos, ◌+ℤ◌, ◌-ℤ◌, ◌*ℤ◌}

pub data ExitType : Type 0 where
  market_close : ExitType
  partial : ExitType
  trailing_stop_update : ExitType

unfoldable pub is_partial : ExitType → Bool
is_partial market_close = false
is_partial partial = true
is_partial trailing_stop_update = false

unfoldable pub is_update : ExitType → Bool
is_update market_close = false
is_update partial = false
is_update trailing_stop_update = true

pub record ExitSignal : Type 0 where
  pub exit_type : ExitType
  pub size_pct : ℕ
  pub trail_stop_pct : Option ℤ
  pub trail_activation_pct : Option ℤ

abbrev pub is_missing : Option ℤ → Bool
is_missing none = true
is_missing (some v) = false

-- `__post_init__`: none is a `ValueError`.
unfoldable pub post_init : ExitSignal → Option ExitSignal
post_init s =
    if not (ltb 0 s.size_pct && leb s.size_pct 10000)
    then none
    else if is_partial s.exit_type && leb 10000 s.size_pct
    then none
    else if is_update s.exit_type && is_missing s.trail_stop_pct
    then none
    else some s

pub record SimulatedTrade : Type 0 where
  pub wallet : String
  pub mint : String
  pub entry_price : ℕ
  pub size_remaining : ℕ
  pub size_initial : ℕ
  pub realized_pnl : ℤ
  pub is_open : Bool
  pub trail_stop_price : Option ℤ
  pub trail_activation_price : Option ℤ

pub record ExitResult : Type 0 where
  pub trade : SimulatedTrade
  pub amount_sold : ℕ
  pub pnl_realized : ℤ
  pub is_closed : Bool

-- The stop and activation prices after a signal.
unfoldable pub new_stop : Bool → Option ℤ → ℕ → Option ℤ → Option ℤ
new_stop true (some pct) current old = some (pos current *ℤ (pos 10000 -ℤ pct))
new_stop true none current old = old
new_stop false pct current old = old

unfoldable pub new_activation : Bool → Option ℤ → Option ℤ → ℕ → Option ℤ → Option ℤ
new_activation true (some stop) (some pct) current old = some (pos current *ℤ (pos 10000 +ℤ pct))
new_activation true (some stop) none current old = old
new_activation true none pct current old = old
new_activation false stop pct current old = old

-- `int(size * size_pct)` tokens, but at least 1, and the whole tokens of the size where that is
-- more than there is.
unfoldable pub amount_to_sell : ℕ → ℕ → ℕ → ℕ
amount_to_sell parts size size_pct =
    let amount = size * size_pct / (10000 * parts) in
    let least = if ltb amount 1 then 1 else amount in
    if ltb size (least * parts) then size / parts else least

-- Less than one token is dust.
unfoldable pub is_dust_remaining : ℕ → ℕ → Bool
is_dust_remaining parts size = ltb size parts

unfoldable pub process_exit_signal : ℕ → SimulatedTrade → ExitSignal → ℕ → ExitResult
process_exit_signal parts trade s current_price =
    let amount = amount_to_sell parts trade.size_remaining s.size_pct in
    let pnl = (pos current_price -ℤ pos trade.entry_price) *ℤ pos amount in
    let size = trade.size_remaining - amount * parts in
    let closed = is_dust_remaining parts size || leb 10000 s.size_pct in
    let updates = is_update s.exit_type in
    record {
      trade = record {
        wallet = trade.wallet;
        mint = trade.mint;
        entry_price = trade.entry_price;
        size_remaining = if closed then 0 else size;
        size_initial = trade.size_initial;
        realized_pnl = trade.realized_pnl +ℤ pnl;
        is_open = not closed;
        trail_stop_price = new_stop updates s.trail_stop_pct current_price trade.trail_stop_price;
        trail_activation_price =
            new_activation updates s.trail_stop_pct s.trail_activation_pct current_price
              trade.trail_activation_price;
      };
      amount_sold = amount;
      pnl_realized = pnl;
      is_closed = closed;
    }

-- A run of signals with their prices, and the results in their order.
pub record Priced : Type 0 where
  pub signal : ExitSignal
  pub price : ℕ

unfoldable pub process_all : ℕ → SimulatedTrade → List Priced → List ExitResult
process_all parts trade [] = []
process_all parts trade (p ∷ ps) =
    let r = process_exit_signal parts trade p.signal p.price in r ∷ process_all parts r.trade ps
