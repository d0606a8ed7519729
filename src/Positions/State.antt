-- ===== src/Positions/State.antt =====
-- execution/position_state.py: a position with its time to live and its prices to close at. A
-- price counts a smallest unit, and a take-profit or stop-loss price ten-thousandths of it, as
-- the rates do; a time is whole seconds. The current time is an argument.
use engine_bot.Shared.{String, str_eq, Bool, Option, none, some, if◌then◌else◌}
use engine_bot.Shared.Int.{ℤ, pos, ◌+ℤ◌, ◌-ℤ◌, ◌*ℤ◌, leb_ℤ, max_ℤ}
use engine_bot.Shared.Options.{◌>>=◌, get_or}
use engine_bot.Shared.Text.{upper}
use engine_bot.Orders.Position.{IsoFormat}

pub record Position : Type 0 where
  pub signal_id : String
  pub mint : String
  pub entry_price : ℤ
  pub size_usd : ℤ
  pub filled_usd : ℤ
  pub entry_ts : ℤ
  pub ttl_expires_at : ℤ
  pub tp_price : ℤ
  pub sl_price : ℤ
  pub status : String
  pub close_reason : Option String
  pub close_price : Option ℤ
  pub close_ts : Option ℤ
  pub mode : String
  pub wallet : String

-- The dictionary; an entry that `from_dict` indexes is none where a `KeyError` would rise.
pub record PositionDict : Type 0 where
  pub signal_id : Option String
  pub mint : Option String
  pub entry_price : Option ℤ
  pub size_usd : Option ℤ
  pub filled_usd : Option ℤ
  pub entry_ts : Option String
  pub ttl_expires_at : Option String
  pub tp_price : Option ℤ
  pub sl_price : Option ℤ
  pub status : Option String
  pub close_reason : Option String
  pub close_price : Option ℤ
  pub close_ts : Option String
  pub mode : Option String
  pub wallet : Option String

module _ (iso : IsoFormat) where
  open iso use {isoformat, fromisoformat}

  abbrev pub printed : Option ℤ → Option String
  printed none = none
  printed (some t) = some (isoformat t)

  unfoldable pub to_dict : Position → PositionDict
  to_dict p = record {
    signal_id = some p.signal_id;
    mint = some p.mint;
    entry_price = some p.entry_price;
    size_usd = some p.size_usd;
    filled_usd = some p.filled_usd;
    entry_ts = some (isoformat p.entry_ts);
    ttl_expires_at = some (isoformat p.ttl_expires_at);
    tp_price = some p.tp_price;
    sl_price = some p.sl_price;
    status = some p.status;
    close_reason = p.close_reason;
    close_price = p.close_price;
    close_ts = printed p.close_ts;
    mode = some p.mode;
    wallet = some p.wallet;
  }

  -- A missing or empty text stands for no time; the outer `none` is a `ValueError`.
  unfoldable pub read_close_ts : Option String → Option (Option ℤ)
  read_close_ts none = some none
  read_close_ts (some text) =
      if str_eq text "" then some none else (do t ← fromisoformat text; some (some t))

  -- `none` is a `KeyError` or a `ValueError`.
  unfoldable pub from_dict : PositionDict → Option Position
  from_dict d = do
    signal_id ← d.signal_id
    mint ← d.mint
    entry_price ← d.entry_price
    size_usd ← d.size_usd
    filled_usd ← d.filled_usd
    entered ← d.entry_ts
    entry_ts ← fromisoformat entered
    expires ← d.ttl_expires_at
    ttl_expires_at ← fromisoformat expires
    tp_price ← d.tp_price
    sl_price ← d.sl_price
    close_ts ← read_close_ts d.close_ts
    some (record {
      signal_id = signal_id;
      mint = mint;
      entry_price = entry_price;
      size_usd = size_usd;
      filled_usd = filled_usd;
      entry_ts = entry_ts;
      ttl_expires_at = ttl_expires_at;
      tp_price = tp_price;
      sl_price = sl_price;
      status = get_or d.status "ACTIVE";
      close_reason = d.close_reason;
      close_price = d.close_price;
      close_ts = close_ts;
      mode = get_or d.mode "U";
      wallet = get_or d.wallet "";
    })

unfoldable pub is_expired : Position → ℤ → Bool
is_expired p now = leb_ℤ p.ttl_expires_at now

unfoldable pub is_tp_hit : Position → ℤ → String → Bool
is_tp_hit p current_price side =
    if str_eq (upper side) "BUY"
    then leb_ℤ p.tp_price (current_price *ℤ pos 10000)
    else leb_ℤ (current_price *ℤ pos 10000) p.tp_price

unfoldable pub is_sl_hit : Position → ℤ → String → Bool
is_sl_hit p current_price side =
    if str_eq (upper side) "BUY"
    then leb_ℤ (current_price *ℤ pos 10000) p.sl_price
    else leb_ℤ p.sl_price (current_price *ℤ pos 10000)

unfoldable pub remaining_ttl_sec : Position → ℤ → ℤ
remaining_ttl_sec p now = max_ℤ (pos 0) (p.ttl_expires_at -ℤ now)

unfoldable pub create_position_from_signal :
    String → String → ℤ → ℤ → ℤ → ℤ → ℤ → String → String → ℤ → Position
create_position_from_signal signal_id mint entry_price size_usd ttl_sec tp_pct sl_pct mode wallet
      entry_ts =
    record {
      signal_id = signal_id;
      mint = mint;
      entry_price = entry_price;
      size_usd = size_usd;
      filled_usd = size_usd;
      entry_ts = entry_ts;
      ttl_expires_at = entry_ts +ℤ ttl_sec;
      tp_price = entry_price *ℤ (pos 10000 +ℤ tp_pct);
      sl_price = entry_price *ℤ (pos 10000 -ℤ sl_pct);
      status = "ACTIVE";
      close_reason = none;
      close_price = none;
      close_ts = none;
      mode = mode;
      wallet = wallet;
    }
