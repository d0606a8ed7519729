-- ===== src/Orders/Position.antt =====
-- execution/order_state_machine.py: a position, its tests against a tick, and its dictionary
-- form. Prices, sizes and times are whole numbers of a smallest unit.
use engine_bot.Shared.{
  ℕ, ◌≡◌, String, str_eq, Bool, true, false, Option, none, some, ltb, if◌then◌else◌,
}
use engine_bot.Shared.Int.{ℤ, pos, leb_ℤ, is_zero}
use engine_bot.Shared.Results.{Result, ok, err}
use engine_bot.Shared.Options.{◌>>=◌}

pub data PositionStatus : Type 0 where
  pending active partial closed expired : PositionStatus

pub data CloseReason : Type 0 where
  ttl_expired tp_hit sl_hit manual_close reorg error : CloseReason

-- `PositionStatus.value`
unfoldable pub status_value : PositionStatus → String
status_value pending = "PENDING"
status_value active = "ACTIVE"
status_value partial = "PARTIAL"
status_value closed = "CLOSED"
status_value expired = "EXPIRED"

-- `PositionStatus(text)`; `none` is its `ValueError`.
unfoldable pub status_of : String → Option PositionStatus
status_of text =
    if str_eq text "PENDING"
    then some pending
    else if str_eq text "ACTIVE"
    then some active
    else if str_eq text "PARTIAL"
    then some partial
    else if str_eq text "CLOSED"
    then some closed
    else if str_eq text "EXPIRED"
    then some expired
    else none

-- `CloseReason.value`
unfoldable pub reason_value : CloseReason → String
reason_value ttl_expired = "ttl_expired"
reason_value tp_hit = "tp_hit"
reason_value sl_hit = "sl_hit"
reason_value manual_close = "manual_close"
reason_value reorg = "reorg"
reason_value error = "error"

pub record PositionState : Type 0 where
  pub signal_id : String
  pub mint : String
  pub entry_price : ℤ
  pub size_usd : ℤ
  pub entry_ts : ℤ
  pub ttl_expires_at : ℤ
  pub tp_price : Option ℤ
  pub sl_price : Option ℤ
  pub status : PositionStatus
  pub close_reason : Option String
  pub close_price : Option ℤ
  pub close_ts : Option ℤ
  pub remaining_size_usd : ℤ

-- `__post_init__`: a remaining size of zero is taken for one that was not given.
unfoldable pub post_init : PositionState → PositionState
post_init p =
    if is_zero p.remaining_size_usd then record p { remaining_size_usd = p.size_usd } else p

unfoldable pub is_active : PositionState → Bool
is_active p = elim p.status [ active ↦ true | pending ↦ true | _ ↦ false ]

unfoldable pub is_closed : PositionState → Bool
is_closed p = elim p.status [ closed ↦ true | expired ↦ true | _ ↦ false ]

unfoldable pub check_ttl : PositionState → ℤ → Bool
check_ttl p current_ts = leb_ℤ p.ttl_expires_at current_ts

unfoldable pub check_tp : PositionState → ℤ → String → Bool
check_tp p current_price side = elim p.tp_price [
  | none ↦ false
  | some tp ↦ if str_eq side "BUY" then leb_ℤ tp current_price else leb_ℤ current_price tp
]

unfoldable pub check_sl : PositionState → ℤ → String → Bool
check_sl p current_price side = elim p.sl_price [
  | none ↦ false
  | some sl ↦ if str_eq side "BUY" then leb_ℤ current_price sl else leb_ℤ sl current_price
]

-- The dictionary that `to_dict` makes and `from_dict` reads.
pub record PositionDict : Type 0 where
  pub signal_id : String
  pub mint : String
  pub entry_price : ℤ
  pub size_usd : ℤ
  pub entry_ts : String
  pub ttl_expires_at : String
  pub tp_price : Option ℤ
  pub sl_price : Option ℤ
  pub status : String
  pub close_reason : Option String
  pub close_price : Option ℤ
  pub close_ts : Option String
  pub remaining_size_usd : ℤ

-- `datetime.isoformat` and `datetime.fromisoformat`, whose `ValueError` is `none`.
pub record IsoFormat : Type 0 where
  pub isoformat : ℤ → String
  pub fromisoformat : String → Option ℤ

-- What the standard library documents of the two at a time that is a `datetime`: its text is not
-- empty and reads back.
pub record IsPrintable (iso : IsoFormat) (t : ℤ) : Type 0 where
  pub reads_back : iso.fromisoformat (iso.isoformat t) ≡ some t
  pub not_empty : str_eq (iso.isoformat t) "" ≡ false

module _ (iso : IsoFormat) where
  open iso use {isoformat, fromisoformat}

  unfoldable pub to_dict : PositionState → PositionDict
  to_dict p = record {
    signal_id = p.signal_id;
    mint = p.mint;
    entry_price = p.entry_price;
    size_usd = p.size_usd;
    entry_ts = isoformat p.entry_ts;
    ttl_expires_at = isoformat p.ttl_expires_at;
    tp_price = p.tp_price;
    sl_price = p.sl_price;
    status = status_value p.status;
    close_reason = p.close_reason;
    close_price = p.close_price;
    close_ts = elim p.close_ts [ none ↦ none | some t ↦ some (isoformat t) ];
    remaining_size_usd = p.remaining_size_usd;
  }

  -- `if data.get("close_ts"): …`: a missing or empty text stands for no time; the outer `none` is
  -- a `ValueError`.
  unfoldable pub read_close_ts : Option String → Option (Option ℤ)
  read_close_ts none = some none
  read_close_ts (some text) =
      if str_eq text "" then some none else (do t ← fromisoformat text; some (some t))

  -- `none` is a `ValueError`.
  unfoldable pub from_dict : PositionDict → Option PositionState
  from_dict d = do
    entry_ts ← fromisoformat d.entry_ts
    ttl_expires_at ← fromisoformat d.ttl_expires_at
    close_ts ← read_close_ts d.close_ts
    status ← status_of d.status
    some (
        post_init (record {
          signal_id = d.signal_id;
          mint = d.mint;
          entry_price = d.entry_price;
          size_usd = d.size_usd;
          entry_ts = entry_ts;
          ttl_expires_at = ttl_expires_at;
          tp_price = d.tp_price;
          sl_price = d.sl_price;
          status = status;
          close_reason = d.close_reason;
          close_price = d.close_price;
          close_ts = close_ts;
          remaining_size_usd = d.remaining_size_usd;
        }))

pub data ActionType : Type 0 where
  close partial_close : ActionType

pub record CloseAction : Type 0 where
  pub signal_id : String
  pub action_type : ActionType
  pub reason : String
  pub price : ℤ
  pub size_usd : ℤ

-- `CloseAction(…)`, whose `__post_init__` replaces a missing size by zero.
unfoldable pub make_action : String → ActionType → String → ℤ → Option ℤ → CloseAction
make_action signal_id action_type reason price size_usd = record {
  signal_id = signal_id;
  action_type = action_type;
  reason = reason;
  price = price;
  size_usd = elim size_usd [ none ↦ pos 0 | some size ↦ size ];
}

pub data OrderError : Type 0 where
  bad_check_interval bad_max_positions max_positions_reached key_error : OrderError

pub record OrderManagerConfig : Type 0 where
  pub check_interval_seconds : ℕ
  pub default_ttl_seconds : ℕ
  pub enable_partial_closes : Bool
  pub max_positions : ℕ

-- `OrderManagerConfig(…)` with the checks of its `__post_init__`.
unfoldable pub make_config : ℕ → ℕ → Bool → ℕ → Result OrderError OrderManagerConfig
make_config check_interval default_ttl partial_closes max_positions =
    if ltb check_interval 1
    then err bad_check_interval
    else if ltb max_positions 1
    then err bad_max_positions
    else ok (record {
      check_interval_seconds = check_interval;
      default_ttl_seconds = default_ttl;
      enable_partial_closes = partial_closes;
      max_positions = max_positions;
    })
