-- ===== src/Reorg/Guard.antt =====
-- execution/reorg_guard.py, `ReorgGuardExtended`: the tracked transactions and their rollbacks.
-- What a callback raises is caught, so that a callback is the list of what it was called with;
-- the node's answers of a poll are a function of the transaction.
use engine_bot.Shared.{
  String, Bool, true, false, Option, none, some, List, [], ◌∷◌, ◌++◌, keep, if◌then◌else◌,
}
use engine_bot.Shared.Int.{ℤ}
use engine_bot.Shared.Dict.{Dict, lookup, insert, keys, modify}
use engine_bot.Reorg.Status.{Node, TxState, check_tx_status}

pub data TrackedStatus : Type 0 where
  pending : TrackedStatus
  dropped : TrackedStatus
  finalized : TrackedStatus

-- The entry of a tracked transaction.
pub record TxInfo : Type 0 where
  pub signal_id : String
  pub amount : ℤ
  pub price : ℤ
  pub tx_type : String
  pub trace_id : String
  pub status : TrackedStatus
  pub first_seen : ℤ

pub record ReorgEvent : Type 0 where
  pub tx_hash : String
  pub signal_id : String
  pub previous_status : String
  pub detected_at : ℤ
  pub block_height : Option ℤ
  pub rollback_amount : Option ℤ
  pub reason : String

pub record PositionAdjustment : Type 0 where
  pub signal_id : String
  pub mint : String
  pub adjustment_type : String
  pub previous_amount : ℤ
  pub new_amount : ℤ
  pub price : ℤ
  pub tx_hash : String
  pub trace_id : String
  pub reason : String
  pub timestamp : ℤ

pub record Guard : Type 0 where
  pub pending_txs : Dict TxInfo
  pub reorg_events : List ReorgEvent
  pub adjustments : List PositionAdjustment
  pub on_reorg : Bool
  pub on_adjustment : Bool
  pub reorg_calls : List ReorgEvent
  pub adjustment_calls : List PositionAdjustment

unfoldable pub new_guard : Guard
new_guard = record {
  pending_txs = [];
  reorg_events = [];
  adjustments = [];
  on_reorg = false;
  on_adjustment = false;
  reorg_calls = [];
  adjustment_calls = [];
}

unfoldable pub set_reorg_callback : Guard → Guard
set_reorg_callback g = record g { on_reorg = true }

unfoldable pub set_adjustment_callback : Guard → Guard
set_adjustment_callback g = record g { on_adjustment = true }

-- `trace_id` is the given one, or a fresh one.
unfoldable pub track_transaction : String → String → ℤ → ℤ → String → String → ℤ → Guard → Guard
track_transaction tx_hash signal_id amount price tx_type trace_id now g = record g {
  pending_txs =
      insert tx_hash
        (record {
          signal_id = signal_id;
          amount = amount;
          price = price;
          tx_type = tx_type;
          trace_id = trace_id;
          status = pending;
          first_seen = now;
        })
        g.pending_txs;
}

unfoldable pub set_status : TrackedStatus → TxInfo → TxInfo
set_status status info = record info { status = status }

unfoldable pub reorg_event : String → ℤ → TxInfo → ReorgEvent
reorg_event tx_hash now info = record {
  tx_hash = tx_hash;
  signal_id = info.signal_id;
  previous_status = "pending";
  detected_at = now;
  block_height = none;
  rollback_amount = some info.amount;
  reason = "Transaction dropped (reorg or timeout)";
}

unfoldable pub detect_reorg : (String → Node) → ℤ → String → Guard → Option ReorgEvent × Guard
detect_reorg node now tx_hash g = elim (lookup tx_hash g.pending_txs) [
  | none ↦ (none, g)
  | some info ↦ elim (check_tx_status (node tx_hash) tx_hash none) [
    | TxState.dropped ↦ (
      some (reorg_event tx_hash now info),
      record g {
        pending_txs = modify tx_hash (set_status dropped) g.pending_txs;
        reorg_events = g.reorg_events ++ reorg_event tx_hash now info ∷ [];
        reorg_calls =
            if g.on_reorg
            then g.reorg_calls ++ reorg_event tx_hash now info ∷ []
            else g.reorg_calls;
      },
    )
    | TxState.finalized ↦
        (none, record g { pending_txs = modify tx_hash (set_status finalized) g.pending_txs })
    | TxState.confirmed ↦ (none, g)
    | TxState.pending ↦ (none, g)
  ]
]

-- `fresh` is the random trace id for a transaction that is not tracked.
unfoldable pub rollback_position :
    String → String → ℤ → ℤ → ℤ → String → String → String → ℤ → Guard → PositionAdjustment × Guard
rollback_position signal_id mint previous_amount new_amount price tx_hash reason fresh now g =
    let trace : String = elim (lookup tx_hash g.pending_txs) [
      | none ↦ fresh
      | some info ↦ info.trace_id
    ] in
    let adjustment : PositionAdjustment = record {
      signal_id = signal_id;
      mint = mint;
      adjustment_type = reason;
      previous_amount = previous_amount;
      new_amount = new_amount;
      price = price;
      tx_hash = tx_hash;
      trace_id = trace;
      reason = reason;
      timestamp = now;
    } in
    (
      adjustment,
      record g {
        adjustments = g.adjustments ++ adjustment ∷ [];
        adjustment_calls =
            if g.on_adjustment then g.adjustment_calls ++ adjustment ∷ [] else g.adjustment_calls;
      },
    )

unfoldable pub is_pending : TxInfo → Bool
is_pending info = elim info.status [ pending ↦ true | dropped ↦ false | finalized ↦ false ]

abbrev pub add_event : Option ReorgEvent → List ReorgEvent → List ReorgEvent
add_event none events = events
add_event (some e) events = e ∷ events

-- `self._pending_txs[tx_hash]["status"] == "pending"`, of a hash that is tracked.
unfoldable pub pending_in : String → Guard → Bool
pending_in tx_hash g = elim (lookup tx_hash g.pending_txs) [
  | none ↦ false
  | some info ↦ is_pending info
]

-- The loop over the hashes.
unfoldable pub check_hashes : (String → Node) → ℤ → List String → Guard → List ReorgEvent × Guard
check_hashes node now [] g = ([], g)
check_hashes node now (h ∷ hs) g =
    let (found, g') : Option ReorgEvent × Guard =
      if pending_in h g then detect_reorg node now h g else (none, g) in
    let (rest, g'') = check_hashes node now hs g' in (add_event found rest, g'')

unfoldable pub check_all_pending : (String → Node) → ℤ → Guard → List ReorgEvent × Guard
check_all_pending node now g = check_hashes node now (keys g.pending_txs) g

-- The hashes of the transactions that are pending still.
unfoldable pub get_pending_txs : Guard → List String
get_pending_txs g = keys (keep (λ e. is_pending e.1) g.pending_txs)
