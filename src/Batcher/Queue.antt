-- ===== src/Batcher/Queue.antt =====
-- ingestion/rpc/batcher.py, `RpcBatcher`. A future is its number, in the order of the requests,
-- and `resolved` lists what `set_result` was called with. The HTTP callable is a parameter of
-- each step: it answers a list of responses or raises. Each step holds the lock from beginning
-- to end.
use engine_bot.Shared.{
  ℕ, suc, ◌+◌, String, Bool, true, false, Option, none, some, List, [], ◌∷◌, ◌++◌, length, leb,
  ◌==◌, if◌then◌else◌,
}
use engine_bot.Shared.Int.{ℤ, pos}
use engine_bot.Shared.Results.{Result, ok, err}

-- The callable of a request is its future's `set_result`.
pub record BatchItem : Type 0 where
  pub method : String
  pub params : List String
  pub future : ℕ
  pub key : String
  pub ttl : ℤ

-- What a future holds: a response, or the exception of the batch.
pub data Outcome : Type 0 where
  response : String → Outcome
  exception : String → Outcome

abbrev pub Http : Type 0
Http = Option (List BatchItem → Result String (List String))

pub record Batcher : Type 0 where
  pub max_batch_size : ℕ
  pub queue : List BatchItem
  pub is_timed : Bool
  pub last_flush_time : ℤ
  pub batches_sent : ℕ
  pub requests_batched : ℕ
  pub futures : ℕ
  pub resolved : List (ℕ × Outcome)

unfoldable pub new_batcher : ℕ → Batcher
new_batcher max_batch_size = record {
  max_batch_size = max_batch_size;
  queue = [];
  is_timed = false;
  last_flush_time = pos 0;
  batches_sent = 0;
  requests_batched = 0;
  futures = 0;
  resolved = [];
}

-- `for item, response in zip(items, responses): item.callback(response)`
abbrev pub dispatch : List BatchItem → List String → List (ℕ × Outcome)
dispatch [] rs = []
dispatch (i ∷ is) [] = []
dispatch (i ∷ is) (r ∷ rs) = (i.future, response r) ∷ dispatch is rs

-- `for item in items: item.callback(e)`
abbrev pub signal_error : List BatchItem → String → List (ℕ × Outcome)
signal_error [] e = []
signal_error (i ∷ is) e = (i.future, exception e) ∷ signal_error is e

-- The part of `_flush` from the callable on.
unfoldable pub execute : Http → List BatchItem → Batcher → Batcher
execute none items b = b
execute (some http) items b = elim (http items) [
  | ok responses ↦ record b {
    batches_sent = b.batches_sent + 1;
    requests_batched = b.requests_batched + length items;
    resolved = b.resolved ++ dispatch items responses;
  }
  | err e ↦ record b { resolved = b.resolved ++ signal_error items e }
]

-- `_flush`, of the items that are queued.
unfoldable pub flush_items : Http → ℤ → List BatchItem → Batcher → Batcher
flush_items http now [] b = b
flush_items http now (i ∷ is) b =
    execute http (i ∷ is) (record b { queue = []; is_timed = false; last_flush_time = now })

unfoldable pub do_flush : Http → ℤ → Batcher → Batcher
do_flush http now b = flush_items http now b.queue b

-- A request, given without its future, and the future that it returns.
unfoldable pub queue_request : Http → ℤ → BatchItem → Batcher → ℕ × Batcher
queue_request http now item b =
    let queued : Batcher = record b {
      queue = b.queue ++ record item { future = b.futures } ∷ [];
      futures = suc b.futures;
    } in
    (
      b.futures,
      (if leb b.max_batch_size (length queued.queue)
          then do_flush http now queued
          else if b.is_timed
          then queued
          else record queued { is_timed = true }),
    )

-- `_on_timer`, and the method `flush`, which `do_flush` is as well.
unfoldable pub on_timer : Http → ℤ → Batcher → Batcher
on_timer http now b = record (do_flush http now b) { is_timed = false }

unfoldable pub flush : Http → ℤ → Batcher → Batcher
flush http now b = do_flush http now b

unfoldable pub get_queue_size : Batcher → ℕ
get_queue_size b = length b.queue

pub record Metrics : Type 0 where
  pub batches_sent : ℕ
  pub requests_batched : ℕ
  pub pending_requests : ℕ

unfoldable pub get_metrics : Batcher → Metrics
get_metrics b = record {
  batches_sent = b.batches_sent;
  requests_batched = b.requests_batched;
  pending_requests = length b.queue;
}

-- What a future holds: what it was last set to.
abbrev pub held : ℕ → List (ℕ × Outcome) → Option Outcome
held n [] = none
held n (r ∷ rs) =
    let later = held n rs in
    elim later [ some o ↦ some o | none ↦ if r.0 == n then some r.1 else none ]

-- `BatchFuture.get`, of a future that is set or whose timeout passes.
unfoldable pub get_result : ℕ → Batcher → Option Outcome
get_result n b = held n b.resolved
