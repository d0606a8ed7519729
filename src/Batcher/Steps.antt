-- ===== src/Batcher/Steps.antt =====
-- ingestion/rpc/batcher.py: the steps that change a batcher, and what waits in the queue.
use engine_bot.Shared.{
  suc, ◌<◌, ◌≡◌, ◌⊎◌, refl, inl, inr, true, none, some, List, [], ◌∷◌, ◌++◌, length, arith, leb,
  Bool-cases,
}
use engine_bot.Shared.Int.{ℤ}
use engine_bot.Batcher.Queue.{
  BatchItem, Http, Batcher, execute, flush_items, do_flush, queue_request, on_timer, flush,
}

-- What changes a batcher, with the callable as it is then.
pub data BatchStep : Type 0 where
  request : Http → ℤ → BatchItem → BatchStep
  timer : Http → ℤ → BatchStep
  manual : Http → ℤ → BatchStep

unfoldable pub batch_step : BatchStep → Batcher → Batcher
batch_step (request http now item) b = (queue_request http now item b).1
batch_step (timer http now) b = on_timer http now b
batch_step (manual http now) b = flush http now b

unfoldable pub batch_run : List BatchStep → Batcher → Batcher
batch_run [] b = b
batch_run (s ∷ ss) b = batch_run ss (batch_step s b)

abbrev pub step_http : BatchStep → Http
step_http (request http now item) = http
step_http (timer http now) = http
step_http (manual http now) = http

-- Whatever is queued is waited for by the timer, and is less than a batch.
abbrev pub IsWaiting : Batcher → Type 0
IsWaiting b = (b.queue ≡ []) ⊎ ((b.is_timed ≡ true) × (length b.queue < b.max_batch_size))

execute-queue :
    (http : Http) (items : List BatchItem) (b : Batcher)
    → ((execute http items b).queue ≡ b.queue) × ((execute http items b).futures ≡ b.futures)
unfolding execute
execute-queue none items b = (refl, refl)
execute-queue (some http) items b = ground arith

pub flush_items-queue :
    (http : Http) (now : ℤ) (items : List BatchItem) (b : Batcher)
    → b.queue ≡ items
    → ((flush_items http now items b).queue ≡ [])
      × ((flush_items http now items b).futures ≡ b.futures)
unfolding flush_items
flush_items-queue http now [] b is = (is, refl)
flush_items-queue http now (i ∷ is) b same = execute-queue http (i ∷ is) _

pub do_flush-queue :
    (http : Http) (now : ℤ) (b : Batcher)
    → ((do_flush http now b).queue ≡ []) × ((do_flush http now b).futures ≡ b.futures)
unfolding do_flush
do_flush-queue http now b = flush_items-queue http now b.queue b refl

batch_step-IsWaiting : (s : BatchStep) (b : Batcher) → IsWaiting b → IsWaiting (batch_step s b)
unfolding batch_step queue_request on_timer flush
batch_step-IsWaiting (request http now item) b h =
    let queued : Batcher = record b {
      queue = b.queue ++ record item { future = b.futures } ∷ [];
      futures = suc b.futures;
    } in
    elim (Bool-cases (leb b.max_batch_size (length queued.queue))) [
      | inl full ↦ rw full (inl (do_flush-queue http now queued).0)
      | inr room ↦ elim (Bool-cases b.is_timed) [
        | inl timed ↦ rw (room, timed) (inr (refl, ground arith))
        | inr idle ↦ rw (room, idle) (inr (refl, ground arith))
      ]
    ]
batch_step-IsWaiting (timer http now) b h = inl (do_flush-queue http now b).0
batch_step-IsWaiting (manual http now) b h = inl (do_flush-queue http now b).0

-- Along every sequence of requests, timers and flushes, with any callable or none: what is in
-- the queue is waited for by a timer and is fewer than the largest batch, or the queue is empty.
batch_run-IsWaiting : (ss : List BatchStep) (b : Batcher) → IsWaiting b → IsWaiting (batch_run ss b)
unfolding batch_run
batch_run-IsWaiting [] b h = h
batch_run-IsWaiting (s ∷ ss) b h =
    batch_run-IsWaiting ss (batch_step s b) (batch_step-IsWaiting s b h)
