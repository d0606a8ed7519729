-- ===== src/Batcher/Unanswered.antt =====
-- ingestion/rpc/batcher.py: what happens without a callable.
use engine_bot.Shared.{suc, ◌≡◌, ◌∙◌, refl, none, List, [], ◌∷◌, ◌++◌, All, arith}
use engine_bot.Shared.Int.{ℤ}
use engine_bot.Batcher.Queue.{
  BatchItem, Batcher, execute, flush_items, do_flush, queue_request, on_timer, flush,
}
use engine_bot.Batcher.Steps.{
  BatchStep, batch_run, batch_step, do_flush-queue, manual, request, step_http, timer,
}

flush_items-none :
    (now : ℤ) (items : List BatchItem) (b : Batcher)
    → (flush_items none now items b).resolved ≡ b.resolved
unfolding flush_items execute
flush_items-none now [] b = refl
flush_items-none now (i ∷ is) b = refl

batch_step-unanswered :
    (s : BatchStep) (b : Batcher) → step_http s ≡ none → (batch_step s b).resolved ≡ b.resolved
unfolding batch_step queue_request on_timer flush do_flush
batch_step-unanswered (request http now item) b h =
    let queued : Batcher = record b {
      queue = b.queue ++ record item { future = b.futures } ∷ [];
      futures = suc b.futures;
    } in
    rw h (ground (arith, flush_items-none now queued.queue queued))
batch_step-unanswered (timer http now) b h = rw h (flush_items-none now b.queue b)
batch_step-unanswered (manual http now) b h = rw h (flush_items-none now b.queue b)

batch_run-unanswered :
    (ss : List BatchStep) (b : Batcher)
    → All (λ s. step_http s ≡ none) ss
    → (batch_run ss b).resolved ≡ b.resolved
unfolding batch_run
batch_run-unanswered [] b h = refl
batch_run-unanswered (s ∷ ss) b h =
    batch_run-unanswered ss (batch_step s b) h.1 ∙ batch_step-unanswered s b h.0

-- Without a callable no sequence of requests, timers and flushes ever sets a future, and a flush
-- after them sets none either, though it empties the queue.
unanswered_without_callable :
    (ss : List BatchStep) (b : Batcher) (now : ℤ)
    → All (λ s. step_http s ≡ none) ss
    → ((batch_run ss b).resolved ≡ b.resolved)
      × ((flush none now (batch_run ss b)).resolved ≡ b.resolved)
      × ((flush none now (batch_run ss b)).queue ≡ [])
unfolding flush do_flush
unanswered_without_callable ss b now h =
    let kept = batch_run-unanswered ss b h in
    let last : Batcher = batch_run ss b in
    (kept, flush_items-none now last.queue last ∙ kept, (do_flush-queue none now last).0)
