-- ===== src/Batcher/Tests.antt =====
-- The batcher at concrete inputs.
use engine_bot.Shared.{suc, ◌≡◌, ap, refl, String, none, some, List, [], ◌∷◌, map, length}
use engine_bot.Shared.Int.{pos}
use engine_bot.Shared.Results.{Result, ok, err}
use engine_bot.Batcher.Queue
use engine_bot.Batcher.Queue.{
  BatchItem, Http, Batcher, Outcome, response, exception, new_batcher, flush, get_result,
  get_queue_size,
}
use engine_bot.Batcher.Answers.{IsFull, IsFair, numbers, upto, every_future_is_set_once}
use engine_bot.Batcher.Steps.{BatchStep, request, timer, manual, batch_run, step_http, IsWaiting}

abbrev item : BatchItem
item = record { method = "getAccountInfo"; params = []; future = 0; key = ""; ttl = pos 300 }

-- Answers every item by its method, and raises for a batch of one.
abbrev answer_all : List BatchItem → Result String (List String)
answer_all [] = ok []
answer_all (i ∷ []) = err "connection"
answer_all (i ∷ j ∷ is) = ok (map (λ k. k.method) (i ∷ j ∷ is))

length-methods : (is : List BatchItem) → length (map (λ k. k.method) is) ≡ length is
length-methods [] = refl
length-methods (i ∷ is) = ap suc (length-methods is)

answer_all-IsFull : (items : List BatchItem) → IsFull (answer_all items) items
answer_all-IsFull [] = refl
answer_all-IsFull (i ∷ []) = tt
answer_all-IsFull (i ∷ j ∷ is) = length-methods (i ∷ j ∷ is)

abbrev http : Http
http = some answer_all

http-IsFair : IsFair http
http-IsFair = (answer_all, refl, answer_all-IsFull)

-- The second request fills a batch of two; the third is flushed by the timer; the fourth is left.
abbrev steps : Http → List BatchStep
steps h =
    request h (pos 1) item
    ∷ request h (pos 2) item
    ∷ request h (pos 3) item
    ∷ timer h (pos 4)
    ∷ request h (pos 5) item
    ∷ []

every_future_is_set_once_example :
    numbers (flush http (pos 6) (batch_run (steps http) (new_batcher 2))).resolved
    ≡ upto (batch_run (steps http) (new_batcher 2)).futures
every_future_is_set_once_example =
    every_future_is_set_once 2 (steps http) http (pos 6)
      (http-IsFair, (http-IsFair, (http-IsFair, (http-IsFair, (http-IsFair, tt))))) http-IsFair

first_answer :
    get_result 0 (batch_run (steps http) (new_batcher 2)) ≡ some (response "getAccountInfo")
unfolding get_result batch_run engine_bot.Batcher.Steps.batch_step Queue.queue_request
    Queue.on_timer Queue.do_flush Queue.flush_items new_batcher Queue.execute
first_answer = refl

third_fails : get_result 2 (batch_run (steps http) (new_batcher 2)) ≡ some (exception "connection")
unfolding get_result batch_run engine_bot.Batcher.Steps.batch_step Queue.queue_request
    Queue.on_timer Queue.do_flush Queue.flush_items new_batcher Queue.execute
third_fails = refl

fourth_waits : get_queue_size (batch_run (steps http) (new_batcher 2)) ≡ 1
unfolding get_queue_size batch_run engine_bot.Batcher.Steps.batch_step Queue.queue_request
    Queue.on_timer Queue.do_flush Queue.flush_items new_batcher Queue.execute
fourth_waits = refl

-- A callable that answers fewer responses than requests leaves the last future unset.
abbrev short : Http
short = some (λ items. ok ("only" ∷ []))

second_unset : get_result 1 (batch_run (steps short) (new_batcher 2)) ≡ none
unfolding get_result batch_run engine_bot.Batcher.Steps.batch_step Queue.queue_request
    Queue.on_timer Queue.do_flush Queue.flush_items new_batcher Queue.execute
second_unset = refl
