-- ===== src/Batcher/Answers.antt =====
-- ingestion/rpc/batcher.py: which requests are answered, and that none waits for ever.
use engine_bot.Shared.{
  ℕ, zero, suc, ◌≡◌, ◌∙◌, sym, ap, refl, inl, inr, String, false, some, List, [], ◌∷◌, ◌++◌, map,
  length, All, arith, leb, Bool-cases,
}
use engine_bot.Shared.Int.{ℤ}
use engine_bot.Shared.Results.{Result, ok, err}
use mathlib.Core.List.{append_assoc, append-nil}
use engine_bot.Batcher.Queue.{
  BatchItem, Outcome, Http, Batcher, new_batcher, dispatch, signal_error, execute, flush_items,
  do_flush, queue_request, on_timer, flush,
}
use engine_bot.Batcher.Steps.{
  BatchStep, batch_run, batch_step, flush_items-queue, manual, request, step_http, timer,
}

abbrev pub numbers : List (ℕ × Outcome) → List ℕ
numbers rs = map (λ r. r.0) rs

abbrev pub queued_futures : List BatchItem → List ℕ
queued_futures is = map (λ i. i.future) is

-- The numbers below `n`, in order.
abbrev pub upto : ℕ → List ℕ
upto zero = []
upto (suc n) = upto n ++ n ∷ []

-- Every future so far was set once or is queued, in the order of the requests.
abbrev pub IsOrdered : Batcher → Type 0
IsOrdered b = numbers b.resolved ++ queued_futures b.queue ≡ upto b.futures

-- The callable answers one response for each request, or it raises.
abbrev pub IsFull : Result String (List String) → List BatchItem → Type 0
IsFull (ok responses) items = length responses ≡ length items
IsFull (err e) items = Unit

abbrev pub IsFair : Http → Type 0
IsFair http =
    (f : List BatchItem → Result String (List String)) × (http ≡ some f)
    × ((items : List BatchItem) → IsFull (f items) items)

numbers-append : (rs ts : List (ℕ × Outcome)) → numbers (rs ++ ts) ≡ numbers rs ++ numbers ts
numbers-append [] ts = refl
numbers-append (r ∷ rs) ts = ap (λ l. r.0 ∷ l) (numbers-append rs ts)

queued-append :
    (is js : List BatchItem) → queued_futures (is ++ js) ≡ queued_futures is ++ queued_futures js
queued-append [] js = refl
queued-append (i ∷ is) js = ap (λ l. i.future ∷ l) (queued-append is js)

numbers-dispatch :
    (is : List BatchItem) (rs : List String)
    → length rs ≡ length is
    → numbers (dispatch is rs) ≡ queued_futures is
numbers-dispatch [] rs h = refl
numbers-dispatch (i ∷ is) [] h = ground arith
numbers-dispatch (i ∷ is) (r ∷ rs) h = ap (λ l. i.future ∷ l) (numbers-dispatch is rs (omega arith))

numbers-signal_error :
    (is : List BatchItem) (e : String) → numbers (signal_error is e) ≡ queued_futures is
numbers-signal_error [] e = refl
numbers-signal_error (i ∷ is) e = ap (λ l. i.future ∷ l) (numbers-signal_error is e)

answered_items :
    (f : List BatchItem → Result String (List String)) (items : List BatchItem)
    (r : Result String (List String)) (b : Batcher)
    → f items ≡ r
    → IsFull r items
    → numbers (execute (some f) items b).resolved ≡ numbers b.resolved ++ queued_futures items
unfolding execute
answered_items f items (ok rs) b is full = simp (is) (
    numbers-append b.resolved (dispatch items rs)
    ∙ ap (λ l. numbers b.resolved ++ l) (numbers-dispatch items rs full))
answered_items f items (err e) b is full = simp (is) (
    numbers-append b.resolved (signal_error items e)
    ∙ ap (λ l. numbers b.resolved ++ l) (numbers-signal_error items e))

do_flush-numbers :
    (http : Http) (now : ℤ) (b : Batcher) (items : List BatchItem)
    → IsFair http
    → b.queue ≡ items
    → numbers (flush_items http now items b).resolved ≡ numbers b.resolved ++ queued_futures items
unfolding flush_items
do_flush-numbers http now b [] fair is = sym (append-nil (numbers b.resolved))
do_flush-numbers http now b (i ∷ is) (f, set, full) same = rw set (
    answered_items f (i ∷ is) (f (i ∷ is))
      (record b { queue = []; is_timed = false; last_flush_time = now }) refl (full (i ∷ is)))

do_flush-IsOrdered :
    (http : Http) (now : ℤ) (b : Batcher)
    → IsFair http
    → IsOrdered b
    → IsOrdered (do_flush http now b)
unfolding do_flush
do_flush-IsOrdered http now b fair h =
    let gone = flush_items-queue http now b.queue b refl in
    rw (gone.0, gone.1) (append-nil _ ∙ do_flush-numbers http now b b.queue fair refl ∙ h)

queued-IsOrdered :
    (item : BatchItem) (b : Batcher)
    → IsOrdered b
    → IsOrdered (record b {
      queue = b.queue ++ record item { future = b.futures } ∷ [];
      futures = suc b.futures;
    })
queued-IsOrdered item b h =
    ap (λ l. numbers b.resolved ++ l) (queued-append b.queue _)
    ∙ sym (append_assoc (numbers b.resolved) (queued_futures b.queue) (b.futures ∷ []))
    ∙ ap (λ l. l ++ b.futures ∷ []) h

batch_step-IsOrdered :
    (s : BatchStep) (b : Batcher) → IsFair (step_http s) → IsOrdered b → IsOrdered (batch_step s b)
unfolding batch_step queue_request on_timer flush
batch_step-IsOrdered (request http now item) b fair h =
    let queued : Batcher = record b {
      queue = b.queue ++ record item { future = b.futures } ∷ [];
      futures = suc b.futures;
    } in
    let kept = queued-IsOrdered item b h in
    let flushed = do_flush-IsOrdered http now queued fair kept in
    elim (Bool-cases (leb b.max_batch_size (length queued.queue))) [
      | inl full ↦ rw full flushed
      | inr room ↦ elim (Bool-cases b.is_timed) [
        | inl timed ↦ rw (room, timed) kept
        | inr idle ↦ rw (room, idle) kept
      ]
    ]
batch_step-IsOrdered (timer http now) b fair h = do_flush-IsOrdered http now b fair h
batch_step-IsOrdered (manual http now) b fair h = do_flush-IsOrdered http now b fair h

batch_run-IsOrdered :
    (ss : List BatchStep) (b : Batcher)
    → All (λ s. IsFair (step_http s)) ss
    → IsOrdered b
    → IsOrdered (batch_run ss b)
unfolding batch_run
batch_run-IsOrdered [] b fair h = h
batch_run-IsOrdered (s ∷ ss) b fair h =
    batch_run-IsOrdered ss (batch_step s b) fair.1 (batch_step-IsOrdered s b fair.0 h)

-- After every sequence of requests, timers and flushes from an empty batcher, and one more
-- flush, where the callable is set and answers as many responses as it is given requests, or
-- raises: every future was set exactly once, in the order of the requests.
pub every_future_is_set_once :
    (max_batch_size : ℕ) (ss : List BatchStep) (http : Http) (now : ℤ)
    → All (λ s. IsFair (step_http s)) ss
    → IsFair http
    → numbers (flush http now (batch_run ss (new_batcher max_batch_size))).resolved
      ≡ upto (batch_run ss (new_batcher max_batch_size)).futures
unfolding flush do_flush new_batcher
every_future_is_set_once max_batch_size ss http now fair last =
    let b : Batcher = batch_run ss (new_batcher max_batch_size) in
    let kept = batch_run-IsOrdered ss (new_batcher max_batch_size) fair refl in
    do_flush-numbers http now b b.queue last refl ∙ kept
