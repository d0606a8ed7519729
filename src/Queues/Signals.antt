-- ===== src/Queues/Signals.antt =====
-- execution/queues.py, `SignalQueue`. The standard library's `PriorityQueue` is the list of its
-- entries in ascending order, from which `get` takes the first; the counter makes every two
-- entries differ, so that two signals are never compared.
use engine_bot.Shared.{
  ℕ, suc, ◌==◌, Bool, true, false, Option, none, some, List, [], ◌∷◌, length, ltb, leb,
  if◌then◌else◌,
}
use engine_bot.Shared.Int.{ℤ, pos, ltb_ℤ}

abbrev pub priority_critical : ℤ
priority_critical = pos 0

abbrev pub priority_exit : ℤ
priority_exit = pos 10

abbrev pub priority_entry : ℤ
priority_entry = pos 50

module _ {ℓ} (S : Type ℓ) where
  -- `(priority, counter, signal)`
  pub record Entry : Type ℓ where
    pub priority : ℤ
    pub counter : ℕ
    pub signal : S

  pub record SignalQueue : Type ℓ where
    pub max_size : Option ℕ
    pub entries : List Entry
    pub counter : ℕ

module _ {ℓ} {S : Type ℓ} where
  -- The order of the tuples, by priority and then by counter.
  abbrev pub before : Entry S → Entry S → Bool
  before a b =
      if ltb_ℤ a.priority b.priority
      then true
      else if ltb_ℤ b.priority a.priority
      then false
      else ltb a.counter b.counter

  -- `put_nowait`
  unfoldable pub put : Entry S → List (Entry S) → List (Entry S)
  put e [] = e ∷ []
  put e (x ∷ xs) = let rest = x ∷ put e xs in if before e x then e ∷ x ∷ xs else rest

  unfoldable pub new_queue : Option ℕ → SignalQueue S
  new_queue max_size = record { max_size = max_size; entries = []; counter = 0 }

  unfoldable pub size : SignalQueue S → ℕ
  size q = length q.entries

  unfoldable pub empty : SignalQueue S → Bool
  empty q = size q == 0

  unfoldable pub full : SignalQueue S → Bool
  full q = elim q.max_size [ none ↦ false | some n ↦ leb n (size q) ]

  -- `push`: `queue.Full` cannot come, since the queue behind has the same bound, or none.
  unfoldable pub push : S → ℤ → SignalQueue S → Bool × SignalQueue S
  push s priority q = if full q then (false, q) else (
    true,
    record q {
      entries = put (record { priority = priority; counter = suc q.counter; signal = s }) q.entries;
      counter = suc q.counter;
    },
  )

  unfoldable pub pop : SignalQueue S → Option S × SignalQueue S
  pop q = elim q.entries [ [] ↦ (none, q) | e ∷ es ↦ (some e.signal, record q { entries = es }) ]

  unfoldable pub peek : SignalQueue S → Option S
  peek q = elim q.entries [ [] ↦ none | e ∷ es ↦ some e.signal ]

  -- The loop of `clear`, with a round for each entry.
  unfoldable pub clear_loop : ℕ → SignalQueue S → SignalQueue S
  clear_loop ℕ.zero q = q
  clear_loop (suc n) q = let rest = clear_loop n (pop q).1 in if empty q then q else rest

  unfoldable pub clear : SignalQueue S → SignalQueue S
  clear q = clear_loop (size q) q

  abbrev pub with_first : Option S → List S → List S
  with_first none rest = rest
  with_first (some s) rest = s ∷ rest

  -- The loop of `get_all`.
  unfoldable pub drain : ℕ → SignalQueue S → List S × SignalQueue S
  drain ℕ.zero q = ([], q)
  drain (suc n) q =
      let rest = drain n (pop q).1 in
      if empty q then ([], q) else (with_first (pop q).0 rest.0, rest.1)

  unfoldable pub get_all : SignalQueue S → List S × SignalQueue S
  get_all q = drain (size q) q
