-- ===== src/Queues/Drain.antt =====
-- Taking all signals out: `get_all` and `clear`.
use engine_bot.Shared.{
  ℕ, suc, ◌==◌, ◌≡◌, ◌∙◌, ap, sym, refl, inl, inr, Bool-cases, false, Option, none, List, [], ◌∷◌,
  ◌++◌, map, length, arith, if◌then◌else◌,
}
use mathlib.Core.List.{append_assoc, append-nil}
use engine_bot.Shared.Int.{ℤ, pos}
use engine_bot.Queues.Signals.{
  Entry, SignalQueue, new_queue, size, empty, full, push, pop, drain, get_all, clear, clear_loop,
}
use engine_bot.Queues.Order.{
  IsOrdered, IsValid, new_queue-IsValid, push-IsValid, push_is_fifo, of_priority, same,
}

suc-ne-zero : (n : ℕ) → (suc n == 0) ≡ false
suc-ne-zero n = ground arith

module _ {ℓ} {S : Type ℓ} where
  drain_entries :
      (m : Option ℕ) (es : List (Entry S)) (c : ℕ)
      → drain (length es) (record { max_size = m; entries = es; counter = c })
        ≡ (map (λ e. e.signal) es, record { max_size = m; entries = []; counter = c })
  unfolding drain pop empty size
  drain_entries m [] c = refl
  drain_entries m (e ∷ es) c = rw (suc-ne-zero (length es), drain_entries m es c) refl

  clear_entries :
      (m : Option ℕ) (es : List (Entry S)) (c : ℕ)
      → clear_loop (length es) (record { max_size = m; entries = es; counter = c })
        ≡ record { max_size = m; entries = []; counter = c }
  unfolding clear_loop pop empty size
  clear_entries m [] c = refl
  clear_entries m (e ∷ es) c = rw (suc-ne-zero (length es), clear_entries m es c) refl

  -- `get_all` gives the signals of all entries in their order, and it and `clear` leave the queue
  -- without entries and otherwise as it was.
  pub get_all_entries :
      (q : SignalQueue S)
      → (get_all q ≡ (map (λ e. e.signal) q.entries, record q { entries = [] }))
        × (clear q ≡ record q { entries = [] })
  unfolding get_all clear size
  get_all_entries q =
      (drain_entries q.max_size q.entries q.counter, clear_entries q.max_size q.entries q.counter)

  -- Requests to push, each a signal with its priority.
  abbrev pub push_all : List (S × ℤ) → SignalQueue S → SignalQueue S
  push_all [] q = q
  push_all ((s, p) ∷ ls) q = push_all ls (push s p q).1

  abbrev pub requests_of : ℤ → List (S × ℤ) → List S
  requests_of k [] = []
  requests_of k ((s, p) ∷ ls) = let rest = requests_of k ls in if same p k then s ∷ rest else rest

  push_keeps_bound :
      (s : S) (p : ℤ) (q : SignalQueue S) → q.max_size ≡ none → (push s p q).1.max_size ≡ none
  unfolding push
  push_keeps_bound s p q h = elim (Bool-cases (full q)) [ inl a ↦ rw a h | inr a ↦ rw a h ]

  unbounded_not_full : (q : SignalQueue S) → q.max_size ≡ none → full q ≡ false
  unfolding full
  unbounded_not_full q h = rw (h, full)

  push_all-of_priority :
      (k : ℤ) (ls : List (S × ℤ)) (q : SignalQueue S)
      → IsValid q
      → q.max_size ≡ none
      → IsOrdered (push_all ls q).entries
        × (of_priority k (push_all ls q).entries ≡ of_priority k q.entries ++ requests_of k ls)
  push_all-of_priority k [] q v free = (v.ordered, sym (append-nil (of_priority k q.entries)))
  push_all-of_priority k ((s, p) ∷ ls) q v free =
      let ih =
        push_all-of_priority k ls (push s p q).1 (push-IsValid s p q v)
          (push_keeps_bound s p q free) in
      let one = (push_is_fifo s p q v).2 (unbounded_not_full q free) k in
      (
        ih.0,
        ih.1
            ∙ rw one (elim (Bool-cases (same p k)) [
              | inl hit ↦
                  rw hit (append_assoc (of_priority k q.entries) (s ∷ []) (requests_of k ls))
              | inr miss ↦ rw miss
            ]),
      )

  -- Pushing any requests onto a new queue with no bound and draining it is a stable sort: the
  -- result is the signals of a list of entries in ascending order, among which those of each
  -- priority are exactly the requests of that priority, in the order of their arrival.
  pub get_all_is_stable_sort :
      (ls : List (S × ℤ))
      → let q = push_all ls (new_queue none) in
        ((get_all q).0 ≡ map (λ e. e.signal) q.entries)
        × IsOrdered q.entries
        × ((k : ℤ) → of_priority k q.entries ≡ requests_of k ls)
  unfolding new_queue
  get_all_is_stable_sort ls =
      let q0 : SignalQueue S = new_queue none in
      let sorted = λ (k : ℤ). push_all-of_priority k ls q0 (new_queue-IsValid none) refl in
      (ap (λ r. r.0) ((get_all_entries (push_all ls q0)).0), (sorted (pos 0)).0, λ k. (sorted k).1)
