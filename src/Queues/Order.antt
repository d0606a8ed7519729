-- ===== src/Queues/Order.antt =====
-- The order of the queue: by priority, and in the order of arrival within a priority.
use engine_bot.Shared.{
  ℕ, suc, ◌≤◌, ◌<◌, ◌≡◌, refl, inl, inr, Bool, true, false, not, Option, none, some, List, [], ◌∷◌,
  ◌++◌, length, All, All-imply, arith, Bool-cases, if◌then◌else◌,
}
use engine_bot.Shared.Int.{ℤ, ltb_ℤ}
use engine_bot.Queues.Signals.{Entry, SignalQueue, before, put, new_queue, size, full, push, pop}

-- The bound of the queue, where it has one.
abbrev pub Fits : Option ℕ → ℕ → Type 0
Fits none n = Unit
Fits (some m) n = n ≤ m

Fits-less : (m : Option ℕ) (n : ℕ) → Fits m (suc n) → Fits m n
Fits-less none n f = tt
Fits-less (some m) n f = omega arith

-- The same priority.
abbrev pub same : ℤ → ℤ → Bool
same a b = if ltb_ℤ a b then false else not (ltb_ℤ b a)

module _ {ℓ} {S : Type ℓ} where
  -- Every entry comes before all that follow it.
  abbrev pub IsOrdered : List (Entry S) → Type ℓ
  IsOrdered [] = Unit
  IsOrdered (x ∷ xs) = All (λ y. before x y ≡ true) xs × IsOrdered xs

  pub record IsValid (q : SignalQueue S) : Type ℓ where
    pub ordered : IsOrdered q.entries
    pub counted : All (λ e. e.counter ≤ q.counter) q.entries
    pub fits : Fits q.max_size (length q.entries)

  pub new_queue-IsValid : (m : Option ℕ) → IsValid (new_queue {S = S} m)
  unfolding new_queue
  new_queue-IsValid none = record { ordered = tt; counted = tt; fits = tt }
  new_queue-IsValid (some m) = record { ordered = tt; counted = tt; fits = omega arith }

  All-put {κ} :
      (P : Entry S → Type κ) (e : Entry S) (xs : List (Entry S)) → P e → All P xs → All P (put e xs)
  unfolding put
  All-put P e [] p h = (p, tt)
  All-put P e (x ∷ xs) p h = ground (arith, All-put P e xs p h.1)

  length-put : (e : Entry S) (xs : List (Entry S)) → length (put e xs) ≡ suc (length xs)
  unfolding put
  length-put e [] = refl
  length-put e (x ∷ xs) = ground (arith, length-put e xs)

  before_trans : (a b c : Entry S) → before a b ≡ true → before b c ≡ true → before a c ≡ true
  before_trans a b c h k = ground arith

  -- An entry with the highest counter comes after all that it does not come before.
  before_of_newer : (e x : Entry S) → x.counter < e.counter → before e x ≡ false → before x e ≡ true
  before_of_newer e x h k = ground arith

  pub put-IsOrdered :
      (e : Entry S) (xs : List (Entry S))
      → All (λ x. x.counter < e.counter) xs
      → IsOrdered xs
      → IsOrdered (put e xs)
  unfolding put
  put-IsOrdered e [] n o = (tt, tt)
  put-IsOrdered e (x ∷ xs) n o = elim (Bool-cases (before e x)) [
    | inl first ↦ rw first (
      (
        first,
        All-imply (λ y. before x y ≡ true) (λ y. before e y ≡ true) xs
            (λ y h. before_trans e x y first h) o.0,
      ),
      o,
    )
    | inr later ↦ rw later (
      All-put (λ y. before x y ≡ true) e xs (before_of_newer e x n.0 later) o.0,
      put-IsOrdered e xs n.1 o.1,
    )
  ]

  -- The signals of one priority, in the order of the list.
  abbrev pub of_priority : ℤ → List (Entry S) → List S
  of_priority p [] = []
  of_priority p (e ∷ es) =
      let rest = of_priority p es in if same e.priority p then e.signal ∷ rest else rest

  -- A newer entry that comes first has another priority.
  not_same_above :
      (p : ℤ) (e x : Entry S)
      → same e.priority p ≡ true
      → x.counter < e.counter
      → before e x ≡ true
      → same x.priority p ≡ false
  not_same_above p e x s n h = ground arith

  of_priority-above :
      (p : ℤ) (e : Entry S) (xs : List (Entry S))
      → same e.priority p ≡ true
      → All (λ x. x.counter < e.counter) xs
      → All (λ y. before e y ≡ true) xs
      → of_priority p xs ≡ []
  of_priority-above p e [] s n h = refl
  of_priority-above p e (x ∷ xs) s n h =
      rw (not_same_above p e x s n.0 h.0) (of_priority-above p e xs s n.1 h.1)

  -- A new entry comes last among those of its priority.
  pub of_priority-put :
      (p : ℤ) (e : Entry S) (xs : List (Entry S))
      → All (λ x. x.counter < e.counter) xs
      → IsOrdered xs
      → of_priority p (put e xs)
        ≡ (if same e.priority p then of_priority p xs ++ e.signal ∷ [] else of_priority p xs)
  unfolding put
  of_priority-put p e [] n o = ground arith
  of_priority-put p e (x ∷ xs) n o = elim (Bool-cases (before e x)) [
    | inl first ↦ rw first (elim (Bool-cases (same e.priority p)) [
      | inl alike ↦ rw (
        alike,
        of_priority-above p e (x ∷ xs) alike n (
          first,
          All-imply (λ y. before x y ≡ true) (λ y. before e y ≡ true) xs
              (λ y h. before_trans e x y first h) o.0,
        ),
      )
      | inr other ↦ rw other
    ])
    | inr later ↦
        rw (later, of_priority-put p e xs n.1 o.1)
          (elim (Bool-cases (same x.priority p)) [
            | inl a ↦ rw a (elim (Bool-cases (same e.priority p)) [ inl b ↦ rw b | inr b ↦ rw b ])
            | inr a ↦ rw a (elim (Bool-cases (same e.priority p)) [ inl b ↦ rw b | inr b ↦ rw b ])
          ])
  ]

  -- `push` keeps the invariant, and refuses exactly if the queue is full.
  newer : (q : SignalQueue S) → IsValid q → All (λ x. x.counter < suc q.counter) q.entries
  newer q v = All-imply (λ x. x.counter ≤ q.counter) _ q.entries (λ x h. omega arith) v.counted

  pub push-IsValid : (s : S) (p : ℤ) (q : SignalQueue S) → IsValid q → IsValid (push s p q).1
  unfolding push full size
  push-IsValid s p q v = elim (Bool-cases (full q)) [
    | inl no_room ↦ rw no_room v
    | inr room ↦
        let e : Entry S = record { priority = p; counter = suc q.counter; signal = s } in
        rw room (record {
          ordered = put-IsOrdered e q.entries (newer q v) v.ordered;
          counted =
              All-put (λ x. x.counter ≤ suc q.counter) e q.entries (omega arith)
                (All-imply (λ x. x.counter ≤ q.counter) _ q.entries (λ x h. omega arith) v.counted);
          fits = fits_one_more q e room v.fits;
        })
  ]
    where
      fits_one_more :
          (q : SignalQueue S) (e : Entry S)
          → full q ≡ false
          → Fits q.max_size (length q.entries)
          → Fits q.max_size (length (put e q.entries))
      fits_one_more q e room f = ground (arith, length-put e q.entries)

  pop-IsValid' :
      (m : Option ℕ) (es : List (Entry S)) (c : ℕ)
      → IsValid (record { max_size = m; entries = es; counter = c })
      → IsValid (pop (record { max_size = m; entries = es; counter = c })).1
  unfolding pop
  pop-IsValid' m [] c v = v
  pop-IsValid' m (e ∷ es) c v = record {
    ordered = v.ordered.1;
    counted = v.counted.1;
    fits = Fits-less m (length es) v.fits;
  }

  pub pop-IsValid : (q : SignalQueue S) → IsValid q → IsValid (pop q).1
  pop-IsValid q v = pop-IsValid' q.max_size q.entries q.counter v

-- Any sequence of pushes and pops.
pub data Op {ℓ} (S : Type ℓ) : Type ℓ where
  pushed : S → ℤ → Op S
  popped : Op S

module _ {ℓ} {S : Type ℓ} where
  abbrev pub run : List (Op S) → SignalQueue S → SignalQueue S
  run [] q = q
  run (pushed s p ∷ ops) q = run ops (push s p q).1
  run (popped ∷ ops) q = run ops (pop q).1

  run-IsValid : (ops : List (Op S)) (q : SignalQueue S) → IsValid q → IsValid (run ops q)
  run-IsValid [] q v = v
  run-IsValid (pushed s p ∷ ops) q v = run-IsValid ops (push s p q).1 (push-IsValid s p q v)
  run-IsValid (popped ∷ ops) q v = run-IsValid ops (pop q).1 (pop-IsValid q v)

  -- After any sequence of pushes and pops on a new queue, its entries are in strictly ascending
  -- order of priority and counter, no counter passes the last one given, and the bound on its
  -- size holds.
  pub run_new-IsValid : (m : Option ℕ) (ops : List (Op S)) → IsValid (run ops (new_queue m))
  run_new-IsValid m ops = run-IsValid ops (new_queue m) (new_queue-IsValid m)

  -- A push onto a valid queue is refused exactly if the queue is full, and then changes nothing;
  -- otherwise the signal comes last among those of its priority, and the signals of every other
  -- priority stay as they were.
  pub push_is_fifo :
      (s : S) (p : ℤ) (q : SignalQueue S)
      → IsValid q
      → ((push s p q).0 ≡ not (full q))
        × (full q ≡ true → (push s p q).1 ≡ q)
        × (full q ≡ false
            → (k : ℤ)
            → of_priority k (push s p q).1.entries
              ≡ (if same p k then of_priority k q.entries ++ s ∷ [] else of_priority k q.entries))
  unfolding push
  push_is_fifo s p q v = (
    elim (Bool-cases (full q)) [ inl no_room ↦ rw no_room | inr room ↦ rw room ],
    λ no_room. rw no_room,
    λ room k. rw room (
        of_priority-put k (record { priority = p; counter = suc q.counter; signal = s }) q.entries
          (newer q v) v.ordered),
  )
