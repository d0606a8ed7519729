-- ===== src/Reconcile/Ledger.antt =====
-- monitoring/state_reconciler.py: the account of all changes.
use engine_bot.Shared.{
  ◌≡◌, ◌∙◌, ap, refl, inl, inr, Bool, true, false, not, Option, none, some, List, [], ◌∷◌, ◌++◌,
  All, arith, Bool-cases, if◌then◌else◌,
}
use engine_bot.Shared.Int.{ℤ, pos, ◌+ℤ◌, ◌-ℤ◌, int_laws, of_eq}
use engine_bot.Reconcile.Balance.{
  BalanceAdjustment, SolFloat, Local, StateReconciler, get_local_balance, apply_adjustment,
  is_within, adjustment, check_and_reconcile,
}

-- The sum of the differences that were applied.
abbrev pub applied : List BalanceAdjustment → ℤ
applied [] = pos 0
applied (a ∷ xs) = (if a.is_adjusted then a.delta else pos 0) +ℤ applied xs

applied-append : (xs ys : List BalanceAdjustment) → applied (xs ++ ys) ≡ applied xs +ℤ applied ys
applied-append [] ys = omega int_laws
applied-append (a ∷ xs) ys = omega (int_laws, of_eq (applied-append xs ys))

module _ {F : Type 0} (sol : SolFloat F) where
  -- Checks one after another, each with the answer to its request and its time.
  unfoldable pub check_all : List (Option ℤ × ℤ) → StateReconciler F → StateReconciler F
  check_all [] r = r
  check_all (c ∷ cs) r = check_all cs (check_and_reconcile sol c.0 c.1 r).1

  -- What the local balance was before all adjustments.
  abbrev pub opening : StateReconciler F → ℤ
  opening r = get_local_balance sol r.local -ℤ applied r.adjustments

  -- The portfolio, once it holds this balance, gives it back: always where it counts lamports,
  -- and as a float if the two conversions lose nothing.
  abbrev pub IsReadBack : Local F → Option ℤ → Type 0
  IsReadBack (Local.bankroll x) (some n) =
      (if sol.is_nonzero (sol.of_lamports n) then sol.to_lamports (sol.of_lamports n) else pos 0)
      ≡ n
  IsReadBack local answer = Unit

  get-apply_adjustment :
      (n : ℤ) (local : Local F)
      → IsReadBack local (some n)
      → get_local_balance sol (apply_adjustment sol n local) ≡ n
  unfolding get_local_balance apply_adjustment
  get-apply_adjustment n (Local.bankroll_lamports old) b = refl
  get-apply_adjustment n (Local.bankroll old) b = b
  get-apply_adjustment n (Local.balance_methods old) b = refl
  get-apply_adjustment n (Local.balance old) b = refl

  -- An adjustment does not change which interface the portfolio has.
  IsReadBack-after :
      (n : ℤ) (local : Local F) (answer : Option ℤ)
      → IsReadBack local answer
      → IsReadBack (apply_adjustment sol n local) answer
  unfolding apply_adjustment
  IsReadBack-after n (Local.bankroll_lamports old) answer b = tt
  IsReadBack-after n (Local.bankroll old) none b = tt
  IsReadBack-after n (Local.bankroll old) (some m) b = b
  IsReadBack-after n (Local.balance_methods old) answer b = tt
  IsReadBack-after n (Local.balance old) answer b = tt

  settle :
      (dry : Bool) (onchain s : ℤ) (local : Local F)
      → IsReadBack local (some onchain)
      → get_local_balance sol (if dry then local else apply_adjustment sol onchain local)
          -ℤ (s +ℤ ((if not dry then onchain -ℤ get_local_balance sol local else pos 0) +ℤ pos 0))
        ≡ get_local_balance sol local -ℤ s
  settle true onchain s local b = omega int_laws
  settle false onchain s local b = omega (int_laws, of_eq (get-apply_adjustment onchain local b))

  check-opening :
      (answer : Option ℤ) (now : ℤ) (r : StateReconciler F)
      → IsReadBack r.local answer
      → opening (check_and_reconcile sol answer now r).1 ≡ opening r
  unfolding check_and_reconcile adjustment
  check-opening none now r b = refl
  check-opening (some onchain) now r b =
      elim (Bool-cases (is_within (onchain -ℤ get_local_balance sol r.local) r.config)) [
        | inl within ↦ rw within refl
        | inr beyond ↦ rw beyond (
            ap
              (λ t.
                get_local_balance sol
                  (if r.dry_run then r.local else apply_adjustment sol onchain r.local)
                -ℤ t)
              (applied-append r.adjustments (adjustment sol onchain now r ∷ []))
            ∙ settle r.dry_run onchain (applied r.adjustments) r.local b)
      ]

  check-IsReadBack :
      (answer other : Option ℤ) (now : ℤ) (r : StateReconciler F)
      → IsReadBack r.local other
      → IsReadBack (check_and_reconcile sol answer now r).1.local other
  unfolding check_and_reconcile
  check-IsReadBack none other now r b = b
  check-IsReadBack (some onchain) other now r b =
      elim (Bool-cases (is_within (onchain -ℤ get_local_balance sol r.local) r.config)) [
        | inl within ↦ rw within b
        | inr beyond ↦ rw beyond (elim (Bool-cases r.dry_run) [
          | inl dry ↦ rw dry b
          | inr live ↦ rw live (IsReadBack-after onchain r.local other b)
        ])
      ]

  All-IsReadBack :
      (answer : Option ℤ) (now : ℤ) (cs : List (Option ℤ × ℤ)) (r : StateReconciler F)
      → All (λ c. IsReadBack r.local c.0) cs
      → All (λ c. IsReadBack (check_and_reconcile sol answer now r).1.local c.0) cs
  All-IsReadBack answer now [] r b = tt
  All-IsReadBack answer now (c ∷ cs) r b =
      (check-IsReadBack answer c.0 now r b.0, All-IsReadBack answer now cs r b.1)

  -- Every change of the local balance by the reconciler is on record: over every sequence of
  -- checks, failed requests and dry runs included, the local balance changes by the sum of the
  -- differences that are recorded as applied. Where the portfolio keeps its balance as a float of
  -- coins, this asks that each balance which a request of the run answers, converted to a float
  -- and back, is the same.
  pub check_all-opening :
      (cs : List (Option ℤ × ℤ)) (r : StateReconciler F)
      → All (λ c. IsReadBack r.local c.0) cs
      → opening (check_all cs r) ≡ opening r
  unfolding check_all
  check_all-opening [] r b = refl
  check_all-opening (c ∷ cs) r b =
      check_all-opening cs (check_and_reconcile sol c.0 c.1 r).1 (All-IsReadBack c.0 c.1 cs r b.1)
      ∙ check-opening c.0 c.1 r b.0

  check-dry :
      (answer : Option ℤ) (now : ℤ) (r : StateReconciler F)
      → r.dry_run ≡ true
      → ((check_and_reconcile sol answer now r).1.local ≡ r.local)
        × ((check_and_reconcile sol answer now r).1.dry_run ≡ true)
  unfolding check_and_reconcile
  check-dry none now r dry = (refl, dry)
  check-dry (some onchain) now r dry = ground (arith, dry)

  -- A dry run never changes the local balance.
  pub dry_run_keeps :
      (cs : List (Option ℤ × ℤ)) (r : StateReconciler F)
      → r.dry_run ≡ true
      → (check_all cs r).local ≡ r.local
  unfolding check_all
  dry_run_keeps [] r dry = refl
  dry_run_keeps (c ∷ cs) r dry =
      let kept = check-dry c.0 c.1 r dry in
      dry_run_keeps cs (check_and_reconcile sol c.0 c.1 r).1 kept.1 ∙ kept.0
