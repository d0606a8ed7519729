-- ===== src/Fills/Timeouts.antt =====
-- What the loop of `check_timeouts` leaves of each record.
use engine_bot.Shared.{
  ◌≡◌, ◌∙◌, ap, refl, inl, inr, String, str_eq, eq_iff, Bool, true, false, Option, none, some, List,
  [], ◌∷◌, All, keep, arith, Bool-cases, Option-cases, if◌then◌else◌,
}
use engine_bot.Shared.Int.{ℤ, pos, leb_ℤ}
use engine_bot.Shared.Dict.{Dict, lookup, map_some, values}
use engine_bot.Shared.Results.{Result, ok, err}
use engine_bot.Fills.Handler.{
  PartialFill, FillAdjustment, Handler, log_adjustment, is_pending, has_expired, is_expired,
  remaining, CallbackError, notify_again, close_with, force_close_remaining, get_pending_partials,
  after_close, add_found, timeout_loop, check_timeouts,
}
use engine_bot.Fills.Lookups.{IsKeyed, settled, lookup-force_close, remaining_found}

-- What the timeout check makes of a record.
abbrev pub resolved : ℤ → ℤ → PartialFill → PartialFill
resolved timeout now p = if has_expired timeout now p then settled p else p

resolved-resolved :
    (timeout now : ℤ) (p : PartialFill)
    → resolved timeout now (resolved timeout now p) ≡ resolved timeout now p
unfolding has_expired is_pending
resolved-resolved timeout now p = ground arith

resolved-idle :
    (timeout now : ℤ) (p : PartialFill) → is_pending p ≡ false → resolved timeout now p ≡ p
unfolding has_expired
resolved-idle timeout now p h = ground arith

-- The body of the loop for one signal.
abbrev check_one :
    ℤ → PartialFill → Handler → Result CallbackError (Option FillAdjustment) × Handler
check_one now p h =
    if is_expired p.signal_id now h
    then force_close_remaining p.signal_id p.entry_price "partial_timeout" now h
    else (ok none, h)

lookup-check_one :
    (k : String) (now : ℤ) (p : PartialFill) (h : Handler)
    → lookup k (check_one now p h).1.partials ≡ (
        if str_eq p.signal_id k
        then map_some (resolved h.timeout_sec now) (lookup k h.partials)
        else lookup k h.partials)
unfolding is_expired has_expired
lookup-check_one k now p h = elim (Option-cases (lookup p.signal_id h.partials)) [
  | inl gone ↦ ground (arith, gone, eq_iff p.signal_id k)
  | inr (q, found) ↦ ground (
    arith,
    found,
    eq_iff p.signal_id k,
    lookup-force_close p.signal_id k p.entry_price "partial_timeout" now h,
  )
]

-- The callback, if there is one, never raises.
abbrev pub IsQuiet : Option (FillAdjustment → Bool) → Type 0
IsQuiet none = Unit
IsQuiet (some f) = (a : FillAdjustment) → f a ≡ true

abbrev pub IsOk : {A : Type 0} → Result CallbackError A → Type 0
IsOk (ok a) = Unit
IsOk (err e) = ⊥

notify_again-IsOk :
    (a : FillAdjustment) (h : Handler) → IsQuiet h.on_adjustment → IsOk (notify_again a h).0
unfolding notify_again
notify_again-IsOk a h q = elim (Option-cases h.on_adjustment) [
  | inl none_set ↦ rw (none_set, notify_again) tt
  | inr (f, e) ↦ let quiet : IsQuiet (some f) = rw e at q in rw (e, notify_again) (rw (quiet a) tt)
]

check_one-IsOk :
    (now : ℤ) (p : PartialFill) (h : Handler) → IsQuiet h.on_adjustment → IsOk (check_one now p h).0
unfolding force_close_remaining close_with log_adjustment
check_one-IsOk now p h q = elim (Bool-cases (is_expired p.signal_id now h)) [
  | inr fresh ↦ rw fresh tt
  | inl old ↦ rw old (elim (Option-cases (lookup p.signal_id h.partials)) [
    | inl gone ↦ rw (gone, force_close_remaining) tt
    | inr (r, found) ↦
        rw (found, force_close_remaining)
          (elim (Bool-cases (is_pending r)) [
            | inr idle ↦ rw idle tt
            | inl live ↦
                rw (live, remaining_found p.signal_id h r found)
                  (elim (Bool-cases (leb_ℤ (remaining r) (pos 0))) [
                    | inl done ↦ rw done tt
                    | inr more ↦ rw more (notify_again-IsOk _ _ q)
                  ])
          ])
  ])
]

-- The settings that no operation touches.
abbrev SameSettings : Handler → Handler → Type 0
SameSettings h' h = (h'.timeout_sec ≡ h.timeout_sec) × (h'.on_adjustment ≡ h.on_adjustment)

check_one-SameSettings :
    (now : ℤ) (p : PartialFill) (h : Handler) → SameSettings (check_one now p h).1 h
unfolding force_close_remaining close_with log_adjustment notify_again
check_one-SameSettings now p h = ground arith

after_close-state :
    (rest : Handler → Result CallbackError (List FillAdjustment) × Handler)
    (r : Result CallbackError (Option FillAdjustment) × Handler)
    → IsOk r.0
    → (IsOk (rest r.1).0 → IsOk (after_close rest r).0) × ((after_close rest r).1 ≡ (rest r.1).1)
after_close-state rest (ok none, h) i = (λ j. j, refl)
after_close-state rest (ok (some a), h) i = (add_found-IsOk a (rest h).0, refl)
  where
    add_found-IsOk :
        (a : FillAdjustment) (r : Result CallbackError (List FillAdjustment))
        → IsOk r
        → IsOk (add_found (some a) r)
    add_found-IsOk a (ok rs) j = tt
    add_found-IsOk a (err e) j = j
after_close-state rest (err e, h) i = absurd i

timeout_loop-cons :
    (now : ℤ) (p : PartialFill) (ps : List PartialFill) (h : Handler)
    → timeout_loop now (p ∷ ps) h ≡ after_close (timeout_loop now ps) (check_one now p h)
unfolding timeout_loop
timeout_loop-cons now p ps h = elim (Bool-cases (is_expired p.signal_id now h)) [
  | inl old ↦ rw old refl
  | inr fresh ↦ rw fresh refl
]

abbrev names : String → List PartialFill → Bool
names k [] = false
names k (p ∷ ps) = if str_eq p.signal_id k then true else names k ps

-- A record that two rounds of the loop reach is resolved once.
two_rounds :
    (timeout now : ℤ) (a b : Bool) (o : Option PartialFill)
    → let r = map_some (resolved timeout now) in
      let o' = if a then r o else o in
      (if b then r o' else o') ≡ (if (if a then true else b) then r o else o)
two_rounds timeout now a b none = ground arith
two_rounds timeout now a b (some p) = ground (arith, resolved-resolved timeout now p)

timeout_loop-resolves :
    (k : String) (now : ℤ) (ps : List PartialFill) (h : Handler)
    → IsQuiet h.on_adjustment
    → IsOk (timeout_loop now ps h).0
      × (lookup k (timeout_loop now ps h).1.partials ≡ (
          if names k ps
          then map_some (resolved h.timeout_sec now) (lookup k h.partials)
          else lookup k h.partials))
timeout_loop-resolves k now [] h q = unfold timeout_loop in (tt, refl)
timeout_loop-resolves k now (p ∷ ps) h q =
    let h' = (check_one now p h).1 in
    let same = check_one-SameSettings now p h in
    let step =
      after_close-state (timeout_loop now ps) (check_one now p h) (check_one-IsOk now p h q) in
    let ih = timeout_loop-resolves k now ps h' (rw same.1 q) in
    rw (timeout_loop-cons now p ps h) (
      step.0 ih.0,
      ap (λ (x : Handler). lookup k x.partials) step.1
          ∙ ih.1
          ∙ rw (same.0, lookup-check_one k now p h)
              (two_rounds h.timeout_sec now (str_eq p.signal_id k) (names k ps)
                (lookup k h.partials)),
    )

-- A pending record is among those that the loop goes through.
names-pending :
    (k : String) (p : PartialFill) (d : Dict PartialFill)
    → All (λ e. e.0 ≡ e.1.signal_id) d
    → lookup k d ≡ some p
    → is_pending p ≡ true
    → names k (keep is_pending (values d)) ≡ true
unfolding lookup
names-pending k p [] v found live = cc
names-pending k p (e ∷ d) v found live =
    ground (arith, v.0, eq_iff e.0 k, eq_iff e.1.signal_id k, names-pending k p d v.1)

-- The answer of the check, and the record of a signal after it.
pub lookup-check_timeouts :
    (k : String) (now : ℤ) (h : Handler)
    → IsKeyed h
    → IsQuiet h.on_adjustment
    → IsOk (check_timeouts now h).0
      × (lookup k (check_timeouts now h).1.partials
          ≡ map_some (resolved h.timeout_sec now) (lookup k h.partials))
unfolding check_timeouts get_pending_partials
lookup-check_timeouts k now h v q = (
  (timeout_loop-resolves k now (keep is_pending (values h.partials)) h q).0,
  (timeout_loop-resolves k now (keep is_pending (values h.partials)) h q).1
      ∙ elim (Option-cases (lookup k h.partials)) [
        | inl gone ↦ ground (arith, gone)
        | inr (p, found) ↦
            ground (
              arith,
              found,
              names-pending k p h.partials v found,
              resolved-idle h.timeout_sec now p,
            )
      ],
)
