-- ===== src/Fills/Lookups.antt =====
-- What each operation of the handler does to the record of a signal.
use engine_bot.Shared.{
  ◌≡◌, refl, inl, inr, String, str_eq, eq_iff, Option, none, some, List, [], ◌∷◌, All, arith,
  Bool-cases, Option-cases, if◌then◌else◌,
}
use engine_bot.Shared.Int.{ℤ, pos, ◌+ℤ◌, leb_ℤ, int_laws}
use engine_bot.Shared.Dict.{
  lookup, modify, map_some, lookup-insert, lookup-modify, All-insert, All-modify,
}
use engine_bot.Fills.Handler.{
  FillStatus, completed, closed, PartialFill, FillAdjustment, Handler, log_adjustment, Fill,
  new_partial, filled_more, on_partial_fill, is_pending, remaining, get_remaining_amount,
  set_status, notify_again, close_with, close_adjustment, force_close_remaining,
}

-- Every record stands under its own signal.
abbrev pub IsKeyed : Handler → Type 0
IsKeyed h = All (λ e. e.0 ≡ e.1.signal_id) h.partials

-- The amount that is filled for a signal.
abbrev pub filled_of : Option PartialFill → ℤ
filled_of none = pos 0
filled_of (some p) = p.filled_amount

abbrev pub amount_for : String → Fill → ℤ
amount_for k f = if str_eq f.signal_id k then f.filled_amount else pos 0

filled-on_partial_fill :
    (k : String) (f : Fill) (now : ℤ) (h : Handler)
    → filled_of (lookup k (on_partial_fill f now h).1.partials)
      ≡ filled_of (lookup k h.partials) +ℤ amount_for k f
unfolding on_partial_fill log_adjustment filled_more new_partial
filled-on_partial_fill k f now h = elim (Option-cases (lookup f.signal_id h.partials)) [
  | inl new ↦
      grind
        (int_laws, eq_iff f.signal_id k, lookup-insert f.signal_id k (new_partial f now) h.partials)
  | inr (p, old) ↦
      grind
        (int_laws, eq_iff f.signal_id k, lookup-modify f.signal_id k (filled_more f now) h.partials)
]

-- A sequence of fills, each with its time.
abbrev pub fill_all : List (Fill × ℤ) → Handler → Handler
fill_all [] h = h
fill_all ((f, now) ∷ fs) h = fill_all fs (on_partial_fill f now h).1

abbrev pub total_for : String → List (Fill × ℤ) → ℤ
total_for k [] = pos 0
total_for k ((f, now) ∷ fs) = amount_for k f +ℤ total_for k fs

-- After any sequence of fills, of this signal and of others, the filled amount of a signal is
-- what it was before (zero if it had no record) plus the sum of the fills of that signal.
pub filled-fill_all :
    (k : String) (fs : List (Fill × ℤ)) (h : Handler)
    → filled_of (lookup k (fill_all fs h).partials)
      ≡ filled_of (lookup k h.partials) +ℤ total_for k fs
filled-fill_all k [] h = omega int_laws
filled-fill_all k ((f, now) ∷ fs) h =
    rw (filled-fill_all k fs (on_partial_fill f now h).1, filled-on_partial_fill k f now h)
      (omega int_laws)

-- The record after a forced close: closed, or completed if nothing remains.
abbrev pub settled : PartialFill → PartialFill
settled p =
    if is_pending p
    then (if leb_ℤ (remaining p) (pos 0) then set_status completed p else set_status closed p)
    else p

partials-close_with :
    (a : FillAdjustment) (h : Handler)
    → (close_with a h).1.partials ≡ modify a.signal_id (set_status closed) h.partials
unfolding close_with notify_again log_adjustment
partials-close_with a h = elim (Option-cases h.on_adjustment) [
  | inl none_set ↦ rw (none_set, close_with, notify_again)
  | inr (f, e) ↦ rw (e, close_with, notify_again)
]

pub remaining_found :
    (k : String) (h : Handler) (p : PartialFill)
    → lookup k h.partials ≡ some p
    → get_remaining_amount k h ≡ remaining p
unfolding get_remaining_amount
remaining_found k h p found = ground (arith, found)

pub lookup-force_close :
    (j k : String) (price : ℤ) (reason : String) (now : ℤ) (h : Handler)
    → lookup k (force_close_remaining j price reason now h).1.partials
      ≡ (if str_eq j k then map_some settled (lookup k h.partials) else lookup k h.partials)
unfolding force_close_remaining close_adjustment
lookup-force_close j k price reason now h = elim (Option-cases (lookup j h.partials)) [
  | inl gone ↦ ground (arith, gone, eq_iff j k)
  | inr (p, found) ↦ ground (
    arith,
    found,
    eq_iff j k,
    remaining_found j h p found,
    partials-close_with (close_adjustment j price reason now p) h,
    lookup-modify j k (set_status closed) h.partials,
    lookup-modify j k (set_status completed) h.partials,
  )
]

pub on_partial_fill-IsKeyed :
    (f : Fill) (now : ℤ) (h : Handler) → IsKeyed h → IsKeyed (on_partial_fill f now h).1
unfolding on_partial_fill log_adjustment new_partial filled_more
on_partial_fill-IsKeyed f now h v = elim (Option-cases (lookup f.signal_id h.partials)) [
  | inl new ↦
      rw (new, on_partial_fill)
        (All-insert (λ e. e.0 ≡ e.1.signal_id) f.signal_id (new_partial f now) h.partials v refl)
  | inr (p, old) ↦
      rw (old, on_partial_fill)
        (All-modify (λ e. e.0 ≡ e.1.signal_id) f.signal_id (filled_more f now) h.partials (λ e s. s)
          v)
]

modify-IsKeyed :
    (k : String) (s : FillStatus) (h : Handler)
    → IsKeyed h
    → All (λ e. e.0 ≡ e.1.signal_id) (modify k (set_status s) h.partials)
modify-IsKeyed k s h v =
    All-modify (λ e. e.0 ≡ e.1.signal_id) k (set_status s) h.partials (λ e q. q) v

pub force_close-IsKeyed :
    (j : String) (price : ℤ) (reason : String) (now : ℤ) (h : Handler)
    → IsKeyed h
    → IsKeyed (force_close_remaining j price reason now h).1
unfolding force_close_remaining close_adjustment
force_close-IsKeyed j price reason now h v = elim (Option-cases (lookup j h.partials)) [
  | inl gone ↦ rw (gone, force_close_remaining) v
  | inr (p, found) ↦
      rw (found, force_close_remaining)
        (elim (Bool-cases (is_pending p)) [
          | inr idle ↦ rw idle v
          | inl live ↦
              rw (live, remaining_found j h p found)
                (elim (Bool-cases (leb_ℤ (remaining p) (pos 0))) [
                  | inl done ↦ rw done (modify-IsKeyed j completed h v)
                  | inr more ↦ rw more (
                      rw (partials-close_with (close_adjustment j price reason now p) h)
                        (modify-IsKeyed j closed h v))
                ])
        ])
]
