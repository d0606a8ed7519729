-- ===== src/Portfolio/Assets.antt =====
-- What a portfolio owns, over any sequence of fills.
use engine_bot.Shared.{
  ◌≤◌, ◌<◌, ◌≡◌, ◌⊎◌, ◌∙◌, refl, inl, inr, String, str_eq, eq_iff, true, false, none, some, List,
  [], ◌∷◌, length, arith, Bool-cases, Option-cases,
}
use engine_bot.Shared.Int.{ℤ, pos, ◌+ℤ◌, ◌-ℤ◌, int_laws, of_eq}
use engine_bot.Shared.Dict.{
  Dict, lookup, contains, insert, erase, IsUnique, length-insert, length-erase-le, insert-IsUnique,
  erase-IsUnique, erase-missing,
}
use mathlib.Core.Path.{subst}
use mathlib.Core.Option.{some-injective}
use engine_bot.Portfolio.State.{
  Position, PortfolioState, StateUpdateParams, FillError, can_open_position, can_increase_exposure,
  position_not_found, unknown_side,
}
use engine_bot.Portfolio.Update.{
  FillEvent, new_position, entered, exited, transition_on_entry, transition_on_exit,
  apply_fill_event,
}

-- A sum over the open positions.
abbrev pub weigh : (Position → ℤ) → Dict Position → ℤ
weigh w [] = pos 0
weigh w (e ∷ d) = w e.1 +ℤ weigh w d

pub weigh-insert :
    (w : Position → ℤ) (k : String) (p : Position) (d : Dict Position)
    → contains k d ≡ false
    → weigh w (insert k p d) ≡ weigh w d +ℤ w p
unfolding insert contains
weigh-insert w k p [] new = omega int_laws
weigh-insert w k p (e ∷ d) new = elim (Bool-cases (str_eq e.0 k)) [
  | inl same ↦ ground (arith, same, new)
  | inr other ↦ rw other (omega (int_laws, of_eq (weigh-insert w k p d (rw other at new))))
]

pub weigh-erase :
    (w : Position → ℤ) (k : String) (p : Position) (d : Dict Position)
    → IsUnique d
    → lookup k d ≡ some p
    → weigh w (erase k d) +ℤ w p ≡ weigh w d
unfolding erase lookup
weigh-erase w k p [] u found = cc
weigh-erase w k p (e ∷ d) u found = elim (Bool-cases (str_eq e.0 k)) [
  | inl same ↦
      let is : e.1 ≡ p = some-injective _ _ (rw same at found) in
      let gone : contains k d ≡ false =
        subst (λ j. contains j d ≡ false) ((eq_iff e.0 k).0 same) u.0 in
      rw (same, erase-missing k d gone, is) (omega int_laws)
  | inr other ↦ rw other (omega (int_laws, of_eq (weigh-erase w k p d u.1 (rw other at found))))
]

weigh-insert_old :
    (w : Position → ℤ) (k : String) (p q : Position) (d : Dict Position)
    → lookup k d ≡ some q
    → weigh w (insert k p d) +ℤ w q ≡ weigh w d +ℤ w p
unfolding insert lookup
weigh-insert_old w k p q [] found = cc
weigh-insert_old w k p q (e ∷ d) found = elim (Bool-cases (str_eq e.0 k)) [
  | inl same ↦
      let is : e.1 ≡ q = some-injective _ _ (rw same at found) in rw (same, is) (omega int_laws)
  | inr other ↦ rw other (omega (int_laws, of_eq (weigh-insert_old w k p q d (rw other at found))))
]

-- The bankroll with the sizes of all open positions.
abbrev pub assets : PortfolioState → ℤ
assets s = s.bankroll_usd +ℤ weigh (λ p. p.size_usd) s.open_positions

-- What a fill does, if it does anything.
pub fill-cases :
    (e : FillEvent) (params : StateUpdateParams) (s : PortfolioState)
    → ((reason : FillError) × (apply_fill_event e params s ≡ (s, some reason)))
      ⊎ ((str_eq e.side "BUY" ≡ true)
          × (can_open_position s params ≡ none)
          × (can_increase_exposure s e.token_mint e.wallet_address e.size_usd params ≡ none)
          × (apply_fill_event e params s ≡ (entered e s, none)))
      ⊎ ((str_eq e.side "BUY" ≡ false)
          × ((p : Position) × (lookup e.signal_id s.open_positions ≡ some p)
              × (apply_fill_event e params s ≡ (exited e p s, none))))
unfolding apply_fill_event transition_on_entry transition_on_exit
fill-cases e params s = elim (Bool-cases (str_eq e.side "BUY")) [
  | inl buy ↦ elim (Option-cases (can_open_position s params)) [
    | inr (reason, full) ↦ inl (reason, ground (arith, buy, full))
    | inl room ↦
        elim (Option-cases
          (can_increase_exposure s e.token_mint e.wallet_address e.size_usd params)) [
            | inr (reason, over) ↦ inl (reason, ground (arith, buy, room, over))
            | inl within ↦ inr (inl (buy, room, within, ground (arith, buy, room, within)))
          ]
  ]
  | inr other ↦ elim (Bool-cases (str_eq e.side "SELL")) [
    | inr neither ↦ inl (unknown_side e.side, ground (arith, other, neither))
    | inl sell ↦ elim (Option-cases (lookup e.signal_id s.open_positions)) [
      | inl gone ↦ inl (position_not_found e.signal_id, ground (arith, other, sell, gone))
      | inr (p, found) ↦ inr (inr (other, (p, found, ground (arith, other, sell, found))))
    ]
  ]
]

-- A sequence of fills, each as it is accepted or refused.
abbrev pub fill_all : List FillEvent → StateUpdateParams → PortfolioState → PortfolioState
fill_all [] params s = s
fill_all (e ∷ es) params s = fill_all es params (apply_fill_event e params s).0

-- No fill buys a signal that is open at its time.
abbrev pub BuysAreNew : List FillEvent → StateUpdateParams → PortfolioState → Type 0
BuysAreNew [] params s = Unit
BuysAreNew (e ∷ es) params s =
    (str_eq e.side "BUY" ≡ true → contains e.signal_id s.open_positions ≡ false)
    × BuysAreNew es params (apply_fill_event e params s).0

-- The book of open positions is in order.
pub record IsBooked (params : StateUpdateParams) (s : PortfolioState) : Type 0 where
  pub unique : IsUnique s.open_positions
  pub counted : s.open_position_count ≡ length s.open_positions
  pub room : s.open_position_count ≤ params.max_positions

entered-room :
    (e : FillEvent) (params : StateUpdateParams) (s : PortfolioState)
    → can_open_position s params ≡ none
    → s.open_position_count < params.max_positions
unfolding can_open_position
entered-room e params s free = ground arith

pub fill-IsBooked :
    (e : FillEvent) (params : StateUpdateParams) (s : PortfolioState)
    → IsBooked params s
    → IsBooked params (apply_fill_event e params s).0
unfolding entered exited
fill-IsBooked e params s b = elim (fill-cases e params s) [
  | inl (reason, same) ↦ rw same b
  | inr (inl (buy, free, within, same)) ↦ rw same (record {
    unique = insert-IsUnique e.signal_id (new_position e) s.open_positions b.unique;
    counted = refl;
    room = ground (
      arith,
      entered-room e params s free,
      b.counted,
      b.room,
      length-insert e.signal_id (new_position e) s.open_positions,
    );
  })
  | inr (inr (other, (p, found, same))) ↦ rw same (record {
    unique = erase-IsUnique e.signal_id s.open_positions b.unique;
    counted = refl;
    room = omega (arith, b.counted, b.room, length-erase-le e.signal_id s.open_positions);
  })
]

-- The assets less the day's profit.
abbrev pub base : PortfolioState → ℤ
base s = assets s -ℤ s.daily_pnl_usd

fill-base :
    (e : FillEvent) (params : StateUpdateParams) (s : PortfolioState)
    → IsUnique s.open_positions
    → (str_eq e.side "BUY" ≡ true → contains e.signal_id s.open_positions ≡ false)
    → base (apply_fill_event e params s).0 ≡ base s
unfolding entered exited new_position
fill-base e params s u new = elim (fill-cases e params s) [
  | inl (reason, same) ↦ rw same refl
  | inr (inl (buy, free, within, same)) ↦ rw same (
      omega (
        int_laws,
        of_eq (
            weigh-insert (λ p. p.size_usd) e.signal_id (new_position e) s.open_positions (new buy)),
      ))
  | inr (inr (other, (p, found, same))) ↦ rw same (
      omega
        (int_laws, of_eq (weigh-erase (λ p. p.size_usd) e.signal_id p s.open_positions u found)))
]

-- No money is made or lost by the bookkeeping: over every sequence of fills, refused ones
-- included, in which no open signal is bought again, the bankroll with the sizes of all open
-- positions changes by exactly the day's profit; and the positions stay distinct, rightly
-- counted and at most `max_positions`.
pub fill_all-assets :
    (es : List FillEvent) (params : StateUpdateParams) (s : PortfolioState)
    → IsBooked params s
    → BuysAreNew es params s
    → (assets (fill_all es params s) -ℤ (fill_all es params s).daily_pnl_usd
        ≡ assets s -ℤ s.daily_pnl_usd)
      × IsBooked params (fill_all es params s)
fill_all-assets [] params s b new = (refl, b)
fill_all-assets (e ∷ es) params s b new =
    let s' = (apply_fill_event e params s).0 in
    let (kept, booked) = fill_all-assets es params s' (fill-IsBooked e params s b) new.1 in
    (kept ∙ fill-base e params s b.unique new.0, booked)

-- Buying a signal that is open takes its old position out of the books without paying for it: if
-- the fill is accepted, the assets fall by the old position's size.
rebuying_loses :
    (e : FillEvent) (params : StateUpdateParams) (s : PortfolioState) (old : Position)
    → lookup e.signal_id s.open_positions ≡ some old
    → str_eq e.side "BUY" ≡ true
    → (apply_fill_event e params s).1 ≡ none
    → assets (apply_fill_event e params s).0 ≡ assets s -ℤ old.size_usd
unfolding entered new_position
rebuying_loses e params s old found buy accepted = elim (fill-cases e params s) [
  | inl (reason, same) ↦ ground (arith, same, accepted)
  | inr (inl (buy', free, within, same)) ↦ rw same (
      omega (
        int_laws,
        of_eq (
            weigh-insert_old (λ p. p.size_usd) e.signal_id (new_position e) old s.open_positions
              found),
      ))
  | inr (inr (other, (p, found', same))) ↦ ground (arith, other, buy)
]
