-- ===== src/Portfolio/Exposure.antt =====
-- The exposures of the portfolio against its open positions.
use engine_bot.Shared.{
  ◌≡◌, ◌∙◌, ap, refl, inl, inr, String, str_eq, eq_iff, true, false, some, List, [], ◌∷◌, All,
  arith, Bool-cases, if◌then◌else◌,
}
use engine_bot.Shared.Int.{
  ℤ, pos, negsuc, ◌+ℤ◌, ◌-ℤ◌, ◌≤ℤ◌, is_zero, max_ℤ, int_laws, of_eq, +ℤ_parts,
}
use engine_bot.Shared.Dict.{
  Dict, lookup, contains, insert, erase, IsUnique, lookup-insert, lookup-erase, insert-IsUnique,
  erase-IsUnique, All-insert, All-erase,
}
use mathlib.Core.Path.{subst}
use engine_bot.Shared.Options.{get_or}
use engine_bot.Portfolio.State.{Position, PortfolioState, StateUpdateParams}
use engine_bot.Portfolio.Update.{
  FillEvent, new_position, raised, lowered, entered, exited, apply_fill_event,
}
use engine_bot.Portfolio.Assets.{weigh, weigh-insert, weigh-erase, fill-cases, fill_all}

-- The size of a position that counts for a key.
abbrev pub size_at : (Position → String) → String → Position → ℤ
size_at key t p = if str_eq (key p) t then p.size_usd else pos 0

abbrev pub value_at : String → Dict ℤ → ℤ
value_at t exposures = get_or (lookup t exposures) (pos 0)

-- Every key's exposure is the sum of the open sizes that count for it.
abbrev pub Tracks : (Position → String) → Dict ℤ → Dict Position → Type 0
Tracks key exposures d = (t : String) → value_at t exposures ≡ weigh (size_at key t) d

abbrev pub NoneNegative : Dict Position → Type 0
NoneNegative d = All (λ e. pos 0 ≤ℤ e.1.size_usd) d

value-raised :
    (k t : String) (amount : ℤ) (exposures : Dict ℤ)
    → value_at t (raised k amount exposures)
      ≡ (if str_eq k t then value_at k exposures +ℤ amount else value_at t exposures)
unfolding raised
value-raised k t amount exposures =
    ground (arith, lookup-insert k t (value_at k exposures +ℤ amount) exposures)

dropped :
    (k t : String) (left : ℤ) (exposures : Dict ℤ)
    → value_at t
        (if is_zero left then erase k (insert k left exposures) else insert k left exposures)
      ≡ (if str_eq k t then left else value_at t exposures)
dropped k t (pos n) exposures =
    ground
      (arith, lookup-insert k t (pos n) exposures, lookup-erase k t (insert k (pos n) exposures))
dropped k t (negsuc n) exposures = ground (arith, lookup-insert k t (negsuc n) exposures)

value-lowered :
    (k t : String) (amount : ℤ) (exposures : Dict ℤ)
    → value_at t (lowered k amount exposures) ≡ (
        if str_eq k t then max_ℤ (pos 0) (value_at k exposures -ℤ amount) else value_at t exposures)
unfolding lowered
value-lowered k t amount exposures =
    dropped k t (max_ℤ (pos 0) (value_at k exposures -ℤ amount)) exposures

weigh_nonneg :
    (key : Position → String) (t : String) (d : Dict Position)
    → NoneNegative d
    → pos 0 ≤ℤ weigh (size_at key t) d
weigh_nonneg key t [] h = omega arith
weigh_nonneg key t (e ∷ d) h =
    ground (arith, +ℤ_parts (size_at key t e.1) (weigh (size_at key t) d), weigh_nonneg key t d h.1)

raised-Tracks :
    (key : Position → String) (k : String) (p : Position) (exposures : Dict ℤ) (d : Dict Position)
    → contains k d ≡ false
    → Tracks key exposures d
    → Tracks key (raised (key p) p.size_usd exposures) (insert k p d)
raised-Tracks key k p exposures d new h t =
    value-raised (key p) t p.size_usd exposures ∙ elim (Bool-cases (str_eq (key p) t)) [
      | inl hit ↦
          let here : value_at (key p) exposures ≡ weigh (size_at key t) d =
            ap (λ j. value_at j exposures) ((eq_iff (key p) t).0 hit) ∙ h t in
          let size : size_at key t p ≡ p.size_usd = rw hit refl in
          rw hit (
            omega
              (int_laws, of_eq here, of_eq size, of_eq (weigh-insert (size_at key t) k p d new)))
      | inr miss ↦
          let size : size_at key t p ≡ pos 0 = rw miss refl in
          rw miss (
            omega
              (int_laws, of_eq (h t), of_eq size, of_eq (weigh-insert (size_at key t) k p d new)))
    ]

rest_max :
    (whole part rest : ℤ)
    → whole ≡ rest +ℤ part
    → pos 0 ≤ℤ rest
    → max_ℤ (pos 0) (whole -ℤ part) ≡ rest
rest_max whole part rest e h =
    let left : whole -ℤ part ≡ rest = omega (int_laws, of_eq e) in rw left (ground arith)

lowered-Tracks :
    (key : Position → String) (k : String) (p : Position) (exposures : Dict ℤ) (d : Dict Position)
    → IsUnique d
    → NoneNegative d
    → lookup k d ≡ some p
    → Tracks key exposures d
    → Tracks key (lowered (key p) p.size_usd exposures) (erase k d)
lowered-Tracks key k p exposures d u nonneg found h t =
    value-lowered (key p) t p.size_usd exposures ∙ elim (Bool-cases (str_eq (key p) t)) [
      | inl hit ↦
          let here : value_at (key p) exposures ≡ weigh (size_at key t) d =
            ap (λ j. value_at j exposures) ((eq_iff (key p) t).0 hit) ∙ h t in
          let size : size_at key t p ≡ p.size_usd = rw hit refl in
          let rest =
            weigh_nonneg key t (erase k d) (All-erase (λ e. pos 0 ≤ℤ e.1.size_usd) k d nonneg) in
          rw hit (
            rest_max (value_at (key p) exposures) p.size_usd (weigh (size_at key t) (erase k d))
              (omega (
                int_laws,
                of_eq here,
                of_eq size,
                of_eq (weigh-erase (size_at key t) k p d u found),
              ))
              rest)
      | inr miss ↦
          let size : size_at key t p ≡ pos 0 = rw miss refl in
          rw miss (
            omega (
              int_laws,
              of_eq (h t),
              of_eq size,
              of_eq (weigh-erase (size_at key t) k p d u found),
            ))
    ]

-- Along a sequence of fills: a buy is of a new signal and of no negative size, and a sale names
-- the token and the wallet of its position.
abbrev pub IsFaithful : FillEvent → PortfolioState → Type 0
IsFaithful e s =
    (str_eq e.side "BUY" ≡ true
      → (contains e.signal_id s.open_positions ≡ false) × (pos 0 ≤ℤ e.size_usd))
    × ((p : Position)
        → str_eq e.side "BUY" ≡ false
        → lookup e.signal_id s.open_positions ≡ some p
        → (p.token_mint ≡ e.token_mint) × (p.wallet_address ≡ e.wallet_address))

abbrev pub AllFaithful : List FillEvent → StateUpdateParams → PortfolioState → Type 0
AllFaithful [] params s = Unit
AllFaithful (e ∷ es) params s =
    IsFaithful e s × AllFaithful es params (apply_fill_event e params s).0

pub record IsExposed (s : PortfolioState) : Type 0 where
  pub unique : IsUnique s.open_positions
  pub nonneg : NoneNegative s.open_positions
  pub tokens : Tracks (λ p. p.token_mint) s.exposure_by_token s.open_positions
  pub wallets : Tracks (λ p. p.wallet_address) s.exposure_by_source_wallet s.open_positions

pub fill-IsExposed :
    (e : FillEvent) (params : StateUpdateParams) (s : PortfolioState)
    → IsFaithful e s
    → IsExposed s
    → IsExposed (apply_fill_event e params s).0
unfolding entered exited new_position
fill-IsExposed e params s faithful x = elim (fill-cases e params s) [
  | inl (reason, same) ↦ rw same x
  | inr (inl (buy, free, within, same)) ↦ rw same (record {
    unique = insert-IsUnique e.signal_id (new_position e) s.open_positions x.unique;
    nonneg =
        All-insert (λ i. pos 0 ≤ℤ i.1.size_usd) e.signal_id (new_position e) s.open_positions
          x.nonneg (faithful.0 buy).1;
    tokens =
        raised-Tracks (λ p. p.token_mint) e.signal_id (new_position e) s.exposure_by_token
          s.open_positions (faithful.0 buy).0 x.tokens;
    wallets =
        raised-Tracks (λ p. p.wallet_address) e.signal_id (new_position e)
          s.exposure_by_source_wallet s.open_positions (faithful.0 buy).0 x.wallets;
  })
  | inr (inr (other, (p, found, same))) ↦
      let (token, wallet) = faithful.1 p other found in
      rw same (record {
        unique = erase-IsUnique e.signal_id s.open_positions x.unique;
        nonneg = All-erase (λ i. pos 0 ≤ℤ i.1.size_usd) e.signal_id s.open_positions x.nonneg;
        tokens =
            subst
              (λ t.
                Tracks (λ p. p.token_mint) (lowered t p.size_usd s.exposure_by_token)
                  (erase e.signal_id s.open_positions))
              token
              (lowered-Tracks (λ p. p.token_mint) e.signal_id p s.exposure_by_token s.open_positions
                x.unique x.nonneg found x.tokens);
        wallets =
            subst
              (λ t.
                Tracks (λ p. p.wallet_address) (lowered t p.size_usd s.exposure_by_source_wallet)
                  (erase e.signal_id s.open_positions))
              wallet
              (lowered-Tracks (λ p. p.wallet_address) e.signal_id p s.exposure_by_source_wallet
                s.open_positions x.unique x.nonneg found x.wallets);
      })
]

-- The exposure of every token and of every wallet is at all times the sum of the open sizes: over
-- every sequence of fills, refused ones included, in which buys are of new signals and of no
-- negative size, and sales name the token and the wallet of their position.
pub fill_all-IsExposed :
    (es : List FillEvent) (params : StateUpdateParams) (s : PortfolioState)
    → IsExposed s
    → AllFaithful es params s
    → IsExposed (fill_all es params s)
fill_all-IsExposed [] params s x faithful = x
fill_all-IsExposed (e ∷ es) params s x faithful =
    fill_all-IsExposed es params (apply_fill_event e params s).0
      (fill-IsExposed e params s faithful.0 x) faithful.1
