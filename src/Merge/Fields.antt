-- ===== src/Merge/Fields.antt =====
-- integration/wallet_merge.py: which values a merged profile has.
use engine_bot.Shared.{
  ◌≡◌, refl, Option, none, some, List, [], ◌∷◌, ◌++◌, All, All-combine, ap, if◌then◌else◌, arith,
  Bool-cases, inl, inr, String,
}
use mathlib.Core.Option.{some-injective}
use engine_bot.Shared.Int.{ℤ, pos, ◌≤ℤ◌, ltb_ℤ, eq_of_parts}
use engine_bot.Shared.Options.{get_or}
use engine_bot.Merge.Profiles.{
  WalletProfile, Sourced, later_of, greatest, merge_one, trades_max, by_trades, or_earlier,
  primary_profile,
}

-- A value that is there is at most the bound, which is then there too.
abbrev pub IsCovered : Option ℤ → Option ℤ → Type 0
IsCovered none bound = Unit
IsCovered (some v) bound = (most : ℤ) × (bound ≡ some most) × (v ≤ℤ most)

covers_itself : (o : Option ℤ) → IsCovered o o
covers_itself none = tt
covers_itself (some v) = (v, refl, omega arith)

covers_more : (a b c : Option ℤ) → IsCovered a b → IsCovered b c → IsCovered a c
covers_more none b c h k = tt
covers_more (some v) none c h k = let e = h.1 in cc
covers_more (some v) (some m) c h k =
    let e : m ≡ h.0 = some-injective _ _ h.1 in
    let low : v ≤ℤ m = rw e h.2 in (k.0, k.1, omega arith)

later_of-IsCovered :
    (found v : Option ℤ) → IsCovered found (later_of found v) × IsCovered v (later_of found v)
unfolding later_of
later_of-IsCovered found none = (covers_itself found, tt)
later_of-IsCovered none (some v) = (tt, covers_itself (some v))
later_of-IsCovered (some m) (some v) = elim (Bool-cases (ltb_ℤ m v)) [
  | inl less ↦ rw less ((v, refl, ground (arith, less)), (v, refl, omega arith))
  | inr more ↦ rw more ((m, refl, omega arith), (m, refl, ground (arith, more)))
]

greatest-IsCovered :
    (field : WalletProfile → Option ℤ) (ss : List Sourced) (found : Option ℤ)
    → IsCovered found (greatest field ss found)
      × All (λ s. IsCovered (field s.profile) (greatest field ss found)) ss
unfolding greatest
greatest-IsCovered field [] found = (covers_itself found, tt)
greatest-IsCovered field (s ∷ ss) found =
    let (old, new) = later_of-IsCovered found (field s.profile) in
    let (first, rest) = greatest-IsCovered field ss (later_of found (field s.profile)) in
    let end = greatest field ss (later_of found (field s.profile)) in
    (
      covers_more found (later_of found (field s.profile)) end old first,
      (covers_more (field s.profile) (later_of found (field s.profile)) end new first, rest),
    )

-- The merged profile is the newest and the busiest: its last activity and its number of trades are
-- known where those of any profile of the wallet are, and at least as great.
pub merge_one-IsCovered :
    (wallet_addr : String) (first : Sourced) (rest : List Sourced)
    → All
        (λ s.
          IsCovered s.profile.trades_30d (merge_one wallet_addr first rest).trades_30d
          × IsCovered s.profile.last_active_ts (merge_one wallet_addr first rest).last_active_ts)
        (first ∷ rest)
unfolding merge_one
merge_one-IsCovered wallet_addr first rest =
    let ss = first ∷ rest in
    All-combine (λ s. IsCovered s.profile.trades_30d (greatest (λ p. p.trades_30d) ss none))
      (λ s. IsCovered s.profile.last_active_ts (greatest (λ p. p.last_active_ts) ss none))
      (λ s.
        IsCovered s.profile.trades_30d (greatest (λ p. p.trades_30d) ss none)
        × IsCovered s.profile.last_active_ts (greatest (λ p. p.last_active_ts) ss none))
      ss (λ s h k. (h, k)) (greatest-IsCovered (λ p. p.trades_30d) ss none).1
      (greatest-IsCovered (λ p. p.last_active_ts) ss none).1

-- `p.trades_30d or 0`
abbrev pub trades_of : Sourced → ℤ
trades_of s = get_or s.profile.trades_30d (pos 0)

next_most :
    (o : Option ℤ) (most t : ℤ)
    → get_or o (pos 0) ≤ℤ t
    → pos 0 ≤ℤ most
    → most ≤ℤ t
    → (pos 0 ≤ℤ (if ltb_ℤ most (get_or o most) then get_or o most else most))
      × ((if ltb_ℤ most (get_or o most) then get_or o most else most) ≤ℤ t)
next_most none most t h known below = (ground arith, ground arith)
next_most (some v) most t h known below = (ground arith, ground arith)

trades_max-last :
    (ss : List Sourced) (s : Sourced) (t most : ℤ)
    → All (λ x. trades_of x ≤ℤ t) ss
    → s.profile.trades_30d ≡ some t
    → pos 0 ≤ℤ most
    → most ≤ℤ t
    → trades_max (ss ++ (s ∷ [])) most ≡ t
unfolding trades_max
trades_max-last [] s t most h is known below =
    rw (is, trades_max) (eq_of_parts _ _ (ground (arith, below)))
trades_max-last (x ∷ ss) s t most h is known below =
    let (low, less) = next_most x.profile.trades_30d most t h.0 known below in
    trades_max-last ss s t _ h.1 is low less

by_trades-last :
    (ss : List Sourced) (s : Sourced) (t : ℤ)
    → trades_of s ≡ t
    → by_trades t (ss ++ (s ∷ [])) ≡ some s.profile
unfolding by_trades or_earlier
by_trades-last [] s t is = rw is (ground arith)
by_trades-last (x ∷ ss) s t is = rw (by_trades-last ss s t is, by_trades) refl

-- Ties go to the last profile: where no profile of a wallet has more trades than its last one, the
-- rates and sizes are taken from that last one, also where an earlier one has as many.
pub ties_take_last :
    (first s : Sourced) (rest : List Sourced) (t : ℤ)
    → All (λ x. trades_of x ≤ℤ t) (first ∷ rest)
    → s.profile.trades_30d ≡ some t
    → pos 0 ≤ℤ t
    → primary_profile first (rest ++ (s ∷ [])) ≡ s.profile
unfolding primary_profile
ties_take_last first s rest t h is known =
    let most = trades_max-last (first ∷ rest) s t (pos 0) h is (omega arith) known in
    let found = by_trades-last (first ∷ rest) s t (ap (λ o. get_or o (pos 0)) is) in
    rw (most, found) refl
