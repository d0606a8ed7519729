-- ===== src/Promotion/Reasons.antt =====
-- strategy/promotion.py: what a reason for pruning means, and who is promoted.
use engine_bot.Shared.{
  ◌≡◌, ◌↔◌, ◌⊎◌, refl, inl, inr, true, false, ◌&&◌, Option, none, some, List, [], ◌++◌, arith,
  Bool-cases,
}
use engine_bot.Shared.Int.{ℤ, ◌<ℤ◌, ltb_ℤ}
use engine_bot.Shared.Bounds.{IsAtLeast, least_some, least_none}
use mathlib.Core.List.{append-nil}
use engine_bot.Promotion.Daily.{
  winrate_missing, winrate_low, roi_missing, roi_low, trades_missing, trades_low,
  WalletProfileInput, PromotionParams, PruneReason, winrate_7d_low, trades_7d_low, roi_7d_low,
  PromotionReason, is_under, is_known, determine_prune_reason, has_prune_reasons, evaluate_prune,
  lacking, promotion_reasons, is_empty, evaluate_promotion,
}

-- The value is known and below the bound.
abbrev pub IsUnder : Option ℤ → ℤ → Type 0
IsUnder o least = (v : ℤ) × (o ≡ some v) × (v <ℤ least)

-- What a reason says of a wallet.
abbrev pub Cause : PruneReason → WalletProfileInput → PromotionParams → Type 0
Cause winrate_7d_low w p = IsUnder w.winrate_7d p.prune_winrate_7d_min
Cause trades_7d_low w p =
    (is_under w.winrate_7d p.prune_winrate_7d_min ≡ false)
    × IsUnder w.trades_7d p.prune_trades_7d_min
Cause roi_7d_low w p =
    (is_under w.winrate_7d p.prune_winrate_7d_min ≡ false)
    × (is_under w.trades_7d p.prune_trades_7d_min ≡ false)
    × IsUnder w.roi_7d p.prune_roi_7d_min
    × ((trades : ℤ) × (w.trades_7d ≡ some trades))

under : (o : Option ℤ) (least : ℤ) → is_under o least ≡ true → IsUnder o least
unfolding is_under
under none least h = cc
under (some v) least h = (v, refl, ground arith)

known : (o : Option ℤ) → is_known o ≡ true → (v : ℤ) × (o ≡ some v)
unfolding is_known
known none h = cc
known (some v) h = (v, refl)

-- A wallet is pruned exactly if a reason is given, and the reason holds of it: its winrate is
-- known and too low; or it is not, and the number of its trades is known and too low; or neither
-- is, and its ROI is known and too low, the number of its trades being known.
evaluate_prune-Cause :
    (w : WalletProfileInput) (p : PromotionParams)
    → (((evaluate_prune w p).is_kept ≡ true) × ((evaluate_prune w p).reason ≡ none))
      ⊎ (((evaluate_prune w p).is_kept ≡ false)
          × ((r : PruneReason) × ((evaluate_prune w p).reason ≡ some r) × Cause r w p))
unfolding evaluate_prune has_prune_reasons determine_prune_reason
evaluate_prune-Cause w p = elim (Bool-cases (is_under w.winrate_7d p.prune_winrate_7d_min)) [
  | inl poor ↦ inr (ground arith, (winrate_7d_low, ground arith, under _ _ poor))
  | inr fine ↦ elim (Bool-cases (is_under w.trades_7d p.prune_trades_7d_min)) [
    | inl few ↦ inr (ground arith, (trades_7d_low, ground arith, (fine, under _ _ few)))
    | inr many ↦ elim (Bool-cases (is_known w.trades_7d && is_under w.roi_7d p.prune_roi_7d_min)) [
      | inl losing ↦ inr (
        ground arith,
        (roi_7d_low, ground arith, (fine, many, under _ _ (ground arith), known _ (ground arith))),
      )
      | inr gaining ↦ inl (ground arith, ground arith)
    ]
  ]
]

lacking-empty :
    (o : Option ℤ) (least : ℤ) (missing low : PromotionReason) (rs : List PromotionReason)
    → (is_empty (lacking o least missing low ++ rs) ≡ true)
      ↔ (IsAtLeast o least × (is_empty rs ≡ true))
unfolding lacking
lacking-empty none least missing low rs = (λ h. cc, λ h. least_none least h.0)
lacking-empty (some v) least missing low rs = elim (Bool-cases (ltb_ℤ v least)) [
  | inl below ↦ rw below (λ h. cc, λ h. ground (arith, least_some v least h.0))
  | inr reached ↦ rw reached (λ h. ((v, refl, ground arith), h), λ h. h.1)
]

lacking-last :
    (o : Option ℤ) (least : ℤ) (missing low : PromotionReason)
    → (is_empty (lacking o least missing low) ≡ true) ↔ IsAtLeast o least
lacking-last o least missing low =
    let both = lacking-empty o least missing low [] in
    let same = append-nil (lacking o least missing low) in
    (λ h. (both.0 (rw same h)).0, λ h. rw same at (both.1 (h, refl)))

-- A candidate is promoted exactly if its winrate, its ROI and the number of its trades over
-- thirty days are all known and at least their thresholds.
pub evaluate_promotion-IsAtLeast :
    (c : WalletProfileInput) (p : PromotionParams)
    → ((evaluate_promotion c p).is_promoted ≡ true) ↔ (
        IsAtLeast c.winrate_30d p.promote_min_winrate_30d
        × IsAtLeast c.roi_30d p.promote_min_roi_30d
        × IsAtLeast c.trades_30d p.promote_min_trades_30d)
unfolding evaluate_promotion promotion_reasons
evaluate_promotion-IsAtLeast c p =
    let winrate =
      lacking-empty c.winrate_30d p.promote_min_winrate_30d winrate_missing winrate_low (
        lacking c.roi_30d p.promote_min_roi_30d roi_missing roi_low
        ++ lacking c.trades_30d p.promote_min_trades_30d trades_missing trades_low) in
    let roi =
      lacking-empty c.roi_30d p.promote_min_roi_30d roi_missing roi_low
        (lacking c.trades_30d p.promote_min_trades_30d trades_missing trades_low) in
    let trades = lacking-last c.trades_30d p.promote_min_trades_30d trades_missing trades_low in
    (
      λ h. let a = winrate.0 h in let b = roi.0 a.1 in (a.0, b.0, trades.0 b.1),
      λ h. winrate.1 (h.0, roi.1 (h.1, trades.1 h.2)),
    )
