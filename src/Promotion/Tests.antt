-- ===== src/Promotion/Tests.antt =====
-- Pruning and promotion at concrete inputs.
use engine_bot.Shared.{◌≡◌, refl, String, none, some, List, [], ◌∷◌, ◌++◌, map, keep}
use engine_bot.Shared.Int.{ℤ, pos, negsuc}
use engine_bot.Promotion.Daily.{
  WalletProfileInput, PromotionParams, PruneReason, evaluate_prune, evaluate_promotion,
  daily_prune_and_promote,
}
use engine_bot.Promotion.Best.{IsSelection, daily_prune_and_promote-IsSelection}

-- The defaults, with two promotions.
abbrev params : PromotionParams
params = record {
  prune_winrate_7d_min = pos 5500;
  prune_trades_7d_min = pos 8;
  prune_roi_7d_min = negsuc 999;
  promote_min_winrate_30d = pos 6200;
  promote_min_roi_30d = pos 1800;
  promote_min_trades_30d = pos 45;
  promote_max_candidates = pos 2;
}

abbrev unknown : String → WalletProfileInput
unknown w = record {
  wallet = w;
  winrate_7d = none;
  roi_7d = none;
  trades_7d = none;
  winrate_30d = none;
  roi_30d = none;
  trades_30d = none;
  last_active_ts = none;
}

abbrev losing : WalletProfileInput
losing = record (unknown "losing") {
  winrate_7d = some (pos 6000);
  roi_7d = some (negsuc 2499);
  trades_7d = some (pos 20);
}

abbrev candidate : String → ℤ → WalletProfileInput
candidate w rate = record (unknown w) {
  winrate_30d = some rate;
  roi_30d = some (pos 3500);
  trades_30d = some (pos 100);
}

abbrev candidates : List WalletProfileInput
candidates =
    candidate "low" (pos 6500)
    ∷ unknown "new"
    ∷ candidate "high" (pos 7500)
    ∷ candidate "middle" (pos 7000)
    ∷ []

daily_prune_and_promote-IsSelection_example :
    (promoted rest : List WalletProfileInput) × ((daily_prune_and_promote
        (unknown "kept" ∷ losing ∷ [])
        candidates
        params).0
      ≡ keep (λ w. (evaluate_prune w params).is_kept) (unknown "kept" ∷ losing ∷ []) ++ promoted)
    × IsSelection params 2 candidates promoted rest
daily_prune_and_promote-IsSelection_example =
    daily_prune_and_promote-IsSelection (unknown "kept" ∷ losing ∷ []) candidates params 2 refl

new_active :
    map (λ w. w.wallet) (daily_prune_and_promote (unknown "kept" ∷ losing ∷ []) candidates params).0
    ≡ "kept" ∷ "high" ∷ "middle" ∷ []
unfolding daily_prune_and_promote engine_bot.Promotion.Daily.prune evaluate_prune
    engine_bot.Promotion.Daily.has_prune_reasons engine_bot.Promotion.Daily.is_under
    engine_bot.Promotion.Daily.is_known engine_bot.Promotion.Daily.promote
    engine_bot.Promotion.Daily.slice engine_bot.Promotion.Daily.qualify evaluate_promotion
    engine_bot.Promotion.Daily.promotion_reasons engine_bot.Promotion.Daily.lacking
    engine_bot.Promotion.Daily.sort_key
new_active = refl

-- A candidate that is active already stands twice afterwards.
active_twice :
    map
      (λ w. w.wallet)
      (daily_prune_and_promote
        (candidate "same" (pos 7000) ∷ [])
        (candidate "same" (pos 7000) ∷ [])
        params).0
    ≡ "same" ∷ "same" ∷ []
unfolding daily_prune_and_promote engine_bot.Promotion.Daily.prune evaluate_prune
    engine_bot.Promotion.Daily.has_prune_reasons engine_bot.Promotion.Daily.is_under
    engine_bot.Promotion.Daily.is_known engine_bot.Promotion.Daily.promote
    engine_bot.Promotion.Daily.slice engine_bot.Promotion.Daily.qualify evaluate_promotion
    engine_bot.Promotion.Daily.promotion_reasons engine_bot.Promotion.Daily.lacking
active_twice = refl
