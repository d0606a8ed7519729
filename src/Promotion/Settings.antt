-- ===== src/Promotion/Settings.antt =====
-- strategy/promotion.py: the dictionary form of a profile, and the parameters of a configuration. An
-- entry that is missing is none.
use engine_bot.Shared.{◌≡◌, refl, Option, some, String}
use engine_bot.Shared.Int.{ℤ, pos, negsuc}
use engine_bot.Shared.Options.{get_or}
use engine_bot.Promotion.Daily.{WalletProfileInput, PromotionParams}

pub record ProfileDict : Type 0 where
  pub wallet : Option String
  pub winrate_7d : Option ℤ
  pub roi_7d : Option ℤ
  pub trades_7d : Option ℤ
  pub winrate_30d : Option ℤ
  pub roi_30d : Option ℤ
  pub trades_30d : Option ℤ
  pub last_active_ts : Option String

unfoldable pub to_dict : WalletProfileInput → ProfileDict
to_dict w = record {
  wallet = some w.wallet;
  winrate_7d = w.winrate_7d;
  roi_7d = w.roi_7d;
  trades_7d = w.trades_7d;
  winrate_30d = w.winrate_30d;
  roi_30d = w.roi_30d;
  trades_30d = w.trades_30d;
  last_active_ts = w.last_active_ts;
}

unfoldable pub from_dict : ProfileDict → WalletProfileInput
from_dict d = record {
  wallet = get_or d.wallet "";
  winrate_7d = d.winrate_7d;
  roi_7d = d.roi_7d;
  trades_7d = d.trades_7d;
  winrate_30d = d.winrate_30d;
  roi_30d = d.roi_30d;
  trades_30d = d.trades_30d;
  last_active_ts = d.last_active_ts;
}

-- The `prune` and `promote` tables of the configuration.
pub record PromotionConfig : Type 0 where
  pub winrate_7d_min : Option ℤ
  pub min_trades_7d : Option ℤ
  pub roi_7d_min : Option ℤ
  pub min_winrate_30d : Option ℤ
  pub min_roi_30d : Option ℤ
  pub min_trades_30d : Option ℤ
  pub max_candidates_to_promote : Option ℤ

unfoldable pub create_promotion_params_from_config : PromotionConfig → PromotionParams
create_promotion_params_from_config c = record {
  prune_winrate_7d_min = get_or c.winrate_7d_min (pos 5500);
  prune_trades_7d_min = get_or c.min_trades_7d (pos 8);
  prune_roi_7d_min = get_or c.roi_7d_min (negsuc 999);
  promote_min_winrate_30d = get_or c.min_winrate_30d (pos 6200);
  promote_min_roi_30d = get_or c.min_roi_30d (pos 1800);
  promote_min_trades_30d = get_or c.min_trades_30d (pos 45);
  promote_max_candidates = get_or c.max_candidates_to_promote (pos 30);
}

-- A profile that is written and read back is the same.
from_dict-to_dict : (w : WalletProfileInput) → from_dict (to_dict w) ≡ w
unfolding from_dict to_dict
from_dict-to_dict w = refl
