-- ===== src/Tiers/Data.antt =====
-- strategy/tiers/autoscaler.py: the metrics, the parameters and the tiers. Rates count
-- ten-thousandths.
use engine_bot.Shared.{String, Option, List, [], ◌∷◌}
use engine_bot.Shared.Int.{ℤ, pos, negsuc}
use engine_bot.Shared.Dict.{Dict, insert}
use engine_bot.Shared.Options.{get_or}

pub data TierAction : Type 0 where
  promote : TierAction
  demote : TierAction
  keep : TierAction
  fire : TierAction

pub data Reason : Type 0 where
  low_roi : Reason
  low_winrate : Reason
  high_performance : Reason
  size_constraint : Reason

pub record TierChange : Type 0 where
  pub wallet : String
  pub current_tier : String
  pub new_tier : String
  pub action : TierAction
  pub reason : Reason
  pub roi : ℤ
  pub winrate : ℤ

pub record Metrics : Type 0 where
  pub wallet : String
  pub roi_7d : Option ℤ
  pub winrate : Option ℤ

pub record Params : Type 0 where
  pub min_roi_promote : ℤ
  pub min_winrate_promote : ℤ
  pub max_roi_demote : ℤ
  pub max_winrate_demote : ℤ
  pub target_tier1_size : ℤ
  pub whitelist : List String

-- The parameters that are given; the defaults stand in for the others.
pub record ParamsDict : Type 0 where
  pub min_roi_promote : Option ℤ
  pub min_winrate_promote : Option ℤ
  pub max_roi_demote : Option ℤ
  pub max_winrate_demote : Option ℤ
  pub target_tier1_size : Option ℤ
  pub whitelist : Option (List String)

unfoldable pub merged : ParamsDict → Params
merged d = record {
  min_roi_promote = get_or d.min_roi_promote (pos 2000);
  min_winrate_promote = get_or d.min_winrate_promote (pos 6000);
  max_roi_demote = get_or d.max_roi_demote (negsuc 1499);
  max_winrate_demote = get_or d.max_winrate_demote (pos 3000);
  target_tier1_size = get_or d.target_tier1_size (pos 50);
  whitelist = get_or d.whitelist [];
}

-- The variables of the function.
pub record Tiers : Type 0 where
  pub tier1 : List String
  pub tier2 : List String
  pub tier3 : List String
  pub changes : List TierChange

-- `{m["wallet"]: m for m in metrics_list}`
unfoldable pub index : List Metrics → Dict Metrics → Dict Metrics
index [] d = d
index (m ∷ ms) d = index ms (insert m.wallet m d)

abbrev pub roi_of : Metrics → ℤ
roi_of m = get_or m.roi_7d (pos 0)

abbrev pub winrate_of : Metrics → ℤ
winrate_of m = get_or m.winrate (pos 0)
