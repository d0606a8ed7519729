-- ===== src/Tiers/Scaling.antt =====
-- strategy/tiers/autoscaler.py: the changes of the wallets' tiers. Rates count ten-thousandths. The
-- order in which Python goes through a set is a parameter, `visit`.
use engine_bot.Shared.{
  ℕ, String, Bool, ◌&&◌, Option, none, some, List, [], ◌∷◌, ◌++◌, length, if◌then◌else◌,
}
use engine_bot.Shared.Int.{ℤ, pos, pos_part, ◌+ℤ◌, ◌-ℤ◌, ltb_ℤ, leb_ℤ}
use engine_bot.Shared.Dict.{Dict, lookup}
use engine_bot.Shared.Keys.{has}
use engine_bot.Shared.Options.{get_or}
use engine_bot.Shared.Sets.{add, remove, union, set_of, sorted, text_le}
use engine_bot.Tiers.Data.{
  Metrics, Params, ParamsDict, Reason, TierChange, Tiers, demote, high_performance, index, low_roi,
  low_winrate, merged, promote, roi_of, size_constraint, winrate_of,
}

-- 1. The reason to demote a wallet of tier 1 to tier 3.
unfoldable pub demotion : Params → Option Metrics → Option Reason
demotion params none = none
demotion params (some m) =
    if ltb_ℤ (roi_of m) params.max_roi_demote
    then some low_roi
    else if ltb_ℤ (winrate_of m) params.max_winrate_demote
    then some low_winrate
    else none

unfoldable pub roi_or_zero : Option Metrics → ℤ
roi_or_zero none = pos 0
roi_or_zero (some m) = roi_of m

unfoldable pub winrate_or_zero : Option Metrics → ℤ
winrate_or_zero none = pos 0
winrate_or_zero (some m) = winrate_of m

unfoldable pub demoted : String → Option Metrics → Option Reason → Tiers → Tiers
demoted wallet m none t = t
demoted wallet m (some reason) t = record {
  tier1 = remove wallet t.tier1;
  tier2 = t.tier2;
  tier3 = add wallet t.tier3;
  changes =
      t.changes
      ++ (record {
        wallet = wallet;
        current_tier = "tier_1";
        new_tier = "tier_3";
        action = demote;
        reason = reason;
        roi = roi_or_zero m;
        winrate = winrate_or_zero m;
      }
          ∷ []);
}

unfoldable pub demote_one : Params → Dict Metrics → String → Tiers → Tiers
demote_one params metrics wallet t =
    let m = lookup wallet metrics in
    if has wallet params.whitelist then t else demoted wallet m (demotion params m) t

unfoldable pub demote_all : Params → Dict Metrics → List String → Tiers → Tiers
demote_all params metrics [] t = t
demote_all params metrics (wallet ∷ wallets) t =
    demote_all params metrics wallets (demote_one params metrics wallet t)

-- 2. The candidates of tiers 2 and 3, the best first, move to tier 1.
pub record Candidate : Type 0 where
  pub wallet : String
  pub roi : ℤ
  pub winrate : ℤ
  pub current_tier : String

unfoldable pub is_promoted : Params → Metrics → Bool
is_promoted params m =
    ltb_ℤ params.min_roi_promote (roi_of m) && ltb_ℤ params.min_winrate_promote (winrate_of m)

unfoldable pub candidate : Params → String → List String → Option Metrics → List Candidate
candidate params wallet tier2 none = []
candidate params wallet tier2 (some m) =
    if is_promoted params m
    then record {
      wallet = wallet;
      roi = roi_of m;
      winrate = winrate_of m;
      current_tier = if has wallet tier2 then "tier_2" else "tier_3";
    }
      ∷ []
    else []

unfoldable pub candidates : Params → Dict Metrics → List String → List String → List Candidate
candidates params metrics tier2 [] = []
candidates params metrics tier2 (wallet ∷ pool) =
    candidate params wallet tier2 (lookup wallet metrics) ++ candidates params metrics tier2 pool

-- `reverse=True` by the sum of both rates.
abbrev pub is_better : Candidate → Candidate → Bool
is_better a b = leb_ℤ (b.roi +ℤ b.winrate) (a.roi +ℤ a.winrate)

unfoldable pub promoted : Candidate → Tiers → Tiers
promoted c t = record {
  tier1 = add c.wallet t.tier1;
  tier2 = if has c.wallet t.tier2 then remove c.wallet t.tier2 else t.tier2;
  tier3 = if has c.wallet t.tier2 then t.tier3 else remove c.wallet t.tier3;
  changes =
      t.changes
      ++ (record {
        wallet = c.wallet;
        current_tier = c.current_tier;
        new_tier = "tier_1";
        action = promote;
        reason = high_performance;
        roi = c.roi;
        winrate = c.winrate;
      }
          ∷ []);
}

unfoldable pub promote_all : List Candidate → Tiers → Tiers
promote_all [] t = t
promote_all (c ∷ cs) t = promote_all cs (promoted c t)

-- 3. Where tier 1 is too big, its lowest returns move to tier 2.
pub record Ranked : Type 0 where
  pub wallet : String
  pub roi : ℤ

unfoldable pub ranked : Params → Dict Metrics → List String → List Ranked
ranked params metrics [] = []
ranked params metrics (wallet ∷ wallets) =
    let rest = ranked params metrics wallets in
    if has wallet params.whitelist
    then rest
    else record { wallet = wallet; roi = roi_or_zero (lookup wallet metrics) } ∷ rest

abbrev pub is_lower : Ranked → Ranked → Bool
is_lower a b = leb_ℤ a.roi b.roi

abbrev pub take {ℓ} : {A : Type ℓ} → ℕ → List A → List A
take n [] = []
take ℕ.zero (x ∷ xs) = []
take (ℕ.suc n) (x ∷ xs) = x ∷ take n xs

unfoldable pub moved_down : Dict Metrics → Ranked → Tiers → Tiers
moved_down metrics r t = record {
  tier1 = remove r.wallet t.tier1;
  tier2 = add r.wallet t.tier2;
  tier3 = t.tier3;
  changes =
      t.changes
      ++ (record {
        wallet = r.wallet;
        current_tier = "tier_1";
        new_tier = "tier_2";
        action = demote;
        reason = size_constraint;
        roi = r.roi;
        winrate = winrate_or_zero (lookup r.wallet metrics);
      }
          ∷ []);
}

unfoldable pub move_all : Dict Metrics → List Ranked → Tiers → Tiers
move_all metrics [] t = t
move_all metrics (r ∷ rs) t = move_all metrics rs (moved_down metrics r t)

pub record AutoscalingResult : Type 0 where
  pub changes : List TierChange
  pub tier_1 : List String
  pub tier_2 : List String
  pub tier_3 : List String

unfoldable pub start : Dict (List String) → Tiers
start current_tiers = record {
  tier1 = set_of (get_or (lookup "tier_1" current_tiers) []);
  tier2 = set_of (get_or (lookup "tier_2" current_tiers) []);
  tier3 = set_of (get_or (lookup "tier_3" current_tiers) []);
  changes = [];
}

unfoldable pub result : Tiers → AutoscalingResult
result t = record {
  changes = t.changes;
  tier_1 = sorted text_le t.tier1;
  tier_2 = sorted text_le t.tier2;
  tier_3 = sorted text_le t.tier3;
}

-- The three steps, over the order in which a set is gone through.
module _ (visit : List String → List String) (params : Params) (metrics : Dict Metrics) where
  unfoldable pub demote_step : Tiers → Tiers
  demote_step t = demote_all params metrics (visit t.tier1) t

  unfoldable pub promote_step : Tiers → Tiers
  promote_step t =
      promote_all
        (sorted is_better (candidates params metrics t.tier2 (visit (union t.tier2 t.tier3)))) t

  unfoldable pub size_step : Tiers → Tiers
  size_step t =
      let extra = pos (length t.tier1) -ℤ params.target_tier1_size in
      if ltb_ℤ (pos 0) extra
      then move_all metrics
          (take (pos_part extra) (sorted is_lower (ranked params metrics (visit t.tier1)))) t
      else t

-- `params` is none for no parameters at all.
unfoldable pub params_of : Option ParamsDict → Params
params_of none = merged (record {
  min_roi_promote = none;
  min_winrate_promote = none;
  max_roi_demote = none;
  max_winrate_demote = none;
  target_tier1_size = none;
  whitelist = none;
})
params_of (some d) = merged d

unfoldable pub calculate_tier_changes :
    (List String → List String)
    → Dict (List String)
    → List Metrics
    → Option ParamsDict
    → AutoscalingResult
calculate_tier_changes visit current_tiers metrics_list params =
    let p = params_of params in
    let metrics = index metrics_list [] in
    result (
      size_step visit p metrics
        (promote_step visit p metrics (demote_step visit p metrics (start current_tiers))))
