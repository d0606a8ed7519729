-- ===== src/Tiers/Tests.antt =====
-- The tiers at concrete inputs.
use engine_bot.Shared.{◌≡◌, refl, String, true, Option, none, some, List, [], ◌∷◌}
use engine_bot.Shared.Int.{pos, negsuc, ◌+ℤ◌, ◌-ℤ◌}
use engine_bot.Shared.Dict.{Dict, lookup, insert}
use engine_bot.Shared.Keys.{has}
use engine_bot.Shared.Sets.{add, remove, union, set_of, sorted, place}
use engine_bot.Tiers.Scaling.{
  demotion, demoted, demote_one, demote_all, roi_or_zero, winrate_or_zero, candidates, candidate,
  is_promoted, promoted, promote_all, ranked, moved_down, move_all, start, result, demote_step,
  promote_step, size_step, params_of, calculate_tier_changes,
}
use engine_bot.Tiers.Data.{
  Metrics, ParamsDict, low_roi, high_performance, demote, promote, merged, index,
}
use engine_bot.Tiers.Whitelist.{whitelisted_stays}

abbrev tiers : Dict (List String)
tiers = ("tier_1", "a" ∷ "b" ∷ []) ∷ ("tier_2", "c" ∷ []) ∷ []

abbrev metrics : List Metrics
metrics =
    record { wallet = "a"; roi_7d = some (negsuc 1999); winrate = some (pos 5000) }
    ∷ record { wallet = "b"; roi_7d = some (negsuc 1999); winrate = some (pos 5000) }
    ∷ record { wallet = "c"; roi_7d = some (pos 2500); winrate = some (pos 7000) }
    ∷ []

-- "b" is on the whitelist.
abbrev params : Option ParamsDict
params = some (record {
  min_roi_promote = none;
  min_winrate_promote = none;
  max_roi_demote = none;
  max_winrate_demote = none;
  target_tier1_size = none;
  whitelist = some ("b" ∷ []);
})

abbrev visit : List String → List String
visit s = s

-- The loser goes down, the winner comes up.
one_down_one_up : calculate_tier_changes visit tiers metrics params ≡ record {
  changes =
      record {
        wallet = "a";
        current_tier = "tier_1";
        new_tier = "tier_3";
        action = demote;
        reason = low_roi;
        roi = negsuc 1999;
        winrate = pos 5000;
      }
      ∷ record {
        wallet = "c";
        current_tier = "tier_2";
        new_tier = "tier_1";
        action = promote;
        reason = high_performance;
        roi = pos 2500;
        winrate = pos 7000;
      }
      ∷ [];
  tier_1 = "b" ∷ "c" ∷ [];
  tier_2 = [];
  tier_3 = "a" ∷ [];
}
unfolding calculate_tier_changes params_of merged index start result demote_step promote_step
    size_step demote_all demote_one demoted demotion roi_or_zero winrate_or_zero candidates
    candidate is_promoted promote_all promoted ranked move_all moved_down lookup insert set_of union
    add remove sorted place ◌+ℤ◌ ◌-ℤ◌
one_down_one_up = refl

whitelisted_stays_example :
    has "b" (calculate_tier_changes visit tiers metrics params).tier_1 ≡ true
unfolding params_of merged lookup
whitelisted_stays_example = whitelisted_stays visit tiers metrics params "b" refl refl
