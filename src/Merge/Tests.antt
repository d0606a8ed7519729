-- ===== src/Merge/Tests.antt =====
-- Merged profiles at concrete inputs.
use engine_bot.Shared.{◌≡◌, refl, String, Option, none, some, List, [], ◌∷◌}
use engine_bot.Shared.Int.{ℤ, pos}
use engine_bot.Shared.Dict.{lookup, insert}
use engine_bot.Shared.Keys.{has, Distinct}
use engine_bot.Shared.Sets.{sorted, place, union, add}
use engine_bot.Merge.Profiles.{
  WalletProfile, collect, collect_source, collect_one, merge_all, merge_entry, merge_one,
  merge_wallet_profiles, primary_profile, by_trades, or_earlier, trades_max, preferred_dex_of,
  dex_of, first_dex, best_source, source_priority, first_rank, all_flags, flags_of, greatest,
  later_of, run,
}
use engine_bot.Merge.Wallets.{addrs, all_addrs, has_named, merge_wallet_profiles-Distinct}

abbrev profile : String → Option ℤ → Option ℤ → Option String → WalletProfile
profile addr roi trades dex = record {
  wallet_addr = addr;
  roi_30d = roi;
  winrate_30d = none;
  trades_30d = trades;
  median_hold_sec = none;
  avg_size_usd = none;
  preferred_dex = dex;
  memecoin_ratio = none;
  kolscan_rank = none;
  kolscan_flags = none;
  last_active_ts = none;
}

abbrev sources : List (String × List WalletProfile)
sources =
    (
      "dune",
      profile "b" (some (pos 100)) (some (pos 7)) (some "Raydium")
          ∷ profile "a" (some (pos 300)) (some (pos 1)) none
          ∷ [],
    )
    ∷ (
      "flipside",
      profile "b" (some (pos 200)) (some (pos 7)) (some "Orca") ∷ profile "" none none none ∷ [],
    )
    ∷ ("kolscan", [])
    ∷ []

-- Both profiles of "b" have seven trades: the rates are of the later one, the exchange of Dune.
two_wallets :
    merge_wallet_profiles sources
    ≡ profile "a" (some (pos 300)) (some (pos 1)) none
      ∷ profile "b" (some (pos 200)) (some (pos 7)) (some "Raydium")
      ∷ []
unfolding merge_wallet_profiles collect collect_source collect_one merge_all merge_entry merge_one
    primary_profile by_trades or_earlier trades_max preferred_dex_of dex_of first_dex best_source
    source_priority first_rank all_flags flags_of greatest later_of sorted place union add lookup
    insert
two_wallets = refl

two_sources :
    run
      (profile "b" none (some (pos 7)) none ∷ profile "a" none none none ∷ [])
      (profile "b" none (some (pos 9)) none ∷ [])
      []
    ≡ record { unique_wallets = 2; sources_merged = 2 }
unfolding run merge_wallet_profiles collect collect_source collect_one merge_all merge_entry
    merge_one sorted place lookup insert
two_sources = refl

merge_wallet_profiles-Distinct_example :
    Distinct (addrs (merge_wallet_profiles sources))
    × ((k : String)
        → has k (addrs (merge_wallet_profiles sources)) ≡ has_named k (all_addrs sources))
merge_wallet_profiles-Distinct_example = merge_wallet_profiles-Distinct sources
