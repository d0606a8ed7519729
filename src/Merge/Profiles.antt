-- ===== src/Merge/Profiles.antt =====
-- integration/wallet_merge.py: the merging of wallet profiles from several sources. Rates count
-- ten-thousandths and amounts a smallest unit.
use engine_bot.Shared.{
  ℕ, String, str_eq, Bool, true, false, Option, none, some, List, [], ◌∷◌, ◌++◌, keep, length,
  if◌then◌else◌, not, leb,
}
use engine_bot.Shared.Int.{ℤ, pos, ltb_ℤ, leb_ℤ}
use engine_bot.Shared.Dict.{Dict, lookup, insert}
use engine_bot.Shared.Options.{get_or}
use engine_bot.Shared.Sets.{union, sorted, text_le}

pub record WalletProfile : Type 0 where
  pub wallet_addr : String
  pub roi_30d : Option ℤ
  pub winrate_30d : Option ℤ
  pub trades_30d : Option ℤ
  pub median_hold_sec : Option ℤ
  pub avg_size_usd : Option ℤ
  pub preferred_dex : Option String
  pub memecoin_ratio : Option ℤ
  pub kolscan_rank : Option ℤ
  pub kolscan_flags : Option (List String)
  pub last_active_ts : Option ℤ

-- A profile with the name of its source.
pub record Sourced : Type 0 where
  pub source : String
  pub profile : WalletProfile

abbrev pub Grouped : Type 0
Grouped = Dict (List Sourced)

-- The profiles by their addresses; a profile with no address is left out.
unfoldable pub collect_one : String → WalletProfile → Grouped → Grouped
collect_one source p wallets =
    if str_eq p.wallet_addr ""
    then wallets
    else insert p.wallet_addr
        (get_or (lookup p.wallet_addr wallets) [] ++ (record { source = source; profile = p } ∷ []))
        wallets

unfoldable pub collect_source : String → List WalletProfile → Grouped → Grouped
collect_source source [] wallets = wallets
collect_source source (p ∷ ps) wallets = collect_source source ps (collect_one source p wallets)

unfoldable pub collect : List (String × List WalletProfile) → Grouped → Grouped
collect [] wallets = wallets
collect (s ∷ sources) wallets = collect sources (collect_source s.0 s.1 wallets)

-- `trades_30d_max`, which begins at 0.
unfoldable pub trades_max : List Sourced → ℤ → ℤ
trades_max [] most = most
trades_max (s ∷ ss) most =
    let trades = get_or s.profile.trades_30d most in
    trades_max ss (if ltb_ℤ most trades then trades else most)

-- `a == b`
abbrev pub same_number : ℤ → ℤ → Bool
same_number a b = if leb_ℤ a b then leb_ℤ b a else false

-- The entry of `{p.trades_30d or 0: p for _, p in source_profiles}` under a number: a later profile
-- takes the place of an earlier one.
unfoldable pub or_earlier : Option WalletProfile → Option WalletProfile → Option WalletProfile
or_earlier (some later) earlier = some later
or_earlier none earlier = earlier

unfoldable pub by_trades : ℤ → List Sourced → Option WalletProfile
by_trades trades [] = none
by_trades trades (s ∷ ss) =
    or_earlier (by_trades trades ss)
      (if same_number (get_or s.profile.trades_30d (pos 0)) trades then some s.profile else none)

unfoldable pub primary_profile : Sourced → List Sourced → WalletProfile
primary_profile first rest =
    get_or (by_trades (trades_max (first ∷ rest) (pos 0)) (first ∷ rest)) first.profile

-- `SOURCE_PRIORITY.get(source, 0)`
unfoldable pub source_priority : String → ℕ
source_priority source =
    if str_eq source "flipside" then 1 else if str_eq source "dune" then 2 else 0

abbrev pub is_named : Option String → Bool
is_named none = false
is_named (some text) = not (str_eq text "")

-- `max(dex_sources, key=…)`: the first of the sources with the highest priority.
unfoldable pub best_source : String → List Sourced → String
best_source best [] = best
best_source best (s ∷ ss) =
    best_source (if leb (source_priority s.source) (source_priority best) then best else s.source)
      ss

unfoldable pub first_dex : String → List Sourced → Option String
first_dex source [] = none
first_dex source (s ∷ ss) =
    let rest = first_dex source ss in
    if str_eq s.source source then s.profile.preferred_dex else rest

unfoldable pub dex_of : List Sourced → Option String
dex_of [] = none
dex_of (s ∷ ss) = first_dex (best_source s.source ss) (s ∷ ss)

-- The first loop over the exchanges is left out: the second one replaces whatever it finds.
unfoldable pub preferred_dex_of : List Sourced → Option String
preferred_dex_of ss = dex_of (keep (λ s. is_named s.profile.preferred_dex) ss)

-- The first rank that is there.
unfoldable pub first_rank : List Sourced → Option ℤ
first_rank [] = none
first_rank (s ∷ ss) =
    let rest = first_rank ss in elim s.profile.kolscan_rank [ none ↦ rest | some rank ↦ some rank ]

unfoldable pub all_flags : List Sourced → List String → List String
all_flags [] flags = flags
all_flags (s ∷ ss) flags = all_flags ss (union flags (get_or s.profile.kolscan_flags []))

unfoldable pub flags_of : List String → Option (List String)
flags_of [] = none
flags_of (f ∷ fs) = some (sorted text_le (f ∷ fs))

-- The greater of what is found so far and one more value, which may be missing.
unfoldable pub later_of : Option ℤ → Option ℤ → Option ℤ
later_of found none = found
later_of none (some v) = some v
later_of (some m) (some v) = if ltb_ℤ m v then some v else some m

unfoldable pub greatest : (WalletProfile → Option ℤ) → List Sourced → Option ℤ → Option ℤ
greatest field [] found = found
greatest field (s ∷ ss) found = greatest field ss (later_of found (field s.profile))

-- The profile that the profiles of one wallet make.
unfoldable pub merge_one : String → Sourced → List Sourced → WalletProfile
merge_one wallet_addr first rest =
    let ss = first ∷ rest in
    let primary = primary_profile first rest in
    record {
      wallet_addr = wallet_addr;
      roi_30d = primary.roi_30d;
      winrate_30d = primary.winrate_30d;
      trades_30d = greatest (λ p. p.trades_30d) ss none;
      median_hold_sec = primary.median_hold_sec;
      avg_size_usd = primary.avg_size_usd;
      preferred_dex = preferred_dex_of ss;
      memecoin_ratio = primary.memecoin_ratio;
      kolscan_rank = first_rank ss;
      kolscan_flags = flags_of (all_flags ss []);
      last_active_ts = greatest (λ p. p.last_active_ts) ss none;
    }

-- Every entry of the map has at least one profile, so that the first case does not occur.
unfoldable pub merge_entry : String → List Sourced → List WalletProfile
merge_entry wallet_addr [] = []
merge_entry wallet_addr (s ∷ ss) = merge_one wallet_addr s ss ∷ []

unfoldable pub merge_all : Grouped → List WalletProfile
merge_all [] = []
merge_all (e ∷ wallets) = merge_entry e.0 e.1 ++ merge_all wallets

abbrev pub by_addr : WalletProfile → WalletProfile → Bool
by_addr p q = text_le p.wallet_addr q.wallet_addr

unfoldable pub merge_wallet_profiles : List (String × List WalletProfile) → List WalletProfile
merge_wallet_profiles sources = sorted by_addr (merge_all (collect sources []))

-- `WalletMergeStage.run`, without the file that it writes.
pub record Summary : Type 0 where
  pub unique_wallets : ℕ
  pub sources_merged : ℕ

abbrev pub is_filled : String × List WalletProfile → Bool
is_filled (name, []) = false
is_filled (name, p ∷ ps) = true

unfoldable pub run : List WalletProfile → List WalletProfile → List WalletProfile → Summary
run dune flipside kolscan =
    let sources = ("dune", dune) ∷ ("flipside", flipside) ∷ ("kolscan", kolscan) ∷ [] in
    record {
      unique_wallets = length (merge_wallet_profiles sources);
      sources_merged = length (keep is_filled sources);
    }
