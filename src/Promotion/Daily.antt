-- ===== src/Promotion/Daily.antt =====
-- strategy/promotion.py. Rates are counted in ten-thousandths, numbers of trades as they are. A
-- message stands as the test that it names.
use engine_bot.Shared.{
  ℕ, suc, ◌-◌, String, Bool, true, false, not, ◌&&◌, ◌||◌, Option, none, some, List, [], ◌∷◌, ◌++◌,
  length, leb, if◌then◌else◌,
}
use engine_bot.Shared.Int.{ℤ, pos, negsuc, ltb_ℤ}

pub record WalletProfileInput : Type 0 where
  pub wallet : String
  pub winrate_7d : Option ℤ
  pub roi_7d : Option ℤ
  pub trades_7d : Option ℤ
  pub winrate_30d : Option ℤ
  pub roi_30d : Option ℤ
  pub trades_30d : Option ℤ
  pub last_active_ts : Option String

pub record PromotionParams : Type 0 where
  pub prune_winrate_7d_min : ℤ
  pub prune_trades_7d_min : ℤ
  pub prune_roi_7d_min : ℤ
  pub promote_min_winrate_30d : ℤ
  pub promote_min_roi_30d : ℤ
  pub promote_min_trades_30d : ℤ
  pub promote_max_candidates : ℤ

pub data PruneReason : Type 0 where
  winrate_7d_low : PruneReason
  trades_7d_low : PruneReason
  roi_7d_low : PruneReason

pub data PromotionReason : Type 0 where
  winrate_missing : PromotionReason
  winrate_low : PromotionReason
  roi_missing : PromotionReason
  roi_low : PromotionReason
  trades_missing : PromotionReason
  trades_low : PromotionReason

-- What `to_dict` keeps of a profile for the reports: the metrics of the window.
pub record Metrics : Type 0 where
  pub winrate : Option ℤ
  pub roi : Option ℤ
  pub trades : Option ℤ

pub record PruningResult : Type 0 where
  pub wallet : String
  pub is_kept : Bool
  pub reason : Option PruneReason
  pub metrics : Metrics

pub record PromotionResult : Type 0 where
  pub wallet : String
  pub is_promoted : Bool
  pub reason : List PromotionReason
  pub metrics : Metrics

-- `value is not None and value < least`
unfoldable pub is_under : Option ℤ → ℤ → Bool
is_under none least = false
is_under (some value) least = ltb_ℤ value least

unfoldable pub is_known : Option ℤ → Bool
is_known none = false
is_known (some value) = true

unfoldable pub determine_prune_reason : WalletProfileInput → PromotionParams → PruneReason
determine_prune_reason w p =
    if is_under w.winrate_7d p.prune_winrate_7d_min
    then winrate_7d_low
    else if is_under w.trades_7d p.prune_trades_7d_min
    then trades_7d_low
    else roi_7d_low

-- Whether the list of reasons is not empty.
unfoldable pub has_prune_reasons : WalletProfileInput → PromotionParams → Bool
has_prune_reasons w p =
    is_under w.winrate_7d p.prune_winrate_7d_min
    || is_under w.trades_7d p.prune_trades_7d_min
    || (is_known w.trades_7d && is_under w.roi_7d p.prune_roi_7d_min)

unfoldable pub evaluate_prune : WalletProfileInput → PromotionParams → PruningResult
evaluate_prune w p = record {
  wallet = w.wallet;
  is_kept = not (has_prune_reasons w p);
  reason = if has_prune_reasons w p then some (determine_prune_reason w p) else none;
  metrics = record { winrate = w.winrate_7d; roi = w.roi_7d; trades = w.trades_7d };
}

-- The reason that one metric adds, if any.
unfoldable pub lacking : Option ℤ → ℤ → PromotionReason → PromotionReason → List PromotionReason
lacking none least missing low = missing ∷ []
lacking (some value) least missing low = if ltb_ℤ value least then low ∷ [] else []

unfoldable pub promotion_reasons : WalletProfileInput → PromotionParams → List PromotionReason
promotion_reasons c p =
    lacking c.winrate_30d p.promote_min_winrate_30d winrate_missing winrate_low
    ++ (lacking c.roi_30d p.promote_min_roi_30d roi_missing roi_low
        ++ lacking c.trades_30d p.promote_min_trades_30d trades_missing trades_low)

abbrev pub is_empty : List PromotionReason → Bool
is_empty [] = true
is_empty (r ∷ rs) = false

unfoldable pub evaluate_promotion : WalletProfileInput → PromotionParams → PromotionResult
evaluate_promotion c p = record {
  wallet = c.wallet;
  is_promoted = is_empty (promotion_reasons c p);
  reason = promotion_reasons c p;
  metrics = record { winrate = c.winrate_30d; roi = c.roi_30d; trades = c.trades_30d };
}

-- The first loop.
unfoldable pub prune :
    PromotionParams → List WalletProfileInput → List WalletProfileInput × List PruningResult
prune p [] = ([], [])
prune p (w ∷ ws) =
    let (remaining, pruned) = prune p ws in
    if (evaluate_prune w p).is_kept
    then (w ∷ remaining, pruned)
    else (remaining, evaluate_prune w p ∷ pruned)

-- The second loop.
unfoldable pub qualify :
    PromotionParams → List WalletProfileInput → List WalletProfileInput × List PromotionResult
qualify p [] = ([], [])
qualify p (c ∷ cs) =
    let (qualified, rejected) = qualify p cs in
    if (evaluate_promotion c p).is_promoted
    then (c ∷ qualified, rejected)
    else (qualified, evaluate_promotion c p ∷ rejected)

-- `w.winrate_30d if w.winrate_30d else 0.0`
unfoldable pub sort_key : WalletProfileInput → ℤ
sort_key w = elim w.winrate_30d [ none ↦ pos 0 | some rate ↦ rate ]

-- The stable sort by the key, largest first: a profile goes in front of those whose key is not
-- larger.
abbrev pub place : WalletProfileInput → List WalletProfileInput → List WalletProfileInput
place w [] = w ∷ []
place w (x ∷ xs) =
    let rest = place w xs in if ltb_ℤ (sort_key w) (sort_key x) then x ∷ rest else w ∷ x ∷ xs

abbrev pub sort : List WalletProfileInput → List WalletProfileInput
sort [] = []
sort (w ∷ ws) = place w (sort ws)

abbrev pub take : ℕ → List WalletProfileInput → List WalletProfileInput
take n [] = []
take n (w ∷ ws) = let rest = take (n - 1) ws in if leb n 0 then [] else w ∷ rest

-- `ws[:n]`, in which a negative `n` counts from the end.
unfoldable pub slice : ℤ → List WalletProfileInput → List WalletProfileInput
slice (pos n) ws = take n ws
slice (negsuc n) ws = take (length ws - suc n) ws

-- The promoted wallets.
unfoldable pub promote : PromotionParams → List WalletProfileInput → List WalletProfileInput
promote p candidates = slice p.promote_max_candidates (sort (qualify p candidates).0)

unfoldable pub daily_prune_and_promote :
    List WalletProfileInput
    → List WalletProfileInput
    → PromotionParams
    → List WalletProfileInput × List PruningResult
daily_prune_and_promote active candidates p =
    ((prune p active).0 ++ promote p candidates, (prune p active).1)
