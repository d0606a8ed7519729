-- ===== src/Reconcile/Balance.antt =====
-- monitoring/state_reconciler.py. The request for the balance is a parameter: it answers
-- lamports or it raises. The portfolio is what the reconciler sees of it: one of the four
-- interfaces that it tries. The float of `bankroll` counts whole coins; its arithmetic is a
-- parameter, since a conversion from lamports and back may lose one.
use engine_bot.Shared.{
  suc, String, Bool, not, Option, none, some, List, [], ◌∷◌, ◌++◌, if◌then◌else◌,
}
use engine_bot.Shared.Int.{ℤ, pos, negsuc, ◌-ℤ◌, ltb_ℤ, leb_ℤ, is_zero}
use engine_bot.Shared.Results.{Result, ok, err}

pub data AdjustmentReason : Type 0 where
  missed_tx : AdjustmentReason
  reorg : AdjustmentReason
  rpc_inconsistency : AdjustmentReason
  manual : AdjustmentReason
  unknown : AdjustmentReason

pub record BalanceAdjustment : Type 0 where
  pub timestamp : ℤ
  pub local_balance_before : ℤ
  pub onchain_balance : ℤ
  pub delta : ℤ
  pub reason : AdjustmentReason
  pub tx_signatures : List String
  pub is_adjusted : Bool

pub record ReconcilerConfig : Type 0 where
  pub is_enabled : Bool
  pub interval_seconds : ℤ
  pub warning_threshold : ℤ
  pub critical_threshold : ℤ
  pub max_delta_without_alert : ℤ

-- `__post_init__`: none is the `ValueError`.
unfoldable pub make_config : ReconcilerConfig → Option ReconcilerConfig
make_config c = if ltb_ℤ c.critical_threshold c.warning_threshold then none else some c

-- What the reconciler does with a finite float `x`: `bool(x)`, `int(x * 1_000_000_000)`, and
-- `n / 1_000_000_000`.
pub record SolFloat (F : Type 0) : Type 0 where
  pub is_nonzero : F → Bool
  pub to_lamports : F → ℤ
  pub of_lamports : ℤ → F

-- The attribute `balance` may be missing.
pub data Local (F : Type 0) : Type 0 where
  bankroll_lamports : ℤ → Local F
  bankroll : F → Local F
  balance_methods : ℤ → Local F
  balance : Option ℤ → Local F

pub record StateReconciler (F : Type 0) : Type 0 where
  pub local : Local F
  pub config : ReconcilerConfig
  pub dry_run : Bool
  pub last_onchain_balance : Option ℤ
  pub adjustments : List BalanceAdjustment

unfoldable pub new_reconciler : {F : Type 0} → Local F → ReconcilerConfig → Bool → StateReconciler F
new_reconciler local config dry_run = record {
  local = local;
  config = config;
  dry_run = dry_run;
  last_onchain_balance = none;
  adjustments = [];
}

unfoldable pub get_local_balance : {F : Type 0} → SolFloat F → Local F → ℤ
get_local_balance sol (bankroll_lamports n) = n
get_local_balance sol (bankroll x) = if sol.is_nonzero x then sol.to_lamports x else pos 0
get_local_balance sol (balance_methods n) = n
get_local_balance sol (balance none) = pos 0
get_local_balance sol (balance (some n)) = n

unfoldable pub abs_ℤ : ℤ → ℤ
abs_ℤ (pos n) = pos n
abs_ℤ (negsuc n) = pos (suc n)

unfoldable pub determine_reason : ℤ → Option ℤ → ℤ → AdjustmentReason
determine_reason delta none current = unknown
determine_reason delta (some last) current =
    let onchain_change = current -ℤ last in
    if is_zero (onchain_change -ℤ delta)
    then rpc_inconsistency
    else if ltb_ℤ (abs_ℤ delta) (abs_ℤ onchain_change)
    then missed_tx
    else reorg

-- `_apply_adjustment`, of the balance on the chain.
unfoldable pub apply_adjustment : {F : Type 0} → SolFloat F → ℤ → Local F → Local F
apply_adjustment sol n (bankroll_lamports old) = bankroll_lamports n
apply_adjustment sol n (bankroll old) = bankroll (sol.of_lamports n)
apply_adjustment sol n (balance_methods old) = balance_methods n
apply_adjustment sol n (balance old) = balance (some n)

unfoldable pub is_within : ℤ → ReconcilerConfig → Bool
is_within delta c = leb_ℤ (abs_ℤ delta) c.max_delta_without_alert

-- The record of a discrepancy.
unfoldable pub adjustment :
    {F : Type 0} → SolFloat F → ℤ → ℤ → StateReconciler F → BalanceAdjustment
adjustment sol onchain now r =
    let local = get_local_balance sol r.local in
    record {
      timestamp = now;
      local_balance_before = local;
      onchain_balance = onchain;
      delta = onchain -ℤ local;
      reason = determine_reason (onchain -ℤ local) r.last_onchain_balance onchain;
      tx_signatures = [];
      is_adjusted = not r.dry_run;
    }

-- `none` as the balance is an exception of the request, which is raised again.
unfoldable pub check_and_reconcile :
    {F : Type 0}
    → SolFloat F
    → Option ℤ
    → ℤ
    → StateReconciler F
    → Result Unit (Option BalanceAdjustment) × StateReconciler F
check_and_reconcile sol none now r = (err tt, r)
check_and_reconcile sol (some onchain) now r =
    if is_within (onchain -ℤ get_local_balance sol r.local) r.config then (ok none, r) else (
      ok (some (adjustment sol onchain now r)),
      record r {
        local = if r.dry_run then r.local else apply_adjustment sol onchain r.local;
        last_onchain_balance = some onchain;
        adjustments = r.adjustments ++ adjustment sol onchain now r ∷ [];
      },
    )

pub data AlertLevel : Type 0 where
  info : AlertLevel
  warning : AlertLevel
  critical : AlertLevel

unfoldable pub get_alert_level : BalanceAdjustment → ReconcilerConfig → AlertLevel
get_alert_level a c =
    if leb_ℤ c.critical_threshold (abs_ℤ a.delta)
    then critical
    else if leb_ℤ c.warning_threshold (abs_ℤ a.delta)
    then warning
    else info
