-- ===== src/Reconcile/Tests.antt =====
-- The reconciler at concrete inputs.
use engine_bot.Shared.{
  ◌≡◌, refl, true, false, Option, none, some, List, [], ◌∷◌, length, not, All, if◌then◌else◌,
}
use engine_bot.Shared.Int.{ℤ, pos, ◌-ℤ◌, is_zero}
use engine_bot.Reconcile.Balance
use engine_bot.Reconcile.Balance.{
  ReconcilerConfig, SolFloat, Local, StateReconciler, AlertLevel, new_reconciler, make_config,
  check_and_reconcile, adjustment, get_alert_level,
}
use engine_bot.Reconcile.Ledger.{check_all, opening, IsReadBack, check_all-opening}

-- The defaults.
abbrev config : ReconcilerConfig
config = record {
  is_enabled = true;
  interval_seconds = pos 300;
  warning_threshold = pos 5000000;
  critical_threshold = pos 50000000;
  max_delta_without_alert = pos 1000000;
}

config_valid : make_config config ≡ some config
unfolding make_config
config_valid = refl

-- Coins counted in lamports, as a stand-in for the floats: 15 lamports come back as 14.
abbrev lossy : SolFloat ℤ
lossy = record {
  is_nonzero = λ x. not (is_zero x);
  to_lamports = λ x. if is_zero (x -ℤ pos 15) then pos 14 else x;
  of_lamports = λ n. n;
}

abbrev live : StateReconciler ℤ
live = new_reconciler (Local.bankroll (pos 90000000)) config false

abbrev checks : List (Option ℤ × ℤ)
checks =
    (some (pos 90500000), pos 1)
    ∷ (none, pos 2)
    ∷ (some (pos 20000000), pos 3)
    ∷ (some (pos 30000000), pos 4)
    ∷ []

live_reads_back : All (λ c. IsReadBack lossy live.local c.0) checks
unfolding new_reconciler ◌-ℤ◌
live_reads_back = (refl, (tt, (refl, (refl, tt))))

check_all-opening_example : opening lossy (check_all lossy checks live) ≡ opening lossy live
check_all-opening_example = check_all-opening lossy checks live live_reads_back

two_recorded : length (check_all lossy checks live).adjustments ≡ 2
unfolding check_all check_and_reconcile new_reconciler Balance.is_within Balance.abs_ℤ
    Balance.get_local_balance Balance.apply_adjustment ◌-ℤ◌ adjustment
two_recorded = refl

-- An adjustment to 15 lamports leaves 14: the condition is needed.
one_is_lost :
    Balance.get_local_balance lossy (check_all lossy ((some (pos 15), pos 1) ∷ []) live).local
    ≡ pos 14
unfolding check_all check_and_reconcile new_reconciler Balance.is_within Balance.abs_ℤ
    Balance.get_local_balance Balance.apply_adjustment ◌-ℤ◌ adjustment
one_is_lost = refl

is_critical :
    get_alert_level (adjustment lossy (pos 20000000) (pos 3) live) config ≡ AlertLevel.critical
unfolding get_alert_level Balance.abs_ℤ adjustment ◌-ℤ◌ Balance.get_local_balance new_reconciler
is_critical = refl
