-- ===== src/Failover/Rounds.antt =====
-- ingestion/rpc/monitor.py: a round of the background thread, recovery after errors, and the best
-- endpoint.
use engine_bot.Shared.{
  ℕ, zero, suc, ◌-◌, ◌≤◌, ◌<◌, ◌≡◌, ◌⊎◌, ◌∙◌, ap, refl, inl, inr, String, str_eq_self, eq_iff, Bool,
  true, none, some, List, [], ◌∷◌, All, arith, ltb, Bool-cases, Option-cases, if◌then◌else◌,
  All-imply,
}
use engine_bot.Shared.Int.{ℤ}
use engine_bot.Shared.Dict.{
  Dict, lookup, keys, values, map_some, IsUnique, lookup-insert, contains_of_lookup,
  lookup_of_contains,
}
use engine_bot.Shared.Keys.{has, Distinct, has-keys, keys-Distinct}
use engine_bot.Failover.Health.{
  HealthScore, HealthMonitor, CheckResult, answered, raised, full_score, score_or_new, score_of,
  checked, check_failed, check_endpoint, succeeded, report_success, check_urls, background_round,
  best_of, get_best_endpoint,
}
use engine_bot.Failover.Scores.{IsFair, IsSound}

-- The entry that a check leaves of an entry.
unfoldable pub visited : (String → CheckResult) → ℤ → String → HealthScore → HealthScore
visited callable now url s = elim (callable url) [
  | answered latency ↦ checked latency now s
  | raised latency ↦ check_failed latency now s
]

check_urls-exact :
    (callable : String → CheckResult) (now : ℤ) (urls : List String) (m : HealthMonitor)
    (k : String)
    → Distinct urls
    → lookup k (check_urls callable now urls m).scores ≡ (
        if has k urls
        then some (visited callable now k (score_or_new k full_score m))
        else lookup k m.scores)
unfolding check_urls check_endpoint visited score_or_new
check_urls-exact callable now [] m k d = refl
check_urls-exact callable now (url ∷ urls) m k d =
    let m' : HealthMonitor = (check_endpoint callable now url m).1 in
    check_urls-exact callable now urls m' k d.1
    ∙ ground (
      arith,
      eq_iff url k,
      d.0,
      lookup-insert url k (visited callable now url (score_or_new url full_score m)) m.scores,
    )

-- A round of the background thread of a running monitor, whose keys are distinct, checks each of
-- its endpoints exactly once and adds none: every entry afterwards is the one that a single
-- check leaves.
pub background_round-exact :
    (callable : String → CheckResult) (now : ℤ) (m : HealthMonitor) (k : String)
    → IsUnique m.scores
    → m.is_running ≡ true
    → lookup k (background_round callable now m).scores
      ≡ map_some (visited callable now k) (lookup k m.scores)
unfolding background_round score_or_new
background_round-exact callable now m k u run =
    let exact = check_urls-exact callable now (keys m.scores) m k (keys-Distinct m.scores u) in
    elim (Option-cases (lookup k m.scores)) [
      | inl absent ↦
          ground (arith, exact, absent, has-keys k m.scores, lookup_of_contains k m.scores)
      | inr (s, found) ↦
          ground (arith, exact, found, has-keys k m.scores, contains_of_lookup k s m.scores found)
    ]

-- `n` successes, one after another.
unfoldable pub report_successes : ℕ → String → ℤ → HealthMonitor → HealthMonitor
report_successes zero url now m = m
report_successes (suc n) url now m = report_successes n url now (report_success url now m)

once :
    (url : String) (now : ℤ) (m : HealthMonitor) (s : HealthScore)
    → lookup url m.scores ≡ some s
    → lookup url (report_success url now m).scores ≡ some (succeeded now s)
unfolding report_success
once url now m s found =
    rw (found, report_success)
      (lookup-insert url url (succeeded now s) m.scores ∙ rw (str_eq_self url) refl)

-- After a success and as many more as there are half errors, no error is left of those counted
-- against an endpoint, and its score is 100 less a tenth of its latency in milliseconds, or 0
-- where that is negative.
report_success-recovers :
    (n : ℕ) (url : String) (now : ℤ) (m : HealthMonitor) (s : HealthScore)
    → lookup url m.scores ≡ some s
    → s.half_errors ≤ suc n
    → (s' : HealthScore) × (lookup url (report_successes (suc n) url now m).scores ≡ some s')
      × (s'.half_errors ≡ 0)
      × (s'.score ≡ full_score - s.latency)
unfolding report_successes succeeded score_of
report_success-recovers zero url now m s found few =
    (succeeded now s, once url now m s found, omega arith, ground arith)
report_success-recovers (suc n) url now m s found few =
    let rest =
      report_success-recovers n url now (report_success url now m) (succeeded now s)
        (once url now m s found) (omega arith) in
    rest

-- Where the entries stand under their URLs, the largest is found among them.
best_of-exact :
    (b : HealthScore) (d : Dict HealthScore)
    → IsUnique d
    → All IsFair d
    → ((best_of b (values d) ≡ b)
        ⊎ (lookup (best_of b (values d)).url d ≡ some (best_of b (values d))))
      × ((b.score ≤ (best_of b (values d)).score)
          × All (λ e. e.1.score ≤ (best_of b (values d)).score) d)
unfolding best_of lookup
best_of-exact b [] u fair = (inl refl, (omega arith, tt))
best_of-exact b (e ∷ d) u fair =
    let b' : HealthScore = if ltb b.score e.1.score then e.1 else b in
    let best : HealthScore = best_of b' (values d) in
    let ih = best_of-exact b' d u.1 fair.1 in
    let upper : (b.score ≤ b'.score) × (e.1.score ≤ b'.score) = ground arith in
    (
      elim ih.0 [
        | inl first ↦ elim (Bool-cases (ltb b.score e.1.score)) [
          | inl more ↦
              let it : best ≡ e.1 = first ∙ rw more refl in
              inr (ground (arith, it, ap (λ s. s.url) it, fair.0.0, eq_iff e.0 best.url))
          | inr less ↦ inl (first ∙ rw less refl)
        ]
        | inr found ↦ inr (
            ground
              (arith, found, eq_iff e.0 best.url, contains_of_lookup best.url best d found, u.0))
      ],
      (omega arith, (omega arith, ih.1.1)),
    )

-- What the best endpoint is, over the entries.
best_entry :
    (e : String × HealthScore) (d : Dict HealthScore)
    → IsUnique (e ∷ d)
    → All IsFair (e ∷ d)
    → (lookup (best_of e.1 (values d)).url (e ∷ d) ≡ some (best_of e.1 (values d)))
      × All (λ x. x.1.score ≤ (best_of e.1 (values d)).score) (e ∷ d)
unfolding lookup
best_entry e d u fair =
    let best : HealthScore = best_of e.1 (values d) in
    let exact = best_of-exact e.1 d u.1 fair.1 in
    (
      elim exact.0 [
        | inl first ↦ ground (arith, first, ap (λ s. s.url) first, fair.0.0, eq_iff e.0 best.url)
        | inr found ↦
            ground
              (arith, found, eq_iff e.0 best.url, contains_of_lookup best.url best d found, u.0)
      ],
      exact.1,
    )

zero_scores :
    (n : ℕ) (d : Dict HealthScore) → n ≤ 0 → All (λ e. e.1.score ≤ n) d → All (λ e. e.1.score ≡ 0) d
zero_scores n d z = All-imply (λ e. e.1.score ≤ n) (λ e. e.1.score ≡ 0) d (λ e low. omega arith)

best-Max :
    (is_running : Bool) (d : Dict HealthScore)
    → IsUnique d
    → All IsFair d
    → ((url : String) × (s : HealthScore) × (get_best_endpoint
            (record { scores = d; is_running = is_running })
          ≡ some url)
        × (lookup url d ≡ some s)
        × (0 < s.score)
        × All (λ e. e.1.score ≤ s.score) d)
      ⊎ ((get_best_endpoint (record { scores = d; is_running = is_running }) ≡ none)
          × All (λ e. e.1.score ≡ 0) d)
unfolding get_best_endpoint
best-Max is_running [] u fair = inr (refl, tt)
best-Max is_running (e ∷ d) u fair =
    let best : HealthScore = best_of e.1 (values d) in
    let entry = best_entry e d u fair in
    elim (Bool-cases (ltb 0 best.score)) [
      | inl positive ↦ inl (best.url, best, rw positive refl, entry.0, ground arith, entry.1)
      | inr zeroed ↦ inr (rw zeroed refl, zero_scores best.score (e ∷ d) (ground arith) entry.1)
    ]

-- Where every URL has one entry, which bears it: the best endpoint is one of the monitored
-- endpoints, with a positive score that no other exceeds; and where there is none, every score
-- is 0.
pub get_best_endpoint-Max :
    (m : HealthMonitor)
    → IsSound m
    → ((url : String) × (s : HealthScore) × (get_best_endpoint m ≡ some url)
        × (lookup url m.scores ≡ some s)
        × (0 < s.score)
        × All (λ e. e.1.score ≤ s.score) m.scores)
      ⊎ ((get_best_endpoint m ≡ none) × All (λ e. e.1.score ≡ 0) m.scores)
get_best_endpoint-Max m h = best-Max m.is_running m.scores h.0 h.1
