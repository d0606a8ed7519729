-- ===== src/Failover/Ranking.antt =====
-- ingestion/rpc/failover.py: which endpoint the selection takes.
use engine_bot.Shared.{
  ◌≡◌, ◌⊎◌, ◌∙◌, ap, refl, inl, inr, String, str_eq_self, eq_iff, true, false, Option, none, some,
  List, [], ◌∷◌, map, All, arith, Bool-cases, All-imply,
}
use engine_bot.Shared.Int.{ℤ, pos, ◌-ℤ◌, ◌*ℤ◌, ◌≤ℤ◌}
use engine_bot.Shared.Dict.{Dict, lookup, contains, IsUnique, contains_of_lookup}
use engine_bot.Failover.Health
use engine_bot.Failover.Health.{HealthScore}
use engine_bot.Failover.Manager.{
  EndpointConfig, FailoverManager, Candidate, candidate, is_before, place, sort, select_best,
  score_for,
}

-- The sort never takes the second of these for the first.
abbrev pub IsFirst : Candidate → Candidate → Type 0
IsFirst c other = is_before other c ≡ false

IsFirst-self : (c : Candidate) → IsFirst c c
unfolding is_before
IsFirst-self c = ground arith

IsFirst-less : (a b : Candidate) → is_before a b ≡ true → IsFirst a b
unfolding is_before
IsFirst-less a b h = ground arith

IsFirst-trans : (a b c : Candidate) → IsFirst a b → IsFirst b c → IsFirst a c
unfolding is_before
IsFirst-trans a b c h k = ground arith

-- What is found after an item of another URL is found with that item in front.
lookup_past :
    (e x : String × EndpointConfig) (d : Dict EndpointConfig)
    → contains e.0 d ≡ false
    → lookup x.0 d ≡ some x.1
    → lookup x.0 (e ∷ d) ≡ some x.1
unfolding lookup
lookup_past e x d new found = ground (arith, eq_iff e.0 x.0, contains_of_lookup x.0 x.1 d found)

-- The first of the sorted candidates is that of an item, and no item comes before it.
sort-IsFirst :
    (m : FailoverManager) (e : String × EndpointConfig) (d : Dict EndpointConfig)
    → IsUnique (e ∷ d)
    → (x : String × EndpointConfig) × (cs : List Candidate) × (sort (map (candidate m) (e ∷ d))
        ≡ candidate m x ∷ cs)
      × (lookup x.0 (e ∷ d) ≡ some x.1)
      × All (λ y. IsFirst (candidate m x) (candidate m y)) (e ∷ d)
unfolding lookup
sort-IsFirst m e [] u = (e, [], refl, rw (str_eq_self e.0) refl, (IsFirst-self (candidate m e), tt))
sort-IsFirst m e (e' ∷ d) u =
    let (x, cs, sorted, found, firsts) = sort-IsFirst m e' d u.1 in
    elim (Bool-cases (is_before (candidate m x) (candidate m e))) [
      | inl before ↦ (
        x,
        place (candidate m e) cs,
        ap (place (candidate m e)) sorted ∙ rw before refl,
        lookup_past e x (e' ∷ d) u.0 found,
        (IsFirst-less _ _ before, firsts),
      )
      | inr after ↦ (
        e,
        candidate m x ∷ cs,
        ap (place (candidate m e)) sorted ∙ rw after refl,
        rw (str_eq_self e.0) refl,
        (
          IsFirst-self (candidate m e),
          All-imply _ _ (e' ∷ d)
              (λ y. IsFirst-trans (candidate m e) (candidate m x) (candidate m y) after) firsts,
        ),
      )
    ]

-- What the monitor knows of an endpoint, and its score, which is zero if it is not known.
abbrev pub known_score : FailoverManager → String → Option HealthScore
known_score m url = elim m.health_monitor [ none ↦ none | some x ↦ lookup url x.scores ]

abbrev pub score_or_zero : Option HealthScore → ℤ
score_or_zero none = pos 0
score_or_zero (some s) = pos s.score

-- The score less ten points for each step of the priority.
abbrev pub effective : FailoverManager → String × EndpointConfig → ℤ
effective m e = score_or_zero (known_score m e.0) -ℤ e.1.priority *ℤ pos 100000

-- Neither is the effective score of the second higher, nor, at the same effective score, its
-- priority number smaller.
abbrev pub IsNotBeaten :
    FailoverManager → String × EndpointConfig → String × EndpointConfig → Type 0
IsNotBeaten m x y =
    (effective m y ≤ℤ effective m x)
    × (effective m y ≡ effective m x → x.1.priority ≤ℤ y.1.priority)

candidate-effective :
    (m : FailoverManager) (e : String × EndpointConfig)
    → (candidate m e).effective_score ≡ effective m e
unfolding candidate score_for Health.get_score
candidate-effective m e = ground arith

IsNotBeaten-of :
    (m : FailoverManager) (x y : String × EndpointConfig)
    → IsFirst (candidate m x) (candidate m y)
    → IsNotBeaten m x y
unfolding is_before candidate
IsNotBeaten-of m x y h =
    let a = candidate-effective m x in
    let b = candidate-effective m y in
    rw (← a, ← b) (ground (arith, h), λ same. ground (arith, h, same))

-- The chosen item of the endpoints: it is found under its URL, and no item beats it.
abbrev pub IsBest : FailoverManager → String → Type 0
IsBest m url =
    (config : EndpointConfig) × (lookup url m.endpoints ≡ some config)
    × All (λ y. IsNotBeaten m (url, config) y) m.endpoints

-- `select_best` over the items.
best_of_items :
    (m : FailoverManager) (d : Dict EndpointConfig)
    → IsUnique d
    → ((d ≡ [])
        ⊎ ((url : String) × (config : EndpointConfig) × (elim (sort (map (candidate m) d))
                as (λ x. Option String) [ [] ↦ none | c ∷ cs ↦ some c.url ]
              ≡ some url)
            × (lookup url d ≡ some config)
            × All (λ y. IsNotBeaten m (url, config) y) d))
unfolding candidate
best_of_items m [] u = inl refl
best_of_items m (e ∷ d) u =
    let (x, cs, sorted, found, firsts) = sort-IsFirst m e d u in
    inr (x.0, x.1, rw sorted refl, found, All-imply _ _ (e ∷ d) (λ y. IsNotBeaten-of m x y) firsts)

-- `select_best` answers nothing exactly where there are no endpoints, and else an endpoint that
-- no endpoint comes before: none has a higher effective score, and none of the same effective
-- score has a smaller priority number.
pub select_best-IsBest :
    (m : FailoverManager)
    → IsUnique m.endpoints
    → ((m.endpoints ≡ []) × (select_best m ≡ none))
      ⊎ ((url : String) × (select_best m ≡ some url) × IsBest m url)
unfolding select_best
select_best-IsBest m u = elim (best_of_items m m.endpoints u) [
  | inl empty ↦ inl (empty, rw (empty, select_best) refl)
  | inr (url, config, chosen, found, firsts) ↦ inr (url, chosen, (config, found, firsts))
]
