-- ===== src/Tiers/Whitelist.antt =====
-- strategy/tiers/autoscaler.py: the wallets that are never demoted.
use engine_bot.Shared.{
  ◌≡◌, ◌∙◌, inl, inr, String, true, false, Option, none, some, List, [], ◌∷◌, length, All, arith,
  str_eq, eq_iff, Bool-cases,
}
use engine_bot.Shared.Int.{pos, pos_part, ◌-ℤ◌, ltb_ℤ}
use engine_bot.Shared.Dict.{Dict, lookup}
use engine_bot.Shared.Keys.{has}
use engine_bot.Shared.Options.{get_or}
use engine_bot.Shared.Sets.{sorted, text_le, has-add, has-remove, has-set_of, has-sorted}
use engine_bot.Tiers.Scaling.{
  demotion, demoted, demote_one, demote_all, Candidate, promoted, promote_all, Ranked, ranked,
  is_lower, take, moved_down, move_all, start, result, demote_step, promote_step, size_step,
  params_of, calculate_tier_changes,
}
use engine_bot.Tiers.Data.{Reason, Metrics, Params, ParamsDict, Tiers, index}
use engine_bot.Tiers.Partition.{All-sorted, All-take}

-- The wallet stays in tier 1.
abbrev Stays : String → Tiers → Tiers → Type 0
Stays k t t' = has k t.tier1 ≡ true → has k t'.tier1 ≡ true

demoted-Stays :
    (k w : String) (m : Option Metrics) (reason : Option Reason) (t : Tiers)
    → str_eq w k ≡ false
    → Stays k t (demoted w m reason t)
unfolding demoted
demoted-Stays k w m none t other h = h
demoted-Stays k w m (some reason) t other h = ground (arith, has-remove k w t.tier1, other, h)

demote_one-Stays :
    (params : Params) (metrics : Dict Metrics) (k w : String) (t : Tiers)
    → has k params.whitelist ≡ true
    → Stays k t (demote_one params metrics w t)
unfolding demote_one
demote_one-Stays params metrics k w t listed h = elim (Bool-cases (str_eq w k)) [
  | inl same ↦
      let e : w ≡ k = (eq_iff w k).0 same in
      let skip : has w params.whitelist ≡ true = rw e listed in rw (skip, demote_one) h
  | inr other ↦
      let stays =
        demoted-Stays k w (lookup w metrics) (demotion params (lookup w metrics)) t other h in
      ground (arith, stays, h)
]

demote_all-Stays :
    (params : Params) (metrics : Dict Metrics) (k : String) (ws : List String) (t : Tiers)
    → has k params.whitelist ≡ true
    → Stays k t (demote_all params metrics ws t)
unfolding demote_all
demote_all-Stays params metrics k [] t listed h = h
demote_all-Stays params metrics k (w ∷ ws) t listed h =
    demote_all-Stays params metrics k ws (demote_one params metrics w t) listed
      (demote_one-Stays params metrics k w t listed h)

promote_all-Stays : (k : String) (cs : List Candidate) (t : Tiers) → Stays k t (promote_all cs t)
unfolding promote_all promoted
promote_all-Stays k [] t h = h
promote_all-Stays k (c ∷ cs) t h =
    promote_all-Stays k cs (promoted c t) (ground (arith, has-add k c.wallet t.tier1, h))

-- The wallets that may be moved down are not on the whitelist.
ranked-unlisted :
    (params : Params) (metrics : Dict Metrics) (ws : List String)
    → All (λ r. has r.wallet params.whitelist ≡ false) (ranked params metrics ws)
unfolding ranked
ranked-unlisted params metrics [] = tt
ranked-unlisted params metrics (w ∷ ws) =
    let rest = ranked-unlisted params metrics ws in ground arith

move_all-Stays :
    (params : Params) (metrics : Dict Metrics) (k : String) (rs : List Ranked) (t : Tiers)
    → has k params.whitelist ≡ true
    → All (λ r. has r.wallet params.whitelist ≡ false) rs
    → Stays k t (move_all metrics rs t)
unfolding move_all moved_down
move_all-Stays params metrics k [] t listed unlisted h = h
move_all-Stays params metrics k (r ∷ rs) t listed unlisted h =
    move_all-Stays params metrics k rs (moved_down metrics r t) listed unlisted.1
      (ground (arith, has-remove k r.wallet t.tier1, eq_iff r.wallet k, listed, unlisted.0, h))

size_step-Stays :
    (visit : List String → List String) (params : Params) (metrics : Dict Metrics) (k : String)
    (t : Tiers)
    → has k params.whitelist ≡ true
    → Stays k t (size_step visit params metrics t)
unfolding size_step
size_step-Stays visit params metrics k t listed h =
    let extra = pos (length t.tier1) -ℤ params.target_tier1_size in
    let down = ranked params metrics (visit t.tier1) in
    let P : Ranked → Type 0 = λ r. has r.wallet params.whitelist ≡ false in
    let stays =
      move_all-Stays params metrics k (take (pos_part extra) (sorted is_lower down)) t listed
        (All-take P (pos_part extra) (sorted is_lower down)
          (All-sorted P is_lower down (ranked-unlisted params metrics (visit t.tier1))))
        h in
    elim (Bool-cases (ltb_ℤ (pos 0) extra)) [
      | inl over ↦ rw (over, size_step) stays
      | inr fits ↦ rw (fits, size_step) h
    ]

-- A whitelisted wallet of tier 1 stays there, whatever its metrics, the target size and the order
-- in which Python goes through a set.
pub whitelisted_stays :
    (visit : List String → List String) (current_tiers : Dict (List String))
    (metrics_list : List Metrics) (params : Option ParamsDict) (k : String)
    → has k (params_of params).whitelist ≡ true
    → has k (get_or (lookup "tier_1" current_tiers) []) ≡ true
    → has k (calculate_tier_changes visit current_tiers metrics_list params).tier_1 ≡ true
unfolding calculate_tier_changes start result promote_step demote_step
whitelisted_stays visit current_tiers metrics_list params k listed here =
    let p = params_of params in
    let metrics = index metrics_list [] in
    let t0 = start current_tiers in
    let t1 = demote_step visit p metrics t0 in
    let t2 = promote_step visit p metrics t1 in
    let begins : has k t0.tier1 ≡ true =
      has-set_of k (get_or (lookup "tier_1" current_tiers) []) ∙ here in
    has-sorted text_le k (size_step visit p metrics t2).tier1
    ∙ size_step-Stays visit p metrics k t2 listed
        (promote_all-Stays k _ t1 (demote_all-Stays p metrics k (visit t0.tier1) t0 listed begins))
