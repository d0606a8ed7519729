-- ===== src/Tiers/Moves.antt =====
-- strategy/tiers/autoscaler.py: what the moves of wallets keep.
use engine_bot.Shared.{
  ℕ, ◌+◌, ◌≡◌, refl, ◌∙◌, inl, inr, String, Bool, true, false, Option, none, some, List, [], ◌∷◌,
  All, All-imply, arith, eq_iff, if◌then◌else◌, Bool-cases,
}
use engine_bot.Shared.Dict.{Dict, lookup}
use engine_bot.Shared.Keys.{has}
use engine_bot.Shared.Sets.{has-add, has-remove}
use engine_bot.Tiers.Scaling.{
  demotion, demoted, demote_one, demote_all, Candidate, promoted, promote_all, Ranked, moved_down,
  move_all,
}
use engine_bot.Tiers.Data.{Reason, Metrics, Params, Tiers}

-- In how many of three tiers a wallet stands.
abbrev pub counts : Bool → ℕ
counts b = if b then 1 else 0

abbrev pub standing : String → List String → List String → List String → ℕ
standing k a b c = counts (has k a) + counts (has k b) + counts (has k c)

abbrev pub place_of : String → Tiers → ℕ
place_of k t = standing k t.tier1 t.tier2 t.tier3

pub All-of_has :
    (P : String → Type 0) (ws : List String) → ((k : String) → has k ws ≡ true → P k) → All P ws
All-of_has P [] h = tt
All-of_has P (w ∷ ws) h =
    (h w (ground (arith, eq_iff w w)), All-of_has P ws (λ k i. h k (ground (arith, i))))

-- A move of one wallet changes no count.
demoted-place_of :
    (k w : String) (m : Option Metrics) (reason : Option Reason) (t : Tiers)
    → place_of w t ≡ 1
    → has w t.tier2 ≡ false
    → place_of k (demoted w m reason t) ≡ place_of k t
unfolding demoted
demoted-place_of k w m none t one out = refl
demoted-place_of k w m (some reason) t one out =
    ground (arith, has-remove k w t.tier1, has-add k w t.tier3, eq_iff w k, one, out)

promoted-place_of :
    (k : String) (c : Candidate) (t : Tiers)
    → place_of c.wallet t ≡ 1
    → place_of k (promoted c t) ≡ place_of k t
unfolding promoted
promoted-place_of k c t one = ground (
  arith,
  has-add k c.wallet t.tier1,
  has-remove k c.wallet t.tier2,
  has-remove k c.wallet t.tier3,
  eq_iff c.wallet k,
  one,
)

moved_down-place_of :
    (k : String) (metrics : Dict Metrics) (r : Ranked) (t : Tiers)
    → place_of r.wallet t ≡ 1
    → has r.wallet t.tier3 ≡ false
    → place_of k (moved_down metrics r t) ≡ place_of k t
unfolding moved_down
moved_down-place_of k metrics r t one out =
    ground (
      arith,
      has-remove k r.wallet t.tier1,
      has-add k r.wallet t.tier2,
      eq_iff r.wallet k,
      one,
      out,
    )

demoted-tier2 :
    (w : String) (m : Option Metrics) (reason : Option Reason) (t : Tiers)
    → (demoted w m reason t).tier2 ≡ t.tier2
unfolding demoted
demoted-tier2 w m none t = refl
demoted-tier2 w m (some reason) t = refl

-- The runs of moves: the wallets to come still stand in one tier, as a move changes no count.
abbrev pub IsMovable : (Tiers → List String) → Tiers → String → Type 0
IsMovable other t w = (place_of w t ≡ 1) × (has w (other t) ≡ false)

abbrev pub Keeps : Tiers → Tiers → Type 0
Keeps t t' = (k : String) → place_of k t' ≡ place_of k t

demote_one-Keeps :
    (params : Params) (metrics : Dict Metrics) (w : String) (t : Tiers)
    → IsMovable (λ t. t.tier2) t w
    → Keeps t (demote_one params metrics w t) × ((demote_one params metrics w t).tier2 ≡ t.tier2)
unfolding demote_one
demote_one-Keeps params metrics w t h =
    let m = lookup w metrics in
    let moved : Keeps t (demoted w m (demotion params m) t) =
      λ k. demoted-place_of k w m (demotion params m) t h.0 h.1 in
    let same = demoted-tier2 w m (demotion params m) t in
    elim (Bool-cases (has w params.whitelist)) [
      | inl listed ↦ (λ k. rw (listed, demote_one) refl, rw listed)
      | inr free ↦ (λ k. rw (free, demote_one) (moved k), rw free same)
    ]

pub demote_all-Keeps :
    (params : Params) (metrics : Dict Metrics) (ws : List String) (t : Tiers)
    → All (IsMovable (λ t. t.tier2) t) ws
    → Keeps t (demote_all params metrics ws t)
unfolding demote_all
demote_all-Keeps params metrics [] t h k = refl
demote_all-Keeps params metrics (w ∷ ws) t h k =
    let (moved, same) = demote_one-Keeps params metrics w t h.0 in
    let left =
      All-imply (IsMovable (λ t. t.tier2) t)
        (IsMovable (λ t. t.tier2) (demote_one params metrics w t)) ws
        (λ j i. (moved j ∙ i.0, rw same i.1)) h.1 in
    demote_all-Keeps params metrics ws (demote_one params metrics w t) left k ∙ moved k

pub promote_all-Keeps :
    (cs : List Candidate) (t : Tiers)
    → All (λ c. place_of c.wallet t ≡ 1) cs
    → Keeps t (promote_all cs t)
unfolding promote_all
promote_all-Keeps [] t h k = refl
promote_all-Keeps (c ∷ cs) t h k =
    let moved : Keeps t (promoted c t) = λ j. promoted-place_of j c t h.0 in
    let left =
      All-imply (λ c. place_of c.wallet t ≡ 1) (λ d. place_of d.wallet (promoted c t) ≡ 1) cs
        (λ d i. moved d.wallet ∙ i) h.1 in
    promote_all-Keeps cs (promoted c t) left k ∙ moved k

pub move_all-Keeps :
    (metrics : Dict Metrics) (rs : List Ranked) (t : Tiers)
    → All (λ r. IsMovable (λ t. t.tier3) t r.wallet) rs
    → Keeps t (move_all metrics rs t)
unfolding move_all moved_down
move_all-Keeps metrics [] t h k = refl
move_all-Keeps metrics (r ∷ rs) t h k =
    let moved : Keeps t (moved_down metrics r t) =
      λ j. moved_down-place_of j metrics r t h.0.0 h.0.1 in
    let left =
      All-imply (λ r. IsMovable (λ t. t.tier3) t r.wallet)
        (λ d. IsMovable (λ t. t.tier3) (moved_down metrics r t) d.wallet) rs
        (λ d i. (moved d.wallet ∙ i.0, i.1)) h.1 in
    move_all-Keeps metrics rs (moved_down metrics r t) left k ∙ moved k
