-- ===== src/Tiers/Partition.antt =====
-- strategy/tiers/autoscaler.py: no wallet is lost or doubled.
use engine_bot.Shared.{ℕ, ◌≤◌, String, Bool, List, [], ◌∷◌, All, arith}
use engine_bot.Shared.Dict.{Dict}
use engine_bot.Shared.Sets.{place, sorted}
use engine_bot.Tiers.Scaling.{take}
use engine_bot.Tiers.Data.{Tiers}
use engine_bot.Tiers.Moves.{place_of}

module _ {A : Type 0} (P : A → Type 0) where
  All-place :
      (before : A → A → Bool) (x : A) (xs : List A) → P x → All P xs → All P (place before x xs)
  unfolding place
  All-place before x [] p h = (p, tt)
  All-place before x (y ∷ ys) p h = let rest = All-place before x ys p h.1 in ground arith

  pub All-sorted : (before : A → A → Bool) (xs : List A) → All P xs → All P (sorted before xs)
  unfolding sorted
  All-sorted before [] h = tt
  All-sorted before (x ∷ xs) h =
      All-place before x (sorted before xs) h.0 (All-sorted before xs h.1)

  pub All-take : (n : ℕ) (xs : List A) → All P xs → All P (take n xs)
  All-take n [] h = tt
  All-take ℕ.zero (x ∷ xs) h = tt
  All-take (ℕ.suc n) (x ∷ xs) h = (h.0, All-take n xs h.1)

-- A wallet that stands in a tier, of a configuration with no wallet twice, stands there only.
abbrev IsApart : Tiers → Type 0
IsApart t = (k : String) → place_of k t ≤ 1
