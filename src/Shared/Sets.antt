-- ===== src/Shared/Sets.antt =====
-- Python's sets of texts, as lists, and its stable sort.
use Prim.Native.String.{String}
use mathlib.Core.Path.{◌≡◌, refl}
use mathlib.Core.Bool.{Bool, false, not, ◌&&◌, ◌||◌}
use mathlib.Core.List.{List, [], ◌∷◌, ◌++◌}
use native.Mathlib.Omega.{arith}
use text.Mathlib.Text.{◌==◌ as str_eq}
use text.Mathlib.TextEquality.{eq_iff}
use engine_bot.Shared.Tests.{if◌then◌else◌}
use engine_bot.Shared.Keys.{has, Distinct}
use text.Mathlib.Text.{is_le}
use Prim.Native.String.{compare}

-- `s.add(w)`, `s.remove(w)` of an element, `s | t` and `set(ws)`.
unfoldable pub add : String → List String → List String
add w s = if has w s then s else s ++ (w ∷ [])

unfoldable pub remove : String → List String → List String
remove w [] = []
remove w (x ∷ s) = let rest = remove w s in if str_eq x w then rest else x ∷ rest

unfoldable pub union : List String → List String → List String
union s [] = s
union s (w ∷ t) = union (add w s) t

unfoldable pub set_of : List String → List String
unfolding union
set_of ws = union [] ws

-- A stable sort by a number in ascending order, or in descending order for `reverse=True`.
module _ {ℓ} {A : Type ℓ} (before : A → A → Bool) where
  unfoldable pub place : A → List A → List A
  place x [] = x ∷ []
  place x (y ∷ ys) = let rest = place x ys in if before x y then x ∷ y ∷ ys else y ∷ rest

  unfoldable pub sorted : List A → List A
  sorted [] = []
  sorted (x ∷ xs) = place x (sorted xs)

-- `a <= b` of texts.
abbrev pub text_le : String → String → Bool
text_le a b = is_le (compare a b)

has-append : (k : String) (s t : List String) → has k (s ++ t) ≡ (has k s || has k t)
has-append k [] t = refl
has-append k (x ∷ s) t = ground (arith, has-append k s t)

pub has-add : (k w : String) (s : List String) → has k (add w s) ≡ (str_eq w k || has k s)
unfolding add
has-add k w s = ground (arith, has-append k s (w ∷ []), eq_iff w k)

pub has-remove :
    (k w : String) (s : List String) → has k (remove w s) ≡ (not (str_eq w k) && has k s)
unfolding remove
has-remove k w [] = ground arith
has-remove k w (x ∷ s) = ground (arith, has-remove k w s, eq_iff w k, eq_iff x w, eq_iff x k)

pub has-union : (k : String) (s t : List String) → has k (union s t) ≡ (has k s || has k t)
unfolding union
has-union k s [] = ground arith
has-union k s (w ∷ t) = ground (arith, has-union k (add w s) t, has-add k w s)

pub has-set_of : (k : String) (ws : List String) → has k (set_of ws) ≡ has k ws
unfolding set_of
has-set_of k ws = has-union k [] ws

-- The order in which Python goes through a set has its elements, and no others.
abbrev pub IsVisit : (List String → List String) → Type 0
IsVisit visit = (s : List String) (k : String) → has k (visit s) ≡ has k s

pub has-place :
    (before : String → String → Bool) (k x : String) (s : List String)
    → has k (place before x s) ≡ (str_eq x k || has k s)
unfolding place
has-place before k x [] = ground arith
has-place before k x (y ∷ s) = ground (arith, has-place before k x s)

pub has-sorted :
    (before : String → String → Bool) (k : String) (s : List String)
    → has k (sorted before s) ≡ has k s
unfolding sorted
has-sorted before k [] = refl
has-sorted before k (x ∷ s) =
    ground (arith, has-place before k x (sorted before s), has-sorted before k s)

place-Distinct :
    (before : String → String → Bool) (x : String) (s : List String)
    → has x s ≡ false
    → Distinct s
    → Distinct (place before x s)
unfolding place
place-Distinct before x [] out d = (refl, tt)
place-Distinct before x (y ∷ s) out d =
    ground
      (arith, eq_iff y x, eq_iff x y, has-place before y x s, place-Distinct before x s, out, d)

pub sorted-Distinct :
    (before : String → String → Bool) (s : List String) → Distinct s → Distinct (sorted before s)
unfolding sorted
sorted-Distinct before [] d = tt
sorted-Distinct before (x ∷ s) d =
    place-Distinct before x (sorted before s) (ground (arith, has-sorted before x s, d.0))
      (sorted-Distinct before s d.1)
