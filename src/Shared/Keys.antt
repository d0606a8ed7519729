-- ===== src/Shared/Keys.antt =====
-- Membership in a list of keys, for loops over the keys of a dictionary.
use mathlib.Core.Path.{◌≡◌, refl, ◌∙◌}
use mathlib.Core.Bool.{Bool, true, false}
use mathlib.Core.List.{List, [], ◌∷◌}
use Prim.Native.String.{String}
use native.Mathlib.Omega.{arith}
use text.Mathlib.Text.{◌==◌ as str_eq}
use engine_bot.Shared.Tests.{if◌then◌else◌}
use engine_bot.Shared.Dict.{Dict, contains, keys, IsUnique}

abbrev pub has : String → List String → Bool
has k [] = false
has k (h ∷ hs) = if str_eq h k then true else has k hs

-- No key stands twice in the list.
abbrev pub Distinct : List String → Type 0
Distinct [] = Unit
Distinct (h ∷ hs) = (has h hs ≡ false) × Distinct hs

module _ {ℓ} {V : Type ℓ} where
  pub has-keys : (k : String) (d : Dict V) → has k (keys d) ≡ contains k d
  unfolding contains
  has-keys k [] = refl
  has-keys k (e ∷ d) = ground (arith, has-keys k d)

  pub keys-Distinct : (d : Dict V) → IsUnique d → Distinct (keys d)
  keys-Distinct [] u = tt
  keys-Distinct (e ∷ d) u = (has-keys e.0 d ∙ u.0, keys-Distinct d u.1)
