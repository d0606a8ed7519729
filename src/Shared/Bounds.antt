-- ===== src/Shared/Bounds.antt =====
-- Bounds on a number that may be missing.
use mathlib.Core.Path.{◌≡◌}
use mathlib.Core.Option.{Option, none, some, some-injective}
use engine_bot.Shared.Int.{ℤ, ◌≤ℤ◌}

-- The value is known, and it is at least or at most the bound.
abbrev pub IsAtLeast : Option ℤ → ℤ → Type 0
IsAtLeast o least = (v : ℤ) × (o ≡ some v) × (least ≤ℤ v)

abbrev pub IsAtMost : Option ℤ → ℤ → Type 0
IsAtMost o most = (v : ℤ) × (o ≡ some v) × (v ≤ℤ most)

pub least_some : (v least : ℤ) → IsAtLeast (some v) least → least ≤ℤ v
least_some v least (v', same, le) = let e : v ≡ v' = some-injective _ _ same in rw e le

pub most_some : (v most : ℤ) → IsAtMost (some v) most → v ≤ℤ most
most_some v most (v', same, le) = let e : v ≡ v' = some-injective _ _ same in rw e le

pub least_none : {A : Type 0} (least : ℤ) → IsAtLeast none least → A
least_none least (v, same, le) = cc

pub most_none : {A : Type 0} (most : ℤ) → IsAtMost none most → A
most_none most (v, same, le) = cc
