-- ===== src/Shared/Dict.antt =====
-- Python's `dict` with text keys, as the list of its items in insertion order.
use Prim.Native.Nat.{◌+◌, ◌≤◌}
use Prim.Native.String.{String}
use mathlib.Core.Path.{◌≡◌, refl, subst₂}
use mathlib.Core.Logic.{inl, inr}
use mathlib.Core.Bool.{Bool, true, false}
use mathlib.Core.Option.{Option, none, some}
use mathlib.Core.List.{List, [], ◌∷◌}
use native.Mathlib.Omega.{arith}
use text.Mathlib.Text.{◌==◌ as str_eq}
use text.Mathlib.TextEquality.{eq_iff}
use engine_bot.Shared.Tests.{if◌then◌else◌, Bool-cases, String-cases}
use engine_bot.Shared.Lists.{length, All, All-imply}

abbrev pub Dict {ℓ} : Type ℓ → Type ℓ
Dict V = List (String × V)

module _ {ℓ} {V : Type ℓ} where
  -- `d.get(k)`
  unfoldable pub lookup : String → Dict V → Option V
  lookup k [] = none
  lookup k (e ∷ d) = if str_eq e.0 k then some e.1 else lookup k d

  -- `k in d`
  unfoldable pub contains : String → Dict V → Bool
  contains k [] = false
  contains k (e ∷ d) = if str_eq e.0 k then true else contains k d

  -- `d[k] = v`: an old key keeps its place, a new one goes to the end.
  unfoldable pub insert : String → V → Dict V → Dict V
  insert k v [] = (k, v) ∷ []
  insert k v (e ∷ d) = if str_eq e.0 k then (k, v) ∷ d else e ∷ insert k v d

  -- `del d[k]` where the key is there, `d.pop(k, None)`.
  unfoldable pub erase : String → Dict V → Dict V
  erase k [] = []
  erase k (e ∷ d) = let rest = erase k d in if str_eq e.0 k then rest else e ∷ rest

  -- `list(d.keys())` and `d.values()`
  abbrev pub keys : Dict V → List String
  keys [] = []
  keys (e ∷ d) = e.0 ∷ keys d

  abbrev pub values : Dict V → List V
  values [] = []
  values (e ∷ d) = e.1 ∷ values d

  -- No key stands twice.
  abbrev pub IsUnique : Dict V → Type 0
  IsUnique [] = Unit
  IsUnique (e ∷ d) = (contains e.0 d ≡ false) × IsUnique d

module _ {ℓ} {V : Type ℓ} where
  pub lookup-insert :
      (k j : String) (v : V) (d : Dict V)
      → lookup j (insert k v d) ≡ (if str_eq k j then some v else lookup j d)
  unfolding lookup insert
  lookup-insert k j v [] = refl
  lookup-insert k j v (e ∷ d) =
      ground (arith, eq_iff e.0 k, eq_iff e.0 j, eq_iff k j, lookup-insert k j v d)

  pub lookup-erase :
      (k j : String) (d : Dict V) → lookup j (erase k d) ≡ (if str_eq k j then none else lookup j d)
  unfolding lookup erase
  lookup-erase k j [] = ground arith
  lookup-erase k j (e ∷ d) =
      ground (arith, eq_iff e.0 k, eq_iff e.0 j, eq_iff k j, lookup-erase k j d)

  pub contains-insert :
      (k j : String) (v : V) (d : Dict V)
      → contains j (insert k v d) ≡ (if str_eq k j then true else contains j d)
  unfolding contains insert
  contains-insert k j v [] = refl
  contains-insert k j v (e ∷ d) =
      ground (arith, eq_iff e.0 k, eq_iff e.0 j, eq_iff k j, contains-insert k j v d)

  pub contains-erase :
      (k j : String) (d : Dict V)
      → contains j (erase k d) ≡ (if str_eq k j then false else contains j d)
  unfolding contains erase
  contains-erase k j [] = ground arith
  contains-erase k j (e ∷ d) =
      ground (arith, eq_iff e.0 k, eq_iff e.0 j, eq_iff k j, contains-erase k j d)

  pub lookup-none : (k : String) (d : Dict V) → contains k d ≡ false → lookup k d ≡ none
  unfolding lookup contains
  lookup-none k [] h = refl
  lookup-none k (e ∷ d) h = ground (arith, lookup-none k d)

  pub contains_of_lookup :
      (k : String) (v : V) (d : Dict V) → lookup k d ≡ some v → contains k d ≡ true
  unfolding lookup contains
  contains_of_lookup k v [] h = cc
  contains_of_lookup k v (e ∷ d) h = ground (arith, contains_of_lookup k v d)

  pub lookup_of_contains :
      (k : String) (d : Dict V) → contains k d ≡ true → (v : V) × (lookup k d ≡ some v)
  unfolding lookup contains
  lookup_of_contains k [] h = cc
  lookup_of_contains k (e ∷ d) h = elim (Bool-cases (str_eq e.0 k)) [
    | inl hit ↦ (e.1, rw hit)
    | inr miss ↦ rw miss (lookup_of_contains k d (rw miss at h))
  ]

  pub length-insert :
      (k : String) (v : V) (d : Dict V)
      → length (insert k v d) ≡ (if contains k d then length d else length d + 1)
  unfolding contains insert
  length-insert k v [] = refl
  length-insert k v (e ∷ d) = ground (arith, length-insert k v d)

  pub length-erase-le : (k : String) (d : Dict V) → length (erase k d) ≤ length d
  unfolding erase
  length-erase-le k [] = omega arith
  length-erase-le k (e ∷ d) = ground (arith, length-erase-le k d)

  pub insert-IsUnique : (k : String) (v : V) (d : Dict V) → IsUnique d → IsUnique (insert k v d)
  unfolding insert contains
  insert-IsUnique k v [] h = (refl, tt)
  insert-IsUnique k v (e ∷ d) h =
      ground
        (arith, eq_iff e.0 k, eq_iff k e.0, contains-insert k e.0 v d, insert-IsUnique k v d h.1)

  pub erase-IsUnique : (k : String) (d : Dict V) → IsUnique d → IsUnique (erase k d)
  unfolding erase
  erase-IsUnique k [] h = tt
  erase-IsUnique k (e ∷ d) h = ground (arith, contains-erase k e.0 d, erase-IsUnique k d h.1)

  pub erase-missing : (k : String) (d : Dict V) → contains k d ≡ false → erase k d ≡ d
  unfolding erase contains
  erase-missing k [] h = refl
  erase-missing k (e ∷ d) h = ground (arith, erase-missing k d)

  pub All-insert {κ} :
      (P : String × V → Type κ) (k : String) (v : V) (d : Dict V)
      → All P d
      → P (k, v)
      → All P (insert k v d)
  unfolding insert
  All-insert P k v [] h p = (p, tt)
  All-insert P k v (e ∷ d) h p = ground (arith, All-insert P k v d h.1 p)

  pub All-erase {κ} :
      (P : String × V → Type κ) (k : String) (d : Dict V) → All P d → All P (erase k d)
  unfolding erase
  All-erase P k [] h = h
  All-erase P k (e ∷ d) h = ground (arith, All-erase P k d h.1)

  -- What holds of every item holds of the one that is found.
  pub All-lookup {κ} :
      (P : String × V → Type κ) (k : String) (v : V) (d : Dict V)
      → All P d
      → lookup k d ≡ some v
      → P (k, v)
  unfolding lookup
  All-lookup P k v [] h e = cc
  All-lookup P k v (x ∷ d) h e = elim (String-cases x.0 k) [
    | inl same ↦
        let found : x.1 ≡ v = ground (arith, eq_iff x.0 k) in
        subst₂ (λ a b. P (a, b)) same found h.0
    | inr other ↦ All-lookup P k v d h.1 (rw other.1 at e)
  ]

module _ {ℓ} {V : Type ℓ} where
  abbrev pub map_some : (V → V) → Option V → Option V
  map_some f none = none
  map_some f (some v) = some (f v)

  -- A write through a reference to the object that is stored under `k`.
  unfoldable pub modify : String → (V → V) → Dict V → Dict V
  modify k f [] = []
  modify k f (e ∷ d) =
      let rest = modify k f d in if str_eq e.0 k then (e.0, f e.1) ∷ rest else e ∷ rest

  pub lookup-modify :
      (k j : String) (f : V → V) (d : Dict V)
      → lookup j (modify k f d) ≡ (if str_eq k j then map_some f (lookup j d) else lookup j d)
  unfolding lookup modify
  lookup-modify k j f [] = ground arith
  lookup-modify k j f (e ∷ d) =
      ground (arith, eq_iff e.0 k, eq_iff e.0 j, eq_iff k j, lookup-modify k j f d)

  pub contains-modify :
      (k j : String) (f : V → V) (d : Dict V) → contains j (modify k f d) ≡ contains j d
  unfolding contains modify
  contains-modify k j f [] = refl
  contains-modify k j f (e ∷ d) = ground (arith, contains-modify k j f d)

  pub length-modify : (k : String) (f : V → V) (d : Dict V) → length (modify k f d) ≡ length d
  unfolding modify
  length-modify k f [] = refl
  length-modify k f (e ∷ d) = ground (arith, length-modify k f d)

  pub modify-IsUnique : (k : String) (f : V → V) (d : Dict V) → IsUnique d → IsUnique (modify k f d)
  unfolding modify
  modify-IsUnique k f [] h = tt
  modify-IsUnique k f (e ∷ d) h =
      ground (arith, contains-modify k e.0 f d, modify-IsUnique k f d h.1)

  pub All-modify {κ} :
      (P : String × V → Type κ) (k : String) (f : V → V) (d : Dict V)
      → ((e : String × V) → P e → P (e.0, f e.1))
      → All P d
      → All P (modify k f d)
  unfolding modify
  All-modify P k f [] g h = h
  All-modify P k f (e ∷ d) g h = ground (arith, g e h.0, All-modify P k f d g h.1)

  -- Deleting the keys of a list, one after another.
  unfoldable pub erase_all : List String → Dict V → Dict V
  erase_all [] d = d
  erase_all (k ∷ ks) d = erase_all ks (erase k d)

  -- A key that is not deleted keeps its item in front.
  pub erase_all-cons :
      (ks : List String) (e : String × V) (d : Dict V)
      → All (λ k. str_eq e.0 k ≡ false) ks
      → erase_all ks (e ∷ d) ≡ e ∷ erase_all ks d
  unfolding erase_all erase
  erase_all-cons [] e d h = refl
  erase_all-cons (k ∷ ks) e d h = rw h.0 (erase_all-cons ks e (erase k d) h.1)

  -- A missing key differs from every key.
  pub All-ne_of_missing :
      (k : String) (d : Dict V) → contains k d ≡ false → All (λ e. str_eq k e.0 ≡ false) d
  unfolding contains
  All-ne_of_missing k [] h = tt
  All-ne_of_missing k (e ∷ d) h = ground (arith, eq_iff e.0 k, eq_iff k e.0, All-ne_of_missing k d)

  -- Every item of a dictionary is in it under its key.
  pub All-contains : (d : Dict V) → All (λ e. contains e.0 d ≡ true) d
  unfolding contains
  All-contains [] = tt
  All-contains (e ∷ d) = (
    ground (arith, eq_iff e.0 e.0),
    All-imply (λ x. contains x.0 d ≡ true) (λ x. contains x.0 (e ∷ d) ≡ true) d
        (λ x h. ground arith) (All-contains d),
  )
