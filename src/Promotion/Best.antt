-- ===== src/Promotion/Best.antt =====
-- strategy/promotion.py: the best candidates are promoted.
use engine_bot.Shared.{
  ℕ, ◌-◌, ◌≤◌, ◌≡◌, ◌∙◌, ap, refl, inl, inr, Bool, true, List, [], ◌∷◌, ◌++◌, length, keep, All,
  arith, leb, Bool-cases, if◌then◌else◌, All-imply,
}
use engine_bot.Shared.Int.{pos, ◌≤ℤ◌, ltb_ℤ}
use mathlib.Core.List.{Perm}
use mathlib.Core.List.Perm
use engine_bot.Promotion.Daily.{
  WalletProfileInput, PromotionParams, evaluate_prune, evaluate_promotion, prune, qualify, sort_key,
  place, sort, take, slice, promote, daily_prune_and_promote,
}

place-Perm : (w : WalletProfileInput) (xs : List WalletProfileInput) → Perm (place w xs) (w ∷ xs)
place-Perm w [] = Perm.rfl
place-Perm w (x ∷ xs) = elim (Bool-cases (ltb_ℤ (sort_key w) (sort_key x))) [
  | inl larger ↦ rw larger (Perm.trans (Perm.cons x (place-Perm w xs)) (Perm.swap w x xs))
  | inr other ↦ rw other Perm.rfl
]

sort-Perm : (ws : List WalletProfileInput) → Perm (sort ws) ws
sort-Perm [] = Perm.rfl
sort-Perm (w ∷ ws) = Perm.trans (place-Perm w (sort ws)) (Perm.cons w (sort-Perm ws))

-- No later key is larger.
abbrev pub IsSorted : List WalletProfileInput → Type 0
IsSorted [] = Unit
IsSorted (w ∷ ws) = All (λ r. sort_key r ≤ℤ sort_key w) ws × IsSorted ws

All-place :
    (P : WalletProfileInput → Type 0) (w : WalletProfileInput) (xs : List WalletProfileInput)
    → P w
    → All P xs
    → All P (place w xs)
All-place P w [] p h = (p, tt)
All-place P w (x ∷ xs) p h = ground (arith, All-place P w xs p h.1)

All-sort :
    (P : WalletProfileInput → Type 0) (ws : List WalletProfileInput) → All P ws → All P (sort ws)
All-sort P [] h = tt
All-sort P (w ∷ ws) h = All-place P w (sort ws) h.0 (All-sort P ws h.1)

place-IsSorted :
    (w : WalletProfileInput) (xs : List WalletProfileInput) → IsSorted xs → IsSorted (place w xs)
place-IsSorted w [] h = (tt, tt)
place-IsSorted w (x ∷ xs) h = elim (Bool-cases (ltb_ℤ (sort_key w) (sort_key x))) [
  | inl larger ↦
      rw larger
        (All-place (λ r. sort_key r ≤ℤ sort_key x) w xs (ground arith) h.0, place-IsSorted w xs h.1)
  | inr other ↦ rw other (
    (
      ground arith,
      All-imply (λ r. sort_key r ≤ℤ sort_key x) (λ r. sort_key r ≤ℤ sort_key w) xs
          (λ r le. ground arith) h.0,
    ),
    h,
  )
]

sort-IsSorted : (ws : List WalletProfileInput) → IsSorted (sort ws)
sort-IsSorted [] = tt
sort-IsSorted (w ∷ ws) = place-IsSorted w (sort ws) (sort-IsSorted ws)

drop : ℕ → List WalletProfileInput → List WalletProfileInput
drop n [] = []
drop n (w ∷ ws) = let rest = drop (n - 1) ws in if leb n 0 then w ∷ ws else rest

All-drop :
    (P : WalletProfileInput → Type 0) (n : ℕ) (ws : List WalletProfileInput)
    → All P ws
    → All P (drop n ws)
unfolding drop
All-drop P n [] h = tt
All-drop P n (w ∷ ws) h = ground (arith, All-drop P (n - 1) ws h.1)

All-take :
    (P : WalletProfileInput → Type 0) (n : ℕ) (ws : List WalletProfileInput)
    → All P ws
    → All P (take n ws)
All-take P n [] h = tt
All-take P n (w ∷ ws) h = ground (arith, All-take P (n - 1) ws h.1)

-- Cutting a sorted list: what is taken is not below what is left.
take-drop :
    (n : ℕ) (ws : List WalletProfileInput)
    → IsSorted ws
    → (take n ws ++ drop n ws ≡ ws)
      × (All (λ w. All (λ r. sort_key r ≤ℤ sort_key w) (drop n ws)) (take n ws))
      × (length (take n ws) ≤ n)
unfolding drop
take-drop n [] h = (refl, tt, omega arith)
take-drop n (w ∷ ws) h =
    let ih = take-drop (n - 1) ws h.1 in
    elim (Bool-cases (leb n 0)) [
      | inl done ↦ rw done (refl, tt, omega arith)
      | inr more ↦ rw more (
        ap (λ l. w ∷ l) ih.0,
        (All-drop (λ r. sort_key r ≤ℤ sort_key w) (n - 1) ws h.0, ih.1),
        ground arith,
      )
    ]

prune-keep :
    (p : PromotionParams) (ws : List WalletProfileInput)
    → (prune p ws).0 ≡ keep (λ w. (evaluate_prune w p).is_kept) ws
unfolding prune
prune-keep p [] = refl
prune-keep p (w ∷ ws) = ground (arith, prune-keep p ws)

qualify-keep :
    (p : PromotionParams) (cs : List WalletProfileInput)
    → (qualify p cs).0 ≡ keep (λ c. (evaluate_promotion c p).is_promoted) cs
unfolding qualify
qualify-keep p [] = refl
qualify-keep p (c ∷ cs) = ground (arith, qualify-keep p cs)

All-kept :
    (f : WalletProfileInput → Bool) (ws : List WalletProfileInput)
    → All (λ w. f w ≡ true) (keep f ws)
All-kept f [] = tt
All-kept f (w ∷ ws) = ground (arith, All-kept f ws)

-- The promoted and the passed over: together the qualified candidates in another order.
abbrev pub IsSelection :
    PromotionParams
    → ℕ
    → List WalletProfileInput
    → List WalletProfileInput
    → List WalletProfileInput
    → Type 0
IsSelection p n candidates promoted rest =
    Perm (promoted ++ rest) (keep (λ c. (evaluate_promotion c p).is_promoted) candidates)
    × All (λ w. All (λ r. sort_key r ≤ℤ sort_key w) rest) promoted
    × (length promoted ≤ n)
    × All (λ c. (evaluate_promotion c p).is_promoted ≡ true) promoted

promote-take :
    (p : PromotionParams) (n : ℕ) (cs : List WalletProfileInput)
    → p.promote_max_candidates ≡ pos n
    → promote p cs ≡ take n (sort (keep (λ c. (evaluate_promotion c p).is_promoted) cs))
unfolding promote slice
promote-take p n cs max =
    ap (λ m. slice m (sort (qualify p cs).0)) max ∙ ap (λ q. take n (sort q)) (qualify-keep p cs)

-- For a largest number of promotions that is not negative: the new active wallets are those of
-- the old ones that are kept, in their order, followed by at most that many promoted candidates;
-- each of these qualifies, and no candidate that qualifies and is passed over has a higher
-- winrate over thirty days, a missing one counting as 0.
pub daily_prune_and_promote-IsSelection :
    (active candidates : List WalletProfileInput) (p : PromotionParams) (n : ℕ)
    → p.promote_max_candidates ≡ pos n
    → (promoted rest : List WalletProfileInput) × ((daily_prune_and_promote active candidates p).0
        ≡ keep (λ w. (evaluate_prune w p).is_kept) active ++ promoted)
      × IsSelection p n candidates promoted rest
unfolding daily_prune_and_promote
daily_prune_and_promote-IsSelection active candidates p n max =
    let is_good : WalletProfileInput → Bool = λ c. (evaluate_promotion c p).is_promoted in
    let qs : List WalletProfileInput = keep is_good candidates in
    let cut = take-drop n (sort qs) (sort-IsSorted qs) in
    let good =
      All-take (λ c. is_good c ≡ true) n (sort qs)
        (All-sort (λ c. is_good c ≡ true) qs (All-kept is_good candidates)) in
    (
      take n (sort qs),
      drop n (sort qs),
      ap (λ l. l ++ promote p candidates) (prune-keep p active)
          ∙ ap (λ l. keep (λ w. (evaluate_prune w p).is_kept) active ++ l)
              (promote-take p n candidates max),
      (rw cut.0 (sort-Perm qs), cut.1, cut.2, good),
    )
