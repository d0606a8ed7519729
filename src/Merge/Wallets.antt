-- ===== src/Merge/Wallets.antt =====
-- integration/wallet_merge.py: one profile for each wallet.
use engine_bot.Shared.{
  ◌≡◌, refl, ap, ◌∙◌, String, str_eq, eq_iff, Bool, true, false, not, ◌&&◌, ◌||◌, List, [], ◌∷◌,
  ◌++◌, All, arith, Bool-cases, inl, inr,
}
use engine_bot.Shared.Dict.{
  lookup, contains, keys, IsUnique, contains-insert, insert-IsUnique, All-insert,
}
use engine_bot.Shared.Keys.{has, Distinct, has-keys, keys-Distinct}
use engine_bot.Shared.Options.{get_or}
use engine_bot.Shared.Sets.{place, sorted, text_le, has-sorted, sorted-Distinct}
use engine_bot.Merge.Profiles.{
  WalletProfile, Sourced, Grouped, collect_one, collect_source, collect, merge_one, merge_entry,
  merge_all, by_addr, merge_wallet_profiles,
}

abbrev pub addrs : List WalletProfile → List String
addrs [] = []
addrs (p ∷ ps) = p.wallet_addr ∷ addrs ps

-- The addresses of all profiles of all sources.
abbrev pub all_addrs : List (String × List WalletProfile) → List String
all_addrs [] = []
all_addrs (s ∷ sources) = addrs s.1 ++ all_addrs sources

-- Python's `k in addresses` for an address that is not empty.
abbrev pub has_named : String → List String → Bool
has_named k ks = not (str_eq k "") && has k ks

abbrev IsFilled : String × List Sourced → Type 0
IsFilled (k, []) = ⊥
IsFilled (k, s ∷ ss) = Unit

-- A map of groups that is well formed.
abbrev IsGrouped : Grouped → Type 0
IsGrouped d = IsUnique d × All IsFilled d

append-IsFilled : (k : String) (ss : List Sourced) (s : Sourced) → IsFilled (k, ss ++ (s ∷ []))
append-IsFilled k [] s = tt
append-IsFilled k (x ∷ ss) s = tt

collect_one-IsGrouped :
    (source : String) (p : WalletProfile) (d : Grouped)
    → IsGrouped d
    → IsGrouped (collect_one source p d)
unfolding collect_one
collect_one-IsGrouped source p d h =
    let found = get_or (lookup p.wallet_addr d) [] in
    let s : Sourced = record { source = source; profile = p } in
    let one = s ∷ [] in
    elim (Bool-cases (str_eq p.wallet_addr "")) [
      | inl nameless ↦ rw nameless h
      | inr named ↦ rw named (
        insert-IsUnique p.wallet_addr (found ++ one) d h.0,
        All-insert IsFilled p.wallet_addr (found ++ one) d h.1
            (append-IsFilled p.wallet_addr found s),
      )
    ]

contains-collect_one :
    (source : String) (p : WalletProfile) (d : Grouped) (k : String)
    → contains k (collect_one source p d)
      ≡ ((not (str_eq k "") && str_eq p.wallet_addr k) || contains k d)
unfolding collect_one
contains-collect_one source p d k = ground (
  arith,
  eq_iff p.wallet_addr "",
  eq_iff k "",
  eq_iff p.wallet_addr k,
  contains-insert p.wallet_addr k
      (get_or (lookup p.wallet_addr d) [] ++ (record { source = source; profile = p } ∷ [])) d,
)

has-append : (k : String) (s t : List String) → has k (s ++ t) ≡ (has k s || has k t)
has-append k [] t = refl
has-append k (x ∷ s) t = ground (arith, has-append k s t)

collect_source-IsGrouped :
    (source : String) (ps : List WalletProfile) (d : Grouped)
    → IsGrouped d
    → IsGrouped (collect_source source ps d)
unfolding collect_source
collect_source-IsGrouped source [] d h = h
collect_source-IsGrouped source (p ∷ ps) d h =
    collect_source-IsGrouped source ps (collect_one source p d) (collect_one-IsGrouped source p d h)

contains-collect_source :
    (source : String) (ps : List WalletProfile) (d : Grouped) (k : String)
    → contains k (collect_source source ps d) ≡ (has_named k (addrs ps) || contains k d)
unfolding collect_source
contains-collect_source source [] d k = ground arith
contains-collect_source source (p ∷ ps) d k = ground (
  arith,
  contains-collect_source source ps (collect_one source p d) k,
  contains-collect_one source p d k,
)

collect-IsGrouped :
    (sources : List (String × List WalletProfile)) (d : Grouped)
    → IsGrouped d
    → IsGrouped (collect sources d)
unfolding collect
collect-IsGrouped [] d h = h
collect-IsGrouped (s ∷ sources) d h =
    collect-IsGrouped sources (collect_source s.0 s.1 d) (collect_source-IsGrouped s.0 s.1 d h)

contains-collect :
    (sources : List (String × List WalletProfile)) (d : Grouped) (k : String)
    → contains k (collect sources d) ≡ (has_named k (all_addrs sources) || contains k d)
unfolding collect
contains-collect [] d k = ground arith
contains-collect (s ∷ sources) d k = ground (
  arith,
  contains-collect sources (collect_source s.0 s.1 d) k,
  contains-collect_source s.0 s.1 d k,
  has-append k (addrs s.1) (all_addrs sources),
)

addrs-merge_all : (d : Grouped) → All IsFilled d → addrs (merge_all d) ≡ keys d
unfolding merge_all merge_entry merge_one
addrs-merge_all [] h = refl
addrs-merge_all ((k, []) ∷ d) h = elim h.0 [ ]
addrs-merge_all ((k, s ∷ ss) ∷ d) h = ap (λ rest. k ∷ rest) (addrs-merge_all d h.1)

-- Sorting profiles by their addresses sorts the addresses.
addrs-place :
    (p : WalletProfile) (ps : List WalletProfile)
    → addrs (place by_addr p ps) ≡ place text_le p.wallet_addr (addrs ps)
unfolding place
addrs-place p [] = refl
addrs-place p (q ∷ ps) =
    let rest = addrs-place p ps in
    elim (Bool-cases (text_le p.wallet_addr q.wallet_addr)) [
      | inl low ↦ rw low refl
      | inr high ↦ rw high (ap (λ rest. q.wallet_addr ∷ rest) rest)
    ]

addrs-sorted : (ps : List WalletProfile) → addrs (sorted by_addr ps) ≡ sorted text_le (addrs ps)
unfolding sorted
addrs-sorted [] = refl
addrs-sorted (p ∷ ps) =
    addrs-place p (sorted by_addr ps) ∙ ap (place text_le p.wallet_addr) (addrs-sorted ps)

or_false : (b : Bool) → (b || false) ≡ b
or_false true = refl
or_false false = refl

-- Merging gives one profile for each wallet: the addresses of the merged profiles are distinct,
-- and are exactly the addresses, other than the empty one, of the profiles of all sources.
pub merge_wallet_profiles-Distinct :
    (sources : List (String × List WalletProfile))
    → Distinct (addrs (merge_wallet_profiles sources))
      × ((k : String)
          → has k (addrs (merge_wallet_profiles sources)) ≡ has_named k (all_addrs sources))
unfolding merge_wallet_profiles contains
merge_wallet_profiles-Distinct sources =
    let d = collect sources [] in
    let grouped = collect-IsGrouped sources [] (tt, tt) in
    let same : addrs (sorted by_addr (merge_all d)) ≡ sorted text_le (keys d) =
      addrs-sorted (merge_all d) ∙ ap (sorted text_le) (addrs-merge_all d grouped.1) in
    (
      rw same (sorted-Distinct text_le (keys d) (keys-Distinct d grouped.0)),
      λ k.
          ap (has k) same
          ∙ has-sorted text_le k (keys d)
          ∙ has-keys k d
          ∙ contains-collect sources [] k
          ∙ or_false (has_named k (all_addrs sources)),
    )
