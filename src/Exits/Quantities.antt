-- ===== src/Exits/Quantities.antt =====
-- strategy/exits.py: what the simulation sells.
use engine_bot.Shared.{
  ℕ, suc, ◌*◌, ◌≤◌, ◌≡◌, refl, inl, inr, List, [], ◌∷◌, ◌++◌, arith, Bool-cases,
}
use engine_bot.Shared.Int.{
  ℤ, pos, negsuc, ◌+ℤ◌, ◌-ℤ◌, ◌*ℤ◌, ◌≤ℤ◌, ◌<ℤ◌, leb_ℤ, int_laws, of_eq, eq_of_parts,
}
use engine_bot.Shared.Results.{ok}
use native.Mathlib.Nat.{mul-le-mul_right}
use engine_bot.Exits.Config.{
  ExitAction, partial_tp, partial_exit, trail_stop, close_full, time_exit, mode_switch, ExitSignal,
  Config,
}
use engine_bot.Exits.Shares.{IsShare, SellsShare, HasShares, evaluate_exit-SellsShare}
use engine_bot.Exits.Simulate.{
  Part, MultiExitResult, Loop, finish, raised, shown, sold, lowered, Next, go_on, stop,
  after_partial, after_signal, tick, simulate_loop, simulate_multi_exit,
}

-- What the parts have sold, in hundred-millionths of the position.
abbrev pub total_sold : List Part → ℤ
total_sold [] = pos 0
total_sold (p ∷ ps) = p.qty +ℤ total_sold ps

-- The loop: what is sold and what it takes to remain are at most the position.
abbrev IsWithin : Loop → Type 0
IsWithin l =
    (pos 0 <ℤ l.remaining_pct)
    × (l.remaining_pct ≤ℤ pos 10000)
    × (total_sold l.realized_pnl_parts +ℤ l.remaining_pct *ℤ pos 10000 ≤ℤ pos 100000000)

total_sold-append :
    (ps : List Part) (p : Part) → total_sold (ps ++ (p ∷ [])) ≡ total_sold ps +ℤ p.qty
total_sold-append [] p = omega (int_laws)
total_sold-append (x ∷ ps) p = let e = total_sold-append ps p in omega (int_laws, of_eq e)

share_of :
    (q r : ℤ)
    → IsShare q
    → pos 0 <ℤ r
    → r ≤ℤ pos 10000
    → (q *ℤ r ≤ℤ r *ℤ pos 10000) × (q *ℤ r ≤ℤ q *ℤ pos 10000) × (pos 0 ≤ℤ q *ℤ r)
unfolding ◌*ℤ◌
share_of (pos q) (pos r) h k m =
    let a : q * r ≤ 10000 * r = mul-le-mul_right r (omega arith) in
    let b : r * q ≤ 10000 * q = mul-le-mul_right q (omega arith) in
    (ground (arith, a), ground (arith, b), ground arith)
share_of (pos q) (negsuc r) h k m = omega arith
share_of (negsuc q) r h k m = omega arith

module _ (P : Loop → Type 0) (Q : MultiExitResult → Type 0) where
  abbrev OnNext : Next → Type 0
  OnNext (go_on l) = P l
  OnNext (stop r) = Q r

abbrev pub SellsAtMostAll : MultiExitResult → Type 0
SellsAtMostAll r = total_sold r.realized_parts ≤ℤ pos 100000000

mul-sub : (a b : ℤ) → (a -ℤ b) *ℤ pos 10000 ≡ a *ℤ pos 10000 -ℤ b *ℤ pos 10000
unfolding ◌*ℤ◌ ◌-ℤ◌
mul-sub a b = eq_of_parts _ _ (ground arith)

times-pos : (r : ℤ) → pos 0 <ℤ r → pos 0 ≤ℤ r *ℤ pos 10000
unfolding ◌*ℤ◌
times-pos r h = ground arith

so_far : (l : Loop) → IsWithin l → total_sold l.realized_pnl_parts ≤ℤ pos 100000000
so_far l within = let more = times-pos l.remaining_pct within.0 in omega int_laws

sold-IsWithin :
    (entry price : ℕ) (s : ExitSignal) (l : Loop)
    → SellsShare s
    → IsWithin l
    → (total_sold (sold entry price s l).realized_pnl_parts ≤ℤ pos 100000000)
      × (pos 0 <ℤ l.remaining_pct -ℤ s.qty_pct → IsWithin (lowered s (sold entry price s l)))
unfolding sold lowered
sold-IsWithin entry price s l share within =
    let e = total_sold-append l.realized_pnl_parts (record {
      action = s.action;
      gain = pos price -ℤ pos entry;
      qty = s.qty_pct *ℤ l.remaining_pct;
    }) in
    let (a, b, c) = share_of s.qty_pct l.remaining_pct share within.0 within.1 in
    let d = mul-sub l.remaining_pct s.qty_pct in
    (
      omega (int_laws, of_eq e),
      λ left. (left, omega (int_laws), omega (int_laws, of_eq e, of_eq d)),
    )

after_partial-OnNext :
    (entry price : ℕ) (s : ExitSignal) (l : Loop)
    → SellsShare s
    → IsWithin l
    → OnNext IsWithin SellsAtMostAll (after_partial s (lowered s (sold entry price s l)))
unfolding after_partial finish lowered ◌-ℤ◌ sold
after_partial-OnNext entry price s l share within =
    let (most, on) = sold-IsWithin entry price s l share within in
    elim (Bool-cases (leb_ℤ (l.remaining_pct -ℤ s.qty_pct) (pos 100))) [
      | inl last ↦ rw last most
      | inr left ↦ rw left (on (ground (arith, left)))
    ]

after_signal-OnNext :
    (entry price : ℕ) (a : ExitAction) (s : ExitSignal) (l : Loop)
    → SellsShare s
    → IsWithin l
    → OnNext IsWithin SellsAtMostAll (after_signal entry price a s l)
unfolding after_signal after_partial finish
after_signal-OnNext entry price ExitAction.hold s l share within = within
after_signal-OnNext entry price partial_tp s l share within =
    after_partial-OnNext entry price s l share within
after_signal-OnNext entry price partial_exit s l share within =
    after_partial-OnNext entry price s l share within
after_signal-OnNext entry price trail_stop s l share within =
    (sold-IsWithin entry price s l share within).0
after_signal-OnNext entry price close_full s l share within =
    (sold-IsWithin entry price s l share within).0
after_signal-OnNext entry price time_exit s l share within =
    (sold-IsWithin entry price s l share within).0
after_signal-OnNext entry price mode_switch s l share within =
    (sold-IsWithin entry price s l share within).0

raised-IsWithin : (price : ℕ) (l : Loop) → IsWithin l → IsWithin (raised price l)
unfolding raised
raised-IsWithin price l within = within

tick-OnNext :
    (entry : ℕ) (cfg : Config) (i price : ℕ) (l : Loop)
    → 1 ≤ entry
    → HasShares cfg
    → IsWithin l
    → (n : Next) × (tick entry cfg i price l ≡ ok n) × OnNext IsWithin SellsAtMostAll n
unfolding tick shown
tick-OnNext entry cfg i price l positive shares within =
    let (x, decided, share) =
      evaluate_exit-SellsShare (shown entry price i (raised price l)) cfg positive shares in
    (
      after_signal entry price x.action x (raised price l),
      ground (arith, decided),
      after_signal-OnNext entry price x.action x (raised price l) share
          (raised-IsWithin price l within),
    )

-- What follows a tick.
simulate_next :
    (entry : ℕ) (cfg : Config) (i : ℕ) (path : List ℕ) (n : Next)
    → OnNext IsWithin SellsAtMostAll n
    → ((l : Loop)
        → IsWithin l
        → (r : MultiExitResult) × (simulate_loop entry cfg (suc i) path l ≡ ok r)
          × SellsAtMostAll r)
    → (r : MultiExitResult) × (elim n [
      | stop result ↦ ok result
      | go_on next ↦ simulate_loop entry cfg (suc i) path next
    ]
        ≡ ok r)
      × SellsAtMostAll r
simulate_next entry cfg i path (go_on l) h later = later l h
simulate_next entry cfg i path (stop r) h later = (r, refl, h)

simulate_loop-SellsAtMostAll :
    (entry : ℕ) (cfg : Config) (i : ℕ) (path : List ℕ) (l : Loop)
    → 1 ≤ entry
    → HasShares cfg
    → IsWithin l
    → (r : MultiExitResult) × (simulate_loop entry cfg i path l ≡ ok r) × SellsAtMostAll r
unfolding simulate_loop finish
simulate_loop-SellsAtMostAll entry cfg i [] l positive shares within = (_, refl, so_far l within)
simulate_loop-SellsAtMostAll entry cfg i (price ∷ path) l positive shares within =
    let (n, ticked, next) = tick-OnNext entry cfg i price l positive shares within in
    let (r, ends, most) =
      simulate_next entry cfg i path n next
        (λ k w. simulate_loop-SellsAtMostAll entry cfg (suc i) path k positive shares w) in
    (r, ground (arith, ticked, ends), most)

-- A simulation never sells more than the position: where the entry price is above 0 and every
-- configured part is between nothing and all of the remainder, it ends with a result, in which the
-- quantities of all parts together are at most the whole position.
pub simulate_multi_exit-SellsAtMostAll :
    (entry : ℕ) (price_path : List ℕ) (cfg : Config)
    → 1 ≤ entry
    → HasShares cfg
    → (r : MultiExitResult) × (simulate_multi_exit entry price_path cfg ≡ ok r)
      × (total_sold r.realized_parts ≤ℤ pos 100000000)
unfolding simulate_multi_exit ◌*ℤ◌ ◌+ℤ◌
simulate_multi_exit-SellsAtMostAll entry price_path cfg positive shares =
    simulate_loop-SellsAtMostAll entry cfg 0 price_path _ positive shares
      (omega arith, omega arith, omega arith)
