-- ===== src/Reorg/Polls.antt =====
-- execution/reorg_guard.py: what `check_all_pending` makes of a poll, and of poll after poll.
use engine_bot.Shared.{
  ◌≡◌, ◌∙◌, sym, ap, refl, String, str_eq, str_eq_self, eq_iff, true, false, Option, none, some,
  List, [], ◌∷◌, ◌++◌, All, arith, if◌then◌else◌, All-append,
}
use engine_bot.Shared.Int.{ℤ}
use engine_bot.Shared.Dict.{
  lookup, keys, map_some, IsUnique, lookup-none, lookup-modify, modify-IsUnique,
}
use engine_bot.Shared.Keys.{has, Distinct, has-keys, keys-Distinct}
use mathlib.Core.List.{append_assoc, append-nil}
use engine_bot.Reorg.Status.{Node, TxState, unknown_state, check_tx_status, get_signature_statuses}
use engine_bot.Reorg.Guard
use engine_bot.Reorg.Guard.{
  TxInfo, ReorgEvent, Guard, set_status, reorg_event, detect_reorg, is_pending, add_event,
  pending_in, check_hashes, check_all_pending,
}

-- The event that a poll is to report for a transaction with this entry.
unfoldable pub event_at : (String → Node) → ℤ → String → Option TxInfo → Option ReorgEvent
event_at node now h none = none
event_at node now h (some info) =
    if is_pending info
    then elim (check_tx_status (node h) h none) [
      | TxState.dropped ↦ some (reorg_event h now info)
      | TxState.finalized ↦ none
      | TxState.confirmed ↦ none
      | TxState.pending ↦ none
    ]
    else none

-- The entry that a poll is to leave.
unfoldable pub after : (String → Node) → String → TxInfo → TxInfo
after node h info =
    if is_pending info
    then elim (check_tx_status (node h) h none) [
      | TxState.dropped ↦ set_status Guard.dropped info
      | TxState.finalized ↦ set_status Guard.finalized info
      | TxState.confirmed ↦ info
      | TxState.pending ↦ info
    ]
    else info

unfoldable pub events_for :
    (String → Node) → ℤ → List String → (String → Option TxInfo) → List ReorgEvent
events_for node now [] entry = []
events_for node now (h ∷ hs) entry =
    add_event (event_at node now h (entry h)) (events_for node now hs entry)

-- One step of the loop.
unfoldable step : (String → Node) → ℤ → String → Guard → Option ReorgEvent × Guard
step node now h g = if pending_in h g then detect_reorg node now h g else (none, g)

step-events :
    (node : String → Node) (now : ℤ) (h : String) (g : Guard)
    → (step node now h g).0 ≡ event_at node now h (lookup h g.pending_txs)
unfolding step event_at pending_in detect_reorg
step-events node now h g = ground arith

step-lookup :
    (node : String → Node) (now : ℤ) (h k : String) (g : Guard)
    → lookup k (step node now h g).1.pending_txs ≡ (
        if str_eq h k
        then map_some (after node h) (lookup k g.pending_txs)
        else lookup k g.pending_txs)
unfolding step after pending_in detect_reorg
step-lookup node now h k g = ground (
  arith,
  eq_iff h k,
  lookup-modify h k (set_status Guard.dropped) g.pending_txs,
  lookup-modify h k (set_status Guard.finalized) g.pending_txs,
)

step-history :
    (node : String → Node) (now : ℤ) (h : String) (g : Guard)
    → (step node now h g).1.reorg_events ≡ g.reorg_events ++ add_event (step node now h g).0 []
unfolding step pending_in detect_reorg
step-history node now h g = ground (arith, append-nil g.reorg_events)

events_for-cong :
    (node : String → Node) (now : ℤ) (hs : List String) (e e' : String → Option TxInfo)
    → ((k : String) → has k hs ≡ true → e k ≡ e' k)
    → events_for node now hs e ≡ events_for node now hs e'
unfolding events_for
events_for-cong node now [] e e' same = refl
events_for-cong node now (h ∷ hs) e e' same =
    let here : e h ≡ e' h = same h (rw (str_eq_self h)) in
    let rest = events_for-cong node now hs e e' (λ k is. same k (ground arith)) in rw (here, rest)

add_event-append :
    (e : Option ReorgEvent) (es : List ReorgEvent) → add_event e [] ++ es ≡ add_event e es
add_event-append none es = refl
add_event-append (some x) es = refl

-- The loop over distinct hashes.
check_hashes-exact :
    (node : String → Node) (now : ℤ) (hs : List String) (g : Guard)
    → Distinct hs
    → (((check_hashes node now hs g).0 ≡ events_for node now hs (λ h. lookup h g.pending_txs))
        × ((check_hashes node now hs g).1.reorg_events
            ≡ g.reorg_events ++ (check_hashes node now hs g).0))
      × ((k : String)
          → lookup k (check_hashes node now hs g).1.pending_txs ≡ (
              if has k hs
              then map_some (after node k) (lookup k g.pending_txs)
              else lookup k g.pending_txs))
unfolding check_hashes events_for step
check_hashes-exact node now [] g d = ((refl, sym (append-nil g.reorg_events)), λ k. refl)
check_hashes-exact node now (h ∷ hs) g d =
    let s : Option ReorgEvent × Guard = step node now h g in
    let ih = check_hashes-exact node now hs s.1 d.1 in
    let others : events_for node now hs (λ k. lookup k s.1.pending_txs)
        ≡ events_for node now hs (λ k. lookup k g.pending_txs) =
      events_for-cong node now hs _ _
        (λ k is. ground (arith, step-lookup node now h k g, eq_iff h k, d.0)) in
    (
      (
        ap (add_event s.0) (ih.0.0 ∙ others)
            ∙ ap (λ e. add_event e (events_for node now hs (λ k. lookup k g.pending_txs)))
                (step-events node now h g),
        ih.0.1
            ∙ ap (λ l. l ++ (check_hashes node now hs s.1).0) (step-history node now h g)
            ∙ append_assoc g.reorg_events (add_event s.0 []) (check_hashes node now hs s.1).0
            ∙ ap (λ l. g.reorg_events ++ l) (add_event-append s.0 (check_hashes node now hs s.1).0),
      ),
      λ k. ih.1 k ∙ ground (arith, step-lookup node now h k g, eq_iff h k, d.0),
    )

-- One poll over a dictionary of tracked transactions, whose keys are distinct: it reports
-- exactly the pending transactions that the node counts as dropped, in the order of tracking,
-- and appends them to the history; and it marks exactly these as dropped and those that the node
-- has finalized as finalized, and leaves every other entry as it was.
pub check_all_pending-exact :
    (node : String → Node) (now : ℤ) (g : Guard)
    → IsUnique g.pending_txs
    → (((check_all_pending node now g).0
          ≡ events_for node now (keys g.pending_txs) (λ h. lookup h g.pending_txs))
        × ((check_all_pending node now g).1.reorg_events
            ≡ g.reorg_events ++ (check_all_pending node now g).0))
      × ((k : String)
          → lookup k (check_all_pending node now g).1.pending_txs
            ≡ map_some (after node k) (lookup k g.pending_txs))
unfolding check_all_pending
check_all_pending-exact node now g u =
    let exact =
      check_hashes-exact node now (keys g.pending_txs) g (keys-Distinct g.pending_txs u) in
    (
      exact.0,
      λ k. exact.1 k ∙ ground (arith, has-keys k g.pending_txs, lookup-none k g.pending_txs),
    )

-- Polling again and again, each time with the node's answers and the time of that poll.
unfoldable pub poll_all : List ((String → Node) × ℤ) → Guard → List ReorgEvent × Guard
poll_all [] g = ([], g)
poll_all (p ∷ ps) g =
    let (found, g') = check_all_pending p.0 p.1 g in
    let (rest, g'') = poll_all ps g' in (found ++ rest, g'')

-- A transaction that the node does not know is pending for it.
vanished_state :
    (n : Node) (h : String)
    → lookup h (get_signature_statuses n) ≡ none
    → check_tx_status n h none ≡ TxState.pending
unfolding check_tx_status unknown_state
vanished_state n h gone = rw (gone, check_tx_status) (ground arith)

vanished_after :
    (node : String → Node) (h : String) (o : Option TxInfo)
    → check_tx_status (node h) h none ≡ TxState.pending
    → map_some (after node h) o ≡ o
unfolding after
vanished_after node h none p = refl
vanished_after node h (some info) p = ground arith

-- The event of a hash bears it.
event-Other :
    (node : String → Node) (now : ℤ) (k h : String) (o : Option TxInfo) (es : List ReorgEvent)
    → check_tx_status (node h) h none ≡ TxState.pending
    → All (λ e. str_eq e.tx_hash h ≡ false) es
    → All (λ e. str_eq e.tx_hash h ≡ false) (add_event (event_at node now k o) es)
unfolding event_at reorg_event
event-Other node now k h none es p a = a
event-Other node now k h (some info) es p a = ground (arith, eq_iff k h)

events-Other :
    (node : String → Node) (now : ℤ) (hs : List String) (h : String)
    (entry : String → Option TxInfo)
    → check_tx_status (node h) h none ≡ TxState.pending
    → All (λ e. str_eq e.tx_hash h ≡ false) (events_for node now hs entry)
unfolding events_for
events-Other node now [] h entry p = tt
events-Other node now (k ∷ hs) h entry p =
    event-Other node now k h (entry k) _ p (events-Other node now hs h entry p)

step-IsUnique :
    (node : String → Node) (now : ℤ) (h : String) (g : Guard)
    → IsUnique g.pending_txs
    → IsUnique (step node now h g).1.pending_txs
unfolding step detect_reorg
step-IsUnique node now h g u = ground (
  arith,
  modify-IsUnique h (set_status Guard.dropped) g.pending_txs u,
  modify-IsUnique h (set_status Guard.finalized) g.pending_txs u,
)

check_hashes-IsUnique :
    (node : String → Node) (now : ℤ) (hs : List String) (g : Guard)
    → IsUnique g.pending_txs
    → IsUnique (check_hashes node now hs g).1.pending_txs
unfolding check_hashes step
check_hashes-IsUnique node now [] g u = u
check_hashes-IsUnique node now (h ∷ hs) g u =
    check_hashes-IsUnique node now hs (step node now h g).1 (step-IsUnique node now h g u)

-- A transaction that the node knows nothing of in any poll is never reported by these polls, and
-- its entry stays as it was, however many polls there are and whatever their block heights.
pub vanished_is_never_detected :
    (ps : List ((String → Node) × ℤ)) (h : String) (g : Guard)
    → IsUnique g.pending_txs
    → All (λ p. lookup h (get_signature_statuses (p.0 h)) ≡ none) ps
    → All (λ e. str_eq e.tx_hash h ≡ false) (poll_all ps g).0
      × (lookup h (poll_all ps g).1.pending_txs ≡ lookup h g.pending_txs)
unfolding poll_all check_all_pending check_hashes
vanished_is_never_detected [] h g u gone = (tt, refl)
vanished_is_never_detected (p ∷ ps) h g u gone =
    let state = vanished_state (p.0 h) h gone.0 in
    let exact = check_all_pending-exact p.0 p.1 g u in
    let here : All (λ e. str_eq e.tx_hash h ≡ false) (check_all_pending p.0 p.1 g).0 =
      rw exact.0.0 (events-Other p.0 p.1 (keys g.pending_txs) h _ state) in
    let ih =
      vanished_is_never_detected ps h (check_all_pending p.0 p.1 g).1
        (check_hashes-IsUnique p.0 p.1 (keys g.pending_txs) g u) gone.1 in
    (All-append _ _ _ here ih.0, ih.1 ∙ exact.1 h ∙ vanished_after p.0 h _ state)
