-- ===== src/Reorg/Tests.antt =====
-- The reorg guard at concrete inputs.
use engine_bot.Shared.{
  ◌≡◌, refl, String, str_eq, true, false, none, some, List, [], ◌∷◌, ◌++◌, map, All,
}
use engine_bot.Shared.Int.{ℤ, pos}
use engine_bot.Shared.Dict.{lookup, contains, insert, keys, modify, map_some, IsUnique}
use engine_bot.Reorg.Status
use engine_bot.Reorg.Status.{
  Entry, Node, Answer, answered, failed, missing, TxState, get_signature_statuses, check_tx_status,
}
use engine_bot.Reorg.Guard
use engine_bot.Reorg.Guard.{
  TxInfo, Guard, ReorgEvent, new_guard, track_transaction, set_reorg_callback, check_all_pending,
  get_pending_txs,
}
use engine_bot.Reorg.Polls.{
  events_for, after, poll_all, check_all_pending-exact, vanished_is_never_detected,
}

-- Two tracked transactions, of which the node reports an error for the first.
abbrev tracked : Guard
tracked =
    track_transaction "b" "two" (pos 5) (pos 9) "fill" "t2" (pos 1) (
      track_transaction "a" "one" (pos 3) (pos 7) "fill" "t1" (pos 0)
        (set_reorg_callback new_guard))

abbrev bad_entry : Entry
bad_entry = record {
  signature = "a";
  slot = 10;
  confirmations = none;
  status = missing;
  has_err = true;
}

abbrev node : String → Node
node h = record {
  block_height = answered (some 100);
  statuses = answered (some (some bad_entry ∷ none ∷ []));
}

tracked-IsUnique : IsUnique tracked.pending_txs
unfolding track_transaction insert set_reorg_callback new_guard contains
tracked-IsUnique = (refl, (refl, tt))

check_all_pending-exact_example :
    (((check_all_pending node (pos 2) tracked).0
        ≡ events_for node (pos 2) (keys tracked.pending_txs) (λ h. lookup h tracked.pending_txs))
      × ((check_all_pending node (pos 2) tracked).1.reorg_events
          ≡ tracked.reorg_events ++ (check_all_pending node (pos 2) tracked).0))
    × ((k : String)
        → lookup k (check_all_pending node (pos 2) tracked).1.pending_txs
          ≡ map_some (after node k) (lookup k tracked.pending_txs))
check_all_pending-exact_example = check_all_pending-exact node (pos 2) tracked tracked-IsUnique

-- The first is reported, the second stays.
one_event : map (λ e. e.tx_hash) (check_all_pending node (pos 2) tracked).0 ≡ "a" ∷ []
unfolding check_all_pending Guard.check_hashes track_transaction insert set_reorg_callback new_guard
    Guard.pending_in lookup Guard.is_pending Guard.detect_reorg check_tx_status
    get_signature_statuses Status.collect Status.known_state Guard.reorg_event modify
    Status.unknown_state Status.get_block_height Guard.set_status Status.state_by_slot
one_event = refl

one_left : get_pending_txs (check_all_pending node (pos 2) tracked).1 ≡ "b" ∷ []
unfolding get_pending_txs check_all_pending Guard.check_hashes track_transaction insert
    set_reorg_callback new_guard Guard.pending_in lookup Guard.is_pending Guard.detect_reorg
    check_tx_status get_signature_statuses Status.collect Status.known_state modify
    Status.unknown_state Guard.reorg_event Guard.set_status Status.get_block_height
    Status.state_by_slot
one_left = refl

-- Past the last valid block height an unknown transaction is dropped, if that height is given.
dropped_by_height : check_tx_status (node "b") "b" (some 90) ≡ TxState.dropped
unfolding check_tx_status lookup get_signature_statuses Status.collect insert Status.unknown_state
    Status.get_block_height
dropped_by_height = refl

abbrev polls : List ((String → Node) × ℤ)
polls =
    (node, pos 2)
    ∷ ((λ h. record { block_height = answered (some 100000); statuses = failed }), pos 3)
    ∷ []

never_known : All (λ p. lookup "b" (get_signature_statuses (p.0 "b")) ≡ none) polls
unfolding lookup get_signature_statuses Status.collect insert
never_known = (refl, (refl, tt))

vanished_is_never_detected_example :
    All (λ e. str_eq e.tx_hash "b" ≡ false) (poll_all polls tracked).0
    × (lookup "b" (poll_all polls tracked).1.pending_txs ≡ lookup "b" tracked.pending_txs)
vanished_is_never_detected_example =
    vanished_is_never_detected polls "b" tracked tracked-IsUnique never_known
