-- ===== src/Reorg/Status.antt =====
-- execution/reorg_guard.py, `ReorgGuard`. The answers of the node are parameters: a request
-- fails, or it answers with a result that may be null.
use engine_bot.Shared.{
  ℕ, ◌+◌, ◌<◌, ◌≡◌, ◌↔◌, ◌⊎◌, ◌∙◌, sym, refl, inl, inr, String, Bool, true, false, Option, none,
  some, List, [], ◌∷◌, arith, ltb, leb, Option-cases, if◌then◌else◌,
}
use engine_bot.Shared.Dict.{Dict, lookup, insert}
use mathlib.Core.Option.{some-injective}

pub data Answer {ℓ} (A : Type ℓ) : Type ℓ where
  failed : Answer A
  answered : Option A → Answer A

-- `status` of an entry: missing, a dictionary whose "Ok" is there or not, or anything else.
pub data StatusField : Type 0 where
  missing : StatusField
  outcome : Bool → StatusField
  other : StatusField

-- An entry of the node's list of statuses, with its defaults put in.
pub record Entry : Type 0 where
  pub signature : String
  pub slot : ℕ
  pub confirmations : Option ℕ
  pub status : StatusField
  pub has_err : Bool

-- What the node answers to the two requests about one transaction.
pub record Node : Type 0 where
  pub block_height : Answer ℕ
  pub statuses : Answer (List (Option Entry))

unfoldable pub get_block_height : Node → Option ℕ
get_block_height n = elim n.block_height [ failed ↦ none | answered height ↦ height ]

-- The loop over the list: a null entry is passed over.
unfoldable pub collect : List (Option Entry) → Dict Entry → Dict Entry
collect [] statuses = statuses
collect (none ∷ es) statuses = collect es statuses
collect (some e ∷ es) statuses = collect es (insert e.signature e statuses)

-- For one signature, so that the list of signatures is not empty. A missing result is an empty
-- one.
unfoldable pub get_signature_statuses : Node → Dict Entry
get_signature_statuses n = elim n.statuses [
  | failed ↦ []
  | answered entries ↦ elim entries [ none ↦ [] | some es ↦ collect es [] ]
]

pub data TxState : Type 0 where
  finalized : TxState
  confirmed : TxState
  pending : TxState
  dropped : TxState

-- The tests of `check_tx_status` on a transaction that the node does not know.
unfoldable pub unknown_state : Option ℕ → Option ℕ → TxState
unknown_state (some height) (some last_valid) = if ltb last_valid height then dropped else pending
unknown_state (some height) none = pending
unknown_state none last_valid = pending

-- The heuristic by the slot.
unfoldable pub state_by_slot : Option ℕ → ℕ → TxState
state_by_slot none slot = pending
state_by_slot (some height) slot =
    if ltb (slot + 150) height then finalized else if leb slot height then confirmed else pending

unfoldable pub known_state : Option ℕ → Entry → TxState
known_state height e = if e.has_err then dropped else elim e.status [
  | outcome is_ok ↦
      if is_ok
      then elim e.confirmations [ none ↦ finalized | some n ↦ confirmed ]
      else state_by_slot height e.slot
  | missing ↦ state_by_slot height e.slot
  | other ↦ state_by_slot height e.slot
]

unfoldable pub check_tx_status : Node → String → Option ℕ → TxState
check_tx_status n tx_hash last_valid = elim (lookup tx_hash (get_signature_statuses n)) [
  | none ↦ unknown_state (get_block_height n) last_valid
  | some e ↦ known_state (get_block_height n) e
]

unfoldable pub is_confirmed : Node → String → Bool
is_confirmed n tx_hash = elim (check_tx_status n tx_hash none) [
  | confirmed ↦ true
  | finalized ↦ true
  | pending ↦ false
  | dropped ↦ false
]

unfoldable pub is_finalized : Node → String → Bool
is_finalized n tx_hash = elim (check_tx_status n tx_hash none) [
  | finalized ↦ true
  | confirmed ↦ false
  | pending ↦ false
  | dropped ↦ false
]

unknown_dropped :
    (height last_valid : Option ℕ)
    → unknown_state height last_valid ≡ dropped
    → (h : ℕ) × (v : ℕ) × (height ≡ some h) × (last_valid ≡ some v) × (v < h)
unfolding unknown_state
unknown_dropped (some h) (some v) e = (h, v, refl, refl, ground arith)
unknown_dropped (some h) none e = cc
unknown_dropped none v e = cc

known_dropped : (height : Option ℕ) (e : Entry) → known_state height e ≡ dropped → e.has_err ≡ true
unfolding known_state state_by_slot
known_dropped none e is = ground arith
known_dropped (some h) e is = ground arith

-- A transaction counts as dropped exactly if the node reports an error for it, or does not know
-- it and has passed the last block height at which it was valid, where both heights are known.
pub check_tx_status-dropped :
    (n : Node) (tx_hash : String) (last_valid : Option ℕ)
    → (check_tx_status n tx_hash last_valid ≡ dropped) ↔ (
        ((e : Entry) × (lookup tx_hash (get_signature_statuses n) ≡ some e) × (e.has_err ≡ true))
        ⊎ ((lookup tx_hash (get_signature_statuses n) ≡ none)
            × ((height : ℕ) × (valid : ℕ) × (get_block_height n ≡ some height)
                × (last_valid ≡ some valid)
                × (valid < height))))
unfolding known_state unknown_state check_tx_status
check_tx_status-dropped n tx_hash last_valid =
    elim (Option-cases (lookup tx_hash (get_signature_statuses n))) [
      | inl absent ↦ (
        λ e. inr (
          absent,
          unknown_dropped (get_block_height n) last_valid (rw (absent, check_tx_status) at e),
        ),
        λ h. elim h [
          | inl (e, found, is) ↦ cc
          | inr (gone, (height, valid, tip, last, lt)) ↦
              rw (absent, check_tx_status) (rw (tip, last) (ground arith))
        ],
      )
      | inr (e, found) ↦ (
        λ is.
            inl
              (e, found, known_dropped (get_block_height n) e (rw (found, check_tx_status) at is)),
        λ h. elim h [
          | inl (e', found', is) ↦
              let same : e' ≡ e = some-injective _ _ (sym found' ∙ found) in
              let bad : e.has_err ≡ true = rw same at is in
              rw (found, check_tx_status) (ground (arith, bad))
          | inr (gone, rest) ↦ cc
        ],
      )
    ]
