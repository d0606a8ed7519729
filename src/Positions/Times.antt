-- ===== src/Positions/Times.antt =====
-- execution/position_state.py: what positions and their dictionaries promise.
use engine_bot.Shared.{
  suc, ◌*◌, ◌≤◌, ◌≡◌, ◌↔◌, inl, inr, String, str_eq, true, false, some, arith, Option-cases,
}
use engine_bot.Shared.Int.{ℤ, pos, negsuc, ◌+ℤ◌, ◌-ℤ◌, ◌*ℤ◌, ◌≤ℤ◌, int_laws}
use engine_bot.Shared.Text.{upper}
use native.Mathlib.Nat.{mul-le-mul_right}
use engine_bot.Orders.Position.{IsoFormat, IsPrintable}
use engine_bot.Positions.State.{
  Position, to_dict, read_close_ts, from_dict, is_expired, is_tp_hit, is_sl_hit, remaining_ttl_sec,
  create_position_from_signal,
}

-- A position that is written to a dictionary and read back is the same position, where its times
-- read back as they are printed.
pub position_reads_back :
    (iso : IsoFormat) (p : Position)
    → IsPrintable iso p.entry_ts
    → IsPrintable iso p.ttl_expires_at
    → ((t : ℤ) → p.close_ts ≡ some t → IsPrintable iso t)
    → from_dict iso (to_dict iso p) ≡ some p
unfolding from_dict to_dict read_close_ts
position_reads_back iso p entered expires closes = elim (Option-cases p.close_ts) [
  | inl open_still ↦ ground (arith, open_still, entered.reads_back, expires.reads_back)
  | inr (t, e) ↦ ground (
    arith,
    e,
    entered.reads_back,
    expires.reads_back,
    (closes t e).reads_back,
    (closes t e).not_empty,
  )
]

-- A position is expired exactly when no time to live remains.
pub is_expired-remaining :
    (p : Position) (now : ℤ) → (is_expired p now ≡ true) ↔ (remaining_ttl_sec p now ≡ pos 0)
unfolding is_expired remaining_ttl_sec ◌-ℤ◌
is_expired-remaining p now = (λ h. ground (arith, h), λ h. ground (arith, h))

mul_mono : (e a b : ℤ) → pos 0 ≤ℤ e → a ≤ℤ b → e *ℤ a ≤ℤ e *ℤ b
unfolding ◌*ℤ◌
mul_mono (pos n) (pos a) (pos b) h k =
    let le : a * n ≤ b * n = mul-le-mul_right n (omega arith) in ground (arith, le)
mul_mono (pos n) (pos a) (negsuc b) h k = omega arith
mul_mono (pos n) (negsuc a) (pos b) h k = ground arith
mul_mono (pos n) (negsuc a) (negsuc b) h k =
    let le : suc b * n ≤ suc a * n = mul-le-mul_right n (omega arith) in ground (arith, le)
mul_mono (negsuc n) a b h k = omega arith

-- A position that is sold short closes at once: for a side other than BUY, a position made from a
-- signal with a price and rates that are not negative hits both its take-profit and its stop-loss
-- price at its own entry price.
pub short_closes_at_entry :
    (signal_id mint mode wallet side : String) (entry size ttl tp sl ts : ℤ)
    → str_eq (upper side) "BUY" ≡ false
    → pos 0 ≤ℤ entry
    → pos 0 ≤ℤ tp
    → pos 0 ≤ℤ sl
    → (is_tp_hit
          (create_position_from_signal signal_id mint entry size ttl tp sl mode wallet ts)
          entry
          side
        ≡ true)
      × (is_sl_hit
            (create_position_from_signal signal_id mint entry size ttl tp sl mode wallet ts)
            entry
            side
          ≡ true)
unfolding is_tp_hit is_sl_hit create_position_from_signal
short_closes_at_entry signal_id mint mode wallet side entry size ttl tp sl ts short price high low =
    let above : entry *ℤ pos 10000 ≤ℤ entry *ℤ (pos 10000 +ℤ tp) =
      mul_mono entry (pos 10000) (pos 10000 +ℤ tp) price (omega int_laws) in
    let below : entry *ℤ (pos 10000 -ℤ sl) ≤ℤ entry *ℤ pos 10000 =
      mul_mono entry (pos 10000 -ℤ sl) (pos 10000) price (omega int_laws) in
    (ground (arith, short, above), ground (arith, short, below))
