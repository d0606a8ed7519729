-- ===== src/Idempotency/Tests.antt =====
-- The locks at concrete inputs.
use engine_bot.Shared.{
  ℕ, ◌+◌, ◌<◌, ◌≡◌, refl, String, str_eq, true, false, not, none, some, List, [], ◌∷◌, ltb,
}
use engine_bot.Shared.Dict.{lookup, insert}
use engine_bot.Idempotency.Manager.{
  Disk, Line, entry, blank, malformed, Signal, acquire_lock, check, read_locks, generate_key,
  is_valid, read_lines, write_locks,
}
use engine_bot.Idempotency.Locks.{IsHealthy, acquire_lock_excludes}

abbrev lines : List Line
lines = entry "old" (some 5) (some 20) ∷ blank ∷ malformed ∷ entry "live" none (some 500000000) ∷ []

abbrev disk : Disk
disk = record { file = some lines; read_fails = false; write_fails = false }

abbrev unreadable : Disk
unreadable = record disk { read_fails = true }

abbrev full_disk : Disk
full_disk = record disk { write_fails = true }

abbrev signal : Signal
signal = record { wallet = some "wallet"; mint = some "sol"; side = none }

abbrev plain : String → String
plain text = text

abbrev no_digits : ℕ → String
no_digits n = "0"

disk-IsHealthy : IsHealthy disk
disk-IsHealthy = record { reads = refl; writes = refl }

later_line_wins :
    check "old" 10
      (record disk { file = some (entry "old" (some 5) (some 20) ∷ entry "old" none none ∷ []) })
    ≡ false
unfolding check is_valid read_locks lookup read_lines insert
later_line_wins = refl

signal_is_granted :
    (acquire_lock 60000000 (generate_key plain no_digits signal 1000) 1000 disk).0 ≡ true
unfolding acquire_lock generate_key read_locks lookup insert is_valid write_locks read_lines
signal_is_granted = refl

acquire_lock_excludes_example :
    ((acquire_lock 300 "old" 30 disk).0 ≡ not (check "old" 30 disk))
    × ((acquire_lock 300 "old" 30 disk).0 ≡ true
        → (later : ℕ)
        → (check "old" later (acquire_lock 300 "old" 30 disk).1 ≡ ltb later (30 + 300))
          × (later < 30 + 300
              → acquire_lock 300 "old" later (acquire_lock 300 "old" 30 disk).1
                ≡ (false, (acquire_lock 300 "old" 30 disk).1)))
    × ((j : String) (later : ℕ)
        → str_eq "old" j ≡ false
        → check j later (acquire_lock 300 "old" 30 disk).1 ≡ check j later disk)
acquire_lock_excludes_example = acquire_lock_excludes 300 "old" 30 disk disk-IsHealthy
