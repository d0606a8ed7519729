-- ===== src/Idempotency/Failures.antt =====
-- The state file when reading or writing it fails.
use engine_bot.Shared.{ℕ, ◌≡◌, String, true, false, some, List, [], ◌∷◌, arith}
use engine_bot.Shared.Dict.{lookup, insert}
use engine_bot.Idempotency.Manager.{
  Line, Disk, new_lock, is_valid, read_locks, to_lines, write_locks, acquire_lock, release_lock,
  prune,
}

-- A failed write is harmless: neither an acquisition, a release nor a pruning changes the file,
-- and the first two report failure.
pub write_failure_is_atomic :
    (ttl : ℕ) (key : String) (now : ℕ) (d : Disk)
    → d.write_fails ≡ true
    → (acquire_lock ttl key now d ≡ (false, d))
      × (release_lock key d ≡ (false, d))
      × ((prune now d).1 ≡ d)
unfolding acquire_lock release_lock prune write_locks
write_failure_is_atomic ttl key now d w = (ground (arith, w), ground (arith, w), ground (arith, w))

-- A failed read is not: if the file exists, cannot be read, and can be written, an acquisition
-- succeeds whatever locks the file holds, and leaves the new lock alone in it.
read_failure_drops_locks :
    (ttl : ℕ) (key : String) (now : ℕ) (d : Disk) {ls : List Line}
    → d.file ≡ some ls
    → d.read_fails ≡ true
    → d.write_fails ≡ false
    → let (done, d') = acquire_lock ttl key now d in
      (done ≡ true) × (d'.file ≡ some (to_lines ((key, new_lock ttl now) ∷ [])))
unfolding acquire_lock read_locks write_locks lookup insert is_valid
read_failure_drops_locks ttl key now d f r w = ground (arith, f, r, w)
