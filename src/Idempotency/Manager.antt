-- ===== src/Idempotency/Manager.antt =====
-- execution/idempotency.py: `IdempotencyManager` over its state file. Times are microseconds.
use Prim.Native.String.{◌++◌ as ◌+s◌}
use engine_bot.Shared.{
  ℕ, ◌+◌, ◌-◌, ◌*◌, ◌/◌, String, Bool, true, false, Option, none, some, List, [], ◌∷◌, length, keep,
  ltb, if◌then◌else◌,
}
use engine_bot.Shared.Dict.{Dict, lookup, contains, insert, erase}

abbrev pub second : ℕ
second = 1000000

-- A line of the JSONL file: an entry with the fields that it has, an empty line, or one that does
-- not parse or has no key.
pub data Line : Type 0 where
  entry : String → Option ℕ → Option ℕ → Line
  blank malformed : Line

-- The state file, if it exists, and whether the next read or write of it fails with `OSError`.
pub record Disk : Type 0 where
  pub file : Option (List Line)
  pub read_fails : Bool
  pub write_fails : Bool

pub record Lock : Type 0 where
  pub acquired_at : ℕ
  pub expiry : ℕ

abbrev pub or_zero : Option ℕ → ℕ
or_zero none = 0
or_zero (some n) = n

-- The loop of `_read_locks`: a later line of a key replaces an earlier one.
unfoldable pub read_lines : List Line → Dict Lock → Dict Lock
read_lines [] locks = locks
read_lines (entry k acquired expiry ∷ ls) locks =
    read_lines ls
      (insert k (record { acquired_at = or_zero acquired; expiry = or_zero expiry }) locks)
read_lines (blank ∷ ls) locks = read_lines ls locks
read_lines (malformed ∷ ls) locks = read_lines ls locks

-- `_read_locks`
unfoldable pub read_locks : Disk → Dict Lock
read_locks d = elim d.file [ none ↦ [] | some ls ↦ if d.read_fails then [] else read_lines ls [] ]

-- `_ensure_state_file`
unfoldable pub ensure_state_file : Disk → Disk
ensure_state_file d = elim d.file [ none ↦ record d { file = some [] } | some _ ↦ d ]

unfoldable pub to_lines : Dict Lock → List Line
to_lines [] = []
to_lines (e ∷ locks) = entry e.0 (some e.1.acquired_at) (some e.1.expiry) ∷ to_lines locks

-- The write to a temporary file and its rename: all of it, or nothing and `false`.
unfoldable pub write_locks : Dict Lock → Disk → Bool × Disk
write_locks locks d =
    if d.write_fails then (false, d) else (true, record d { file = some (to_lines locks) })

unfoldable pub new_lock : ℕ → ℕ → Lock
new_lock ttl now = record { acquired_at = now; expiry = now + ttl }

-- Whether a lock that may be missing is valid.
unfoldable pub is_valid : ℕ → Option Lock → Bool
is_valid now none = false
is_valid now (some l) = ltb now l.expiry

-- `acquire_lock`, with the time to live as `ttl`.
unfoldable pub acquire_lock : ℕ → String → ℕ → Disk → Bool × Disk
acquire_lock ttl key now d =
    if is_valid now (lookup key (read_locks d))
    then (false, d)
    else write_locks (insert key (new_lock ttl now) (read_locks d)) d

unfoldable pub release_lock : String → Disk → Bool × Disk
release_lock key d =
    if contains key (read_locks d) then write_locks (erase key (read_locks d)) d else (false, d)

-- `v.get("expiry", 0) > now`
unfoldable pub is_live : ℕ → Lock → Bool
is_live now l = ltb now l.expiry

-- The number of locks removed, also where the write fails.
unfoldable pub prune : ℕ → Disk → ℕ × Disk
prune now d =
    let locks = read_locks d in
    let active = keep (λ e. is_live now e.1) locks in
    let removed = length locks - length active in
    (removed, if ltb 0 removed then (write_locks active d).1 else d)

unfoldable pub check : String → ℕ → Disk → Bool
check key now d = is_valid now (lookup key (read_locks d))

-- The fields of a signal that the key is made of; a missing one is the empty text.
pub record Signal : Type 0 where
  pub wallet : Option String
  pub mint : Option String
  pub side : Option String

abbrev pub or_empty : Option String → String
or_empty none = ""
or_empty (some s) = s

unfoldable pub bucketed_timestamp : ℕ → ℕ → ℕ
bucketed_timestamp bucket_sec now = now / (bucket_sec * second)

-- SHA-256 in hexadecimal and the decimal form of a number are parameters.
unfoldable pub generate_key : (String → String) → (ℕ → String) → Signal → ℕ → String
generate_key sha256 decimal s now = sha256 (
    or_empty s.wallet
    +s ":"
    +s or_empty s.mint
    +s ":"
    +s or_empty s.side
    +s ":"
    +s decimal (bucketed_timestamp 60 now))
