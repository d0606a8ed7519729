-- ===== src/Idempotency/Locks.antt =====
-- The locks as clients see them: exclusion, expiry, release, pruning and failures of the file.
use engine_bot.Shared.{
  ℕ, ◌+◌, ◌-◌, ◌*◌, ◌/◌, ◌≤◌, ◌<◌, ◌≡◌, ◌∙◌, sym, ap, inl, inr, String, str_eq, eq_iff, true, false,
  not, none, some, length, keep, keep-eq_of_length, arith, ltb, Bool-cases, Option-cases,
  if◌then◌else◌,
}
use engine_bot.Shared.Dict.{
  lookup, contains, insert, erase, lookup-insert, lookup-erase, lookup-none, insert-IsUnique,
  erase-IsUnique,
}
use engine_bot.Idempotency.Manager.{
  Disk, Lock, new_lock, is_valid, is_live, read_locks, write_locks, acquire_lock, release_lock,
  prune, check, Signal, generate_key, bucketed_timestamp, second, or_empty,
}
use engine_bot.Idempotency.File.{
  read_locks-IsUnique, lookup-write_locks, lookup-keep, keep-IsUnique,
}

-- No file operation fails.
pub record IsHealthy (d : Disk) : Type 0 where
  pub reads : d.read_fails ≡ false
  pub writes : d.write_fails ≡ false

acquire-lookup :
    (ttl : ℕ) (key j : String) (now : ℕ) (d : Disk)
    → IsHealthy d
    → lookup j (read_locks (acquire_lock ttl key now d).1) ≡ (
        if is_valid now (lookup key (read_locks d))
        then lookup j (read_locks d)
        else if str_eq key j
        then some (new_lock ttl now)
        else lookup j (read_locks d))
unfolding acquire_lock
acquire-lookup ttl key j now d h = elim (Bool-cases (is_valid now (lookup key (read_locks d)))) [
  | inl held ↦ rw held
  | inr free ↦ rw free (
      lookup-write_locks j (insert key (new_lock ttl now) (read_locks d)) d
        (insert-IsUnique key (new_lock ttl now) (read_locks d) (read_locks-IsUnique d)) h.writes
        h.reads
      ∙ lookup-insert key j (new_lock ttl now) (read_locks d))
]

done-acquire_lock :
    (ttl : ℕ) (key : String) (now : ℕ) (d : Disk)
    → IsHealthy d
    → (acquire_lock ttl key now d).0 ≡ not (is_valid now (lookup key (read_locks d)))
unfolding acquire_lock write_locks
done-acquire_lock ttl key now d h = ground (arith, h.writes)

refused_while_valid :
    (ttl : ℕ) (key : String) (now : ℕ) (d : Disk)
    → is_valid now (lookup key (read_locks d)) ≡ true
    → acquire_lock ttl key now d ≡ (false, d)
unfolding acquire_lock
refused_while_valid ttl key now d held = rw held

release-lookup :
    (key j : String) (d : Disk)
    → IsHealthy d
    → lookup j (read_locks (release_lock key d).1)
      ≡ (if str_eq key j then none else lookup j (read_locks d))
unfolding release_lock
release-lookup key j d h = elim (Bool-cases (contains key (read_locks d))) [
  | inl held ↦ rw held (
      lookup-write_locks j (erase key (read_locks d)) d
        (erase-IsUnique key (read_locks d) (read_locks-IsUnique d)) h.writes h.reads
      ∙ lookup-erase key j (read_locks d))
  | inr free ↦ rw free (ground (arith, eq_iff key j, lookup-none key (read_locks d) free))
]

done-release_lock :
    (key : String) (d : Disk) → IsHealthy d → (release_lock key d).0 ≡ contains key (read_locks d)
unfolding release_lock write_locks
done-release_lock key d h = ground (arith, h.writes)

release-IsHealthy : (key : String) (d : Disk) → IsHealthy d → IsHealthy (release_lock key d).1
unfolding release_lock write_locks
release-IsHealthy key d h = ground (arith, h.writes, h.reads)

-- While no file operation fails: `acquire_lock` succeeds exactly if `check` finds no valid lock;
-- after a success the lock is valid exactly until its time to live is over, so that until then
-- every further attempt for the key is refused; and the locks of other keys stay as they were.
pub acquire_lock_excludes :
    (ttl : ℕ) (key : String) (now : ℕ) (d : Disk)
    → IsHealthy d
    → let (done, d') = acquire_lock ttl key now d in
      (done ≡ not (check key now d))
      × (done ≡ true
          → (later : ℕ)
          → (check key later d' ≡ ltb later (now + ttl))
            × (later < now + ttl → acquire_lock ttl key later d' ≡ (false, d')))
      × ((j : String) (later : ℕ) → str_eq key j ≡ false → check j later d' ≡ check j later d)
unfolding check is_valid new_lock
acquire_lock_excludes ttl key now d h = (
  done-acquire_lock ttl key now d h,
  λ done later.
      let valid : is_valid later (lookup key (read_locks (acquire_lock ttl key now d).1))
          ≡ ltb later (now + ttl) =
        ground (
          arith,
          done,
          done-acquire_lock ttl key now d h,
          acquire-lookup ttl key key now d h,
          eq_iff key key,
        ) in
      (
        valid,
        λ early.
            refused_while_valid ttl key later (acquire_lock ttl key now d).1
              (ground (arith, valid)),
      ),
  λ j later other. ground (arith, acquire-lookup ttl key j now d h),
)

-- While no file operation fails, a release succeeds exactly if the key has a lock, valid or not;
-- afterwards the key has none, so that it can be acquired at once, and the locks of other keys
-- stay as they were.
pub release_lock_frees :
    (ttl : ℕ) (key : String) (now : ℕ) (d : Disk)
    → IsHealthy d
    → let (done, d') = release_lock key d in
      (done ≡ contains key (read_locks d))
      × (check key now d' ≡ false)
      × ((acquire_lock ttl key now d').0 ≡ true)
      × ((j : String) (later : ℕ) → str_eq key j ≡ false → check j later d' ≡ check j later d)
unfolding check is_valid
release_lock_frees ttl key now d h =
    let gone : lookup key (read_locks (release_lock key d).1) ≡ none =
      ground (arith, release-lookup key key d h, eq_iff key key) in
    (
      done-release_lock key d h,
      ground (arith, gone),
      ground (
        arith,
        gone,
        done-acquire_lock ttl key now (release_lock key d).1 (release-IsHealthy key d h),
      ),
      λ j later other. ground (arith, release-lookup key j d h),
    )

prune-lookup :
    (key : String) (now : ℕ) (d : Disk)
    → IsHealthy d
    → lookup key (read_locks (prune now d).1)
      ≡ lookup key (keep (λ e. is_live now e.1) (read_locks d))
unfolding prune
prune-lookup key now d h =
    let active = keep (λ e. is_live now e.1) (read_locks d) in
    elim (Bool-cases (ltb 0 (length (read_locks d) - length active))) [
      | inl some_gone ↦ rw some_gone (
          lookup-write_locks key active d
            (keep-IsUnique (λ e. is_live now e.1) (read_locks d) (read_locks-IsUnique d)) h.writes
            h.reads)
      | inr none_gone ↦ rw none_gone (
          ap (lookup key)
            (sym (keep-eq_of_length (λ e. is_live now e.1) (read_locks d) (ground arith))))
    ]

-- While no file operation fails, pruning changes no answer of `check`, for any key, now or later;
-- and it leaves no lock that has expired.
pub prune_keeps_valid :
    (key : String) (now later : ℕ) (d : Disk)
    → IsHealthy d
    → now ≤ later
    → let d' = (prune now d).1 in
      (check key later d' ≡ check key later d)
      × ((l : Lock) → lookup key (read_locks d') ≡ some l → now < l.expiry)
unfolding check is_valid is_live
prune_keeps_valid key now later d h le =
    rw
      (
        prune-lookup key now d h,
        lookup-keep key (is_live now) (read_locks d) (read_locks-IsUnique d),
      )
      (
        elim (Option-cases (lookup key (read_locks d))) [
          | inl gone ↦ ground (arith, gone)
          | inr (l, found) ↦ ground (arith, found)
        ],
        λ l e. elim (Option-cases (lookup key (read_locks d))) [
          | inl gone ↦ ground (arith, gone)
          | inr (l', found) ↦ ground (arith, found)
        ],
      )

-- A signal that comes twice within one minute is executed once: where no file operation fails
-- and the time to live is at least a minute, after a first acquisition for its key, an attempt
-- for the key of a signal with the same wallet, mint and side in the same minute is refused.
pub same_minute_is_refused :
    (sha256 : String → String) (decimal : ℕ → String) (ttl : ℕ) (s t : Signal) (now later : ℕ)
    (d : Disk)
    → IsHealthy d
    → 60 * second ≤ ttl
    → or_empty s.wallet ≡ or_empty t.wallet
    → or_empty s.mint ≡ or_empty t.mint
    → or_empty s.side ≡ or_empty t.side
    → now / (60 * second) ≡ later / (60 * second)
    → (acquire_lock ttl (generate_key sha256 decimal s now) now d).0 ≡ true
    → (acquire_lock ttl
        (generate_key sha256 decimal t later)
        later
        (acquire_lock ttl (generate_key sha256 decimal s now) now d).1).0
      ≡ false
unfolding generate_key bucketed_timestamp
same_minute_is_refused sha256 decimal ttl s t now later d h long w m x bucket first =
    let key = generate_key sha256 decimal s now in
    let same : generate_key sha256 decimal t later ≡ key = cc (w, m, x, bucket) in
    rw same (
      ap (λ r. r.0)
        (((acquire_lock_excludes ttl key now d h).1 first later).1 (omega (arith, bucket, long))))
