-- ===== src/Reload/Runs.antt =====
-- config/hot_reload.py: what the reloader promises over all polls.
use engine_bot.Shared.{
  ◌≡◌, refl, Bool, true, Option, none, some, List, [], ◌∷◌, All, All-append, arith, Bool-cases, inl,
  inr,
}
use engine_bot.Shared.Int.{ℤ, pos}
use engine_bot.Reload.Schema.{RuntimeConfig, read_and_validate}
use engine_bot.Reload.Watcher.{
  Seen, ConfigReloader, load, is_there, start, acknowledged, replaced, notify, try_reload,
  same_time, check_time, check_file, poll_all,
}
use engine_bot.Reload.Ranges.{IsLoaded, OnLoaded, read-OnLoaded}

-- What the reloader has, and what its listener was told, was loaded from a file.
abbrev pub IsSound : ConfigReloader → Type 0
IsSound r = OnLoaded r.current_config × All IsLoaded r.notified

notify-IsSound :
    (new : RuntimeConfig) (seen : Seen) (r : ConfigReloader)
    → IsLoaded new
    → IsSound r
    → IsSound (notify new seen r)
unfolding notify acknowledged
notify-IsSound new seen r loaded h =
    let more = All-append IsLoaded r.notified (new ∷ []) h.1 (loaded, tt) in ground (arith, more)

try_reload-IsSound :
    (o : Option RuntimeConfig) (mtime : ℤ) (seen : Seen) (r : ConfigReloader)
    → OnLoaded o
    → IsSound r
    → IsSound (try_reload o mtime seen r)
unfolding try_reload acknowledged replaced
try_reload-IsSound none mtime seen r loaded h = h
try_reload-IsSound (some new) mtime seen r loaded h =
    notify-IsSound new seen (replaced new mtime r) loaded (loaded, h.1)

check_time-IsSound :
    (o : Option ℤ) (seen : Seen) (r : ConfigReloader) → IsSound r → IsSound (check_time o seen r)
unfolding check_time
check_time-IsSound none seen r h = h
check_time-IsSound (some mtime) seen r h =
    let next =
      try_reload-IsSound (read_and_validate seen.content) mtime seen r (read-OnLoaded seen.content)
        h in
    elim (Bool-cases (same_time mtime r.last_mtime)) [
      | inl same ↦ rw (same, check_time) h
      | inr new ↦ rw (new, check_time) next
    ]

load-IsSound :
    (o : Option RuntimeConfig) (later : Option ℤ) (r : ConfigReloader)
    → OnLoaded o
    → IsSound r
    → IsSound (load o later r)
unfolding load
load-IsSound none later r loaded h = h
load-IsSound (some new) later r loaded h = (loaded, h.1)

start-IsSound : (has_listener : Bool) (seen : Seen) → IsSound (start has_listener seen)
unfolding start
start-IsSound has_listener seen =
    let begun : IsSound (record {
      has_listener = has_listener;
      current_config = none;
      last_mtime = pos 0;
      notified = [];
    }) =
      (tt, tt) in
    let loaded =
      load-IsSound (read_and_validate seen.content) seen.later_mtime _ (read-OnLoaded seen.content)
        begun in
    elim (Bool-cases (is_there seen.mtime)) [
      | inl there ↦ rw (there, start) loaded
      | inr missing ↦ rw (missing, start) begun
    ]

poll_all-IsSound : (polls : List Seen) (r : ConfigReloader) → IsSound r → IsSound (poll_all polls r)
unfolding poll_all check_file
poll_all-IsSound [] r h = h
poll_all-IsSound (seen ∷ polls) r h =
    poll_all-IsSound polls (check_file seen r) (check_time-IsSound seen.mtime seen r h)

-- After every sequence of polls, whatever the files say and whether or not the listener raises: the
-- current configuration, if there is one, and every configuration that the listener was told of
-- have all thresholds, sizes and limits within their ranges, and have neither the retries of
-- partial fills nor dynamic trailing enabled.
pub poll_all-IsLoaded :
    (has_listener : Bool) (first : Seen) (polls : List Seen)
    → OnLoaded (poll_all polls (start has_listener first)).current_config
      × All IsLoaded (poll_all polls (start has_listener first)).notified
poll_all-IsLoaded has_listener first polls =
    poll_all-IsSound polls (start has_listener first) (start-IsSound has_listener first)

-- The last time of modification after a reload.
try_reload-last_mtime :
    (o : Option RuntimeConfig) (mtime : ℤ) (seen : Seen) (r : ConfigReloader)
    → seen.later_mtime ≡ some mtime
    → (try_reload o mtime seen r).last_mtime ≡ mtime
unfolding try_reload notify acknowledged replaced
try_reload-last_mtime none mtime seen r later = rw (later, try_reload) refl
try_reload-last_mtime (some new) mtime seen r later = ground (arith, later)

same_time_self : (t : ℤ) → same_time t t ≡ true
same_time_self t = ground arith

check_time_same :
    (again : Seen) (r : ConfigReloader) (mtime : ℤ)
    → same_time mtime r.last_mtime ≡ true
    → check_time (some mtime) again r ≡ r
unfolding check_time
check_time_same again r mtime same = rw (same, check_time) refl

check_time_once :
    (seen again : Seen) (r : ConfigReloader) (mtime : ℤ)
    → seen.later_mtime ≡ some mtime
    → check_time (some mtime) again (check_time (some mtime) seen r)
      ≡ check_time (some mtime) seen r
unfolding check_time
check_time_once seen again r mtime later =
    let next = try_reload (read_and_validate seen.content) mtime seen r in
    let reached : next.last_mtime ≡ mtime =
      try_reload-last_mtime (read_and_validate seen.content) mtime seen r later in
    check_time_same again (check_time (some mtime) seen r) mtime
      (elim (Bool-cases (same_time mtime r.last_mtime)) [
        | inl same ↦ rw (same, check_time) same
        | inr new ↦ rw (new, check_time) (rw reached (same_time_self mtime))
      ])

-- Each version of the file is tried once: a poll that finds the time of modification of the last
-- poll, where that poll found it at both of its looks, changes nothing, whether or not the file
-- was accepted, and whether or not the listener raised.
pub check_file_once :
    (seen again : Seen) (r : ConfigReloader) (mtime : ℤ)
    → seen.mtime ≡ some mtime
    → seen.later_mtime ≡ some mtime
    → again.mtime ≡ some mtime
    → check_file again (check_file seen r) ≡ check_file seen r
unfolding check_file
check_file_once seen again r mtime found later same =
    cc (found, same, check_time_once seen again r mtime later)
