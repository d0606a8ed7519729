-- ===== src/Reload/Watcher.antt =====
-- config/hot_reload.py: the reloader. What the file system says during one call, and whether the
-- listener raises, are data of that call.
use engine_bot.Shared.{
  Bool, true, false, ◌&&◌, Option, none, some, List, [], ◌∷◌, ◌++◌, if◌then◌else◌,
}
use engine_bot.Shared.Int.{ℤ, pos, leb_ℤ}
use engine_bot.Shared.Options.{get_or}
use engine_bot.Reload.Schema.{RuntimeConfig, RawConfig, read_and_validate}

-- The time of modification, none where the file is missing or cannot be looked at; the parsed
-- text, none where it cannot be read; and the time of modification at a second look.
pub record Seen : Type 0 where
  pub mtime : Option ℤ
  pub content : Option RawConfig
  pub later_mtime : Option ℤ
  pub listener_raises : Bool

-- `notified` has the calls of the listener.
pub record ConfigReloader : Type 0 where
  pub has_listener : Bool
  pub current_config : Option RuntimeConfig
  pub last_mtime : ℤ
  pub notified : List RuntimeConfig

unfoldable pub load : Option RuntimeConfig → Option ℤ → ConfigReloader → ConfigReloader
load none later r = r
load (some new) later r = record {
  has_listener = r.has_listener;
  current_config = some new;
  last_mtime = get_or later r.last_mtime;
  notified = r.notified;
}

unfoldable pub is_there : Option ℤ → Bool
is_there none = false
is_there (some t) = true

-- `__init__`, with `_load_initial` where the file exists.
unfoldable pub start : Bool → Seen → ConfigReloader
start has_listener seen =
    let r : ConfigReloader = record {
      has_listener = has_listener;
      current_config = none;
      last_mtime = pos 0;
      notified = [];
    } in
    if is_there seen.mtime then load (read_and_validate seen.content) seen.later_mtime r else r

-- The handler of an exception: this version of the file has been seen.
unfoldable pub acknowledged : Option ℤ → ConfigReloader → ConfigReloader
acknowledged later r = record {
  has_listener = r.has_listener;
  current_config = r.current_config;
  last_mtime = get_or later r.last_mtime;
  notified = r.notified;
}

unfoldable pub replaced : RuntimeConfig → ℤ → ConfigReloader → ConfigReloader
replaced new mtime r = record {
  has_listener = r.has_listener;
  current_config = some new;
  last_mtime = mtime;
  notified = r.notified;
}

unfoldable pub notify : RuntimeConfig → Seen → ConfigReloader → ConfigReloader
notify new seen r =
    let called : ConfigReloader = record {
      has_listener = r.has_listener;
      current_config = r.current_config;
      last_mtime = r.last_mtime;
      notified = r.notified ++ (new ∷ []);
    } in
    if r.has_listener
    then if seen.listener_raises then acknowledged seen.later_mtime called else called
    else r

unfoldable pub try_reload : Option RuntimeConfig → ℤ → Seen → ConfigReloader → ConfigReloader
try_reload none mtime seen r = acknowledged seen.later_mtime r
try_reload (some new) mtime seen r = notify new seen (replaced new mtime r)

-- `a == b` of times.
abbrev pub same_time : ℤ → ℤ → Bool
same_time a b = leb_ℤ a b && leb_ℤ b a

unfoldable pub check_time : Option ℤ → Seen → ConfigReloader → ConfigReloader
check_time none seen r = r
check_time (some mtime) seen r =
    if same_time mtime r.last_mtime
    then r
    else try_reload (read_and_validate seen.content) mtime seen r

unfoldable pub check_file : Seen → ConfigReloader → ConfigReloader
check_file seen r = check_time seen.mtime seen r

-- The polls of `_poll_loop`.
unfoldable pub poll_all : List Seen → ConfigReloader → ConfigReloader
poll_all [] r = r
poll_all (seen ∷ polls) r = poll_all polls (check_file seen r)
