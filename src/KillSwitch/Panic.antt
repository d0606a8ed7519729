-- ===== src/KillSwitch/Panic.antt =====
-- ops/panic.py: the panic flag file and its cache. A file is its text after `strip()`.
use engine_bot.Shared.{String, str_eq, Bool, true, false, Option, none, some, ◌&&◌, if◌then◌else◌}
use engine_bot.Shared.Int.{ℤ, pos, ◌-ℤ◌, ltb_ℤ}
use engine_bot.Shared.Dict.{Dict, lookup, contains, insert, erase}
use engine_bot.Shared.Results.{Result, ok, err}

-- The flag files that exist, which calls of the operating system fail, and the module's globals.
pub record World : Type 0 where
  pub files : Dict String
  pub exists_fails : Bool
  pub read_fails : Bool
  pub remove_fails : Bool
  pub panic_cache : Option Bool
  pub panic_cache_time : ℤ

-- The answer of the cache, if `is_panic_active` takes it.
unfoldable pub cached : ℤ → ℤ → World → Option Bool
cached ttl now w =
    if ltb_ℤ (pos 0) ttl && ltb_ℤ (now -ℤ w.panic_cache_time) ttl then w.panic_cache else none

unfoldable pub is_panic_active : String → ℤ → ℤ → World → Bool × World
is_panic_active flag_path ttl now w = elim (cached ttl now w) [
  | some answer ↦ (answer, w)
  | none ↦
      if w.exists_fails
      then (false, w)
      else if ltb_ℤ (pos 0) ttl
      then (
        contains flag_path w.files,
        record w { panic_cache = some (contains flag_path w.files); panic_cache_time = now },
      )
      else (contains flag_path w.files, w)
]

unfoldable pub get_panic_reason : String → World → Option String
get_panic_reason flag_path w = elim (lookup flag_path w.files) [
  | none ↦ none
  | some content ↦
      if w.read_fails
      then some "Master kill-switch activated (reason unreadable)"
      else if str_eq content ""
      then some "Master kill-switch activated"
      else some content
]

unfoldable pub create_panic_flag : String → String → World → World
create_panic_flag flag_path reason w = record w { files = insert flag_path reason w.files }

unfoldable pub clear_panic_flag : String → World → Bool × World
clear_panic_flag flag_path w =
    if w.exists_fails
    then (false, w)
    else if contains flag_path w.files
    then (if w.remove_fails
        then (false, w)
        else (true, record w { files = erase flag_path w.files }))
    else (false, w)

unfoldable pub clear_panic_cache : World → World
clear_panic_cache w = record w { panic_cache = none; panic_cache_time = pos 0 }

-- `x or default` of a text that may be missing: the empty text counts as missing.
unfoldable pub or_text : Option String → String → String
or_text none default = default
or_text (some s) default = if str_eq s "" then default else s

-- The error is `PanicShutdown`, with its reason.
unfoldable pub require_no_panic : String → ℤ → World → Result String (Unit {0}) × World
require_no_panic flag_path now w =
    let (active, w') = is_panic_active flag_path (pos 0) now w in
    if active then (err (or_text (get_panic_reason flag_path w') "Unknown"), w') else (ok tt, w')
