-- ===== src/KillSwitch/Gate.antt =====
-- The panic flag as a gate, and what the cache of `is_panic_active` does to it.
use engine_bot.Shared.{
  ◌≡◌, refl, String, str_eq, eq_iff, true, false, none, some, arith, if◌then◌else◌,
}
use engine_bot.Shared.Int.{ℤ, pos, ◌-ℤ◌, ◌<ℤ◌}
use engine_bot.Shared.Dict.{contains, insert, contains-insert, contains-erase, lookup-insert}
use engine_bot.Shared.Results.{ok, err}
use engine_bot.KillSwitch.Panic.{
  World, cached, is_panic_active, get_panic_reason, create_panic_flag, clear_panic_flag, or_text,
  require_no_panic,
}
use engine_bot.KillSwitch.Shutdown.{KillSwitchConfig, check_panic}

-- The check of a cycle ignores the cache and changes nothing: it raises `PanicShutdown` exactly
-- if the switch is enabled, the existence test of the flag does not fail, and the flag file is
-- there.
pub check_panic_raises :
    (c : KillSwitchConfig) (now : ℤ) (w : World)
    → check_panic (some c) now w ≡ (
      if c.enabled
          then (if w.exists_fails
              then ok tt
              else if contains c.flag_path w.files
              then err (or_text (get_panic_reason c.flag_path w) "Unknown")
              else ok tt)
          else ok tt,
      w,
    )
unfolding check_panic require_no_panic is_panic_active cached
check_panic_raises c now w = ground arith

standard_text_not_empty : str_eq "Master kill-switch activated" "" ≡ false
standard_text_not_empty = refl

-- Where no file operation fails, setting the flag with a reason makes the next check of an
-- enabled switch raise with that reason, or with a standard text if the reason is empty; and
-- clearing it again succeeds and lets the check pass.
pub flag_cycle :
    (c : KillSwitchConfig) (reason : String) (now later : ℤ) (w : World)
    → c.enabled ≡ true
    → w.exists_fails ≡ false
    → w.read_fails ≡ false
    → w.remove_fails ≡ false
    → let raised = create_panic_flag c.flag_path reason w in
      let (done, cleared) = clear_panic_flag c.flag_path raised in
      ((check_panic (some c) now raised).0
        ≡ err (if str_eq reason "" then "Master kill-switch activated" else reason))
      × (done ≡ true)
      × ((check_panic (some c) later cleared).0 ≡ ok tt)
unfolding check_panic require_no_panic is_panic_active cached get_panic_reason create_panic_flag
    clear_panic_flag or_text
flag_cycle c reason now later w on e r d = ground (
  arith,
  on,
  e,
  r,
  d,
  lookup-insert c.flag_path c.flag_path reason w.files,
  contains-insert c.flag_path c.flag_path reason w.files,
  contains-erase c.flag_path c.flag_path (insert c.flag_path reason w.files),
  eq_iff c.flag_path c.flag_path,
  standard_text_not_empty,
)

-- With a cache time, an answer for one flag file is given for every other file too until the time
-- is over, whether that file exists or not.
pub cache_ignores_path :
    (a b : String) (ttl now later : ℤ) (w : World)
    → w.panic_cache ≡ none
    → w.exists_fails ≡ false
    → pos 0 <ℤ ttl
    → later -ℤ now <ℤ ttl
    → (is_panic_active b ttl later (is_panic_active a ttl now w).1).0 ≡ contains a w.files
unfolding is_panic_active cached
cache_ignores_path a b ttl now later w empty e on fresh = ground arith
