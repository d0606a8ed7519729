-- ===== src/Reload/Tests.antt =====
-- The reloader at concrete inputs.
use engine_bot.Shared.{◌≡◌, refl, true, none, some, List, [], ◌∷◌, All}
use engine_bot.Shared.Int.{ℤ, pos, negsuc}
use engine_bot.Reload.Schema.{
  RawConfig, flatten, checked, read_and_validate, is_valid, has_signal_ranges, has_risk_ranges,
  has_retry_ranges, has_trailing_ranges, in_range,
}
use engine_bot.Reload.Watcher.{
  Seen, start, is_there, load, check_file, check_time, try_reload, replaced, notify, acknowledged,
  poll_all,
}
use engine_bot.Reload.Ranges.{IsLoaded, OnLoaded}
use engine_bot.Reload.Runs.{poll_all-IsLoaded}

-- A file with one threshold.
abbrev file : ℤ → RawConfig
file edge = record {
  signals = some (record {
    edge_threshold_base = some edge;
    edge_threshold_riskon = none;
    edge_threshold_riskoff = none;
  });
  risk = none;
}

abbrev seen : ℤ → ℤ → Seen
seen mtime edge = record {
  mtime = some mtime;
  content = some (file edge);
  later_mtime = some mtime;
  listener_raises = true;
}

-- A good file, a bad one, and a good one again.
abbrev polls : List Seen
polls = seen (pos 2) (negsuc 0) ∷ seen (pos 3) (pos 700) ∷ []

bad_file_kept_out : poll_all polls (start true (seen (pos 1) (pos 600))) ≡ record {
  has_listener = true;
  current_config = some (flatten (file (pos 700)));
  last_mtime = pos 3;
  notified = flatten (file (pos 700)) ∷ [];
}
unfolding poll_all start is_there load check_file check_time try_reload replaced notify acknowledged
    read_and_validate checked is_valid has_signal_ranges has_risk_ranges has_retry_ranges
    has_trailing_ranges in_range flatten
bad_file_kept_out = refl

poll_all-IsLoaded_example :
    OnLoaded (poll_all polls (start true (seen (pos 1) (pos 600)))).current_config
    × All IsLoaded (poll_all polls (start true (seen (pos 1) (pos 600)))).notified
poll_all-IsLoaded_example = poll_all-IsLoaded true (seen (pos 1) (pos 600)) polls
