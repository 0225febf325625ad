-- ===== src/Monitor/Clock.antt =====
-- Deadlines in checked `i64` milliseconds (crates/fx-process/src/monitor.rs, lines 658 to 691).
pub mod Grid
use fx_rs.Base.{
  ℕ, ◌+◌, ◌*◌, ◌/◌, ◌^◌, Bool, true, false, Option, none, some, Result, ok, err, ◌>>=◌, ◌>>◌,
  refuse_if, leb, ltb, ◌==◌, if◌then◌else◌,
}
use fx_rs.Base.Int.{ℤ, pos, negsuc, pos_part, neg_part, ◌+ℤ◌, ◌-ℤ◌, ltb_ℤ, min_ℤ, i64_max, checked}
use fx_rs.Monitor.Config.{MonitorError, deadline_overflow, invalid_schedule}

abbrev ok_or : {A : Type 0} → Option A → MonitorError → Result MonitorError A
ok_or none e = err e
ok_or (some a) e = ok a

-- `i64::try_from(duration_ms)`, with the error of the source.
abbrev to_i64 : ℕ → Result MonitorError ℕ
to_i64 n = if leb n i64_max then ok n else err deadline_overflow

unfoldable pub deadline : ℤ → ℕ → Result MonitorError ℤ
unfolding ◌+ℤ◌
deadline now_ms duration_ms = do
  duration ← to_i64 duration_ms
  ok_or (checked (now_ms +ℤ pos duration)) deadline_overflow

-- `elapsed` is not negative here, and neither are `steps` and their product. The unchecked
-- `elapsed / interval + 1` is past `i64` only at an interval of 1 ms, where it wraps to the least
-- `i64` and the product with 1 is checked as that number.
next_steps : ℕ → ℕ → Result MonitorError ℤ
next_steps elapsed interval =
    let steps = elapsed / interval + 1 in
    if leb steps i64_max
    then if leb (steps * interval) i64_max
      then ok (pos (steps * interval))
      else err deadline_overflow
    else ok (negsuc i64_max)

unfoldable pub advance_deadline : ℤ → ℕ → ℤ → Result MonitorError ℤ
unfolding ◌+ℤ◌ ◌-ℤ◌ next_steps
advance_deadline current interval_ms now_ms = do
  interval ← to_i64 interval_ms
  refuse_if (interval == 0) invalid_schedule
  if ltb_ℤ now_ms current then ok current else do
    elapsed ← ok_or (checked (now_ms -ℤ current)) deadline_overflow
    by ← next_steps (pos_part elapsed) interval
    ok_or (checked (current +ℤ by)) deadline_overflow

unfoldable pub earlier : Option ℤ → Option ℤ → Option ℤ
earlier none value = value
earlier (some left) none = some left
earlier (some left) (some right) = some (min_ℤ left right)
