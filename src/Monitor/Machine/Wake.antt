-- ===== src/Monitor/Machine/Wake.antt =====
-- `next_deadline` wakes the host in time for whatever falls due.
use fx_rs.Base.{◌≡◌, Bool, true, false, not, ◌&&◌, ◌||◌, ok, arith, is_some_and}
use fx_rs.Base.Int.{ℤ, leb_ℤ}
use fx_rs.Monitor.State.{Monitor, Decision, is_degraded, no_decision}
use fx_rs.Monitor.Machine.{timer_decision, polling_due, quiet_due, next_deadline}

-- The host that sleeps until the next deadline is awake at `now_ms`.
abbrev pub wakes : Monitor → ℤ → Bool
wakes m now_ms = is_some_and (next_deadline m) (λ at. leb_ℤ at now_ms)

abbrev pub check_due : Monitor → ℤ → Bool
check_due m now_ms =
    polling_due m now_ms || (quiet_due m now_ms && not (is_degraded m.runtime.state))

-- When a poll is due, or a quiet check of a monitor that is not degraded, the next deadline has
-- passed.
pub next_deadline-check_due :
    (m : Monitor) (now_ms : ℤ) → check_due m now_ms ≡ true → wakes m now_ms ≡ true
unfolding polling_due quiet_due next_deadline
next_deadline-check_due m now_ms h = ground arith

-- Before the next deadline `timer_decision`, where it succeeds, decides nothing and does not change
-- the monitor.
pub timer_decision-early :
    (m : Monitor) (now_ms : ℤ) {d : Decision}
    → wakes m now_ms ≡ false
    → (timer_decision now_ms m).0 ≡ ok d
    → (d ≡ no_decision) × ((timer_decision now_ms m).1 ≡ m)
unfolding next_deadline timer_decision
timer_decision-early m now_ms w h = ground arith
