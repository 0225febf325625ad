-- ===== src/Monitor/Machine/Once.antt =====
-- A monitor reports a match once.
use fx_rs.Base.{
  ℕ, ◌+◌, ◌≤◌, ◌≡◌, Bool, true, false, List, [], ◌∷◌, Option, some, Result, ok, err, arith,
  if◌then◌else◌,
}
use fx_rs.Base.Int.{ℤ}
use fx_rs.Monitor.Config.{MonitorError}
use fx_rs.Monitor.State.{Monitor, EventReason, Observation, Decision}
use fx_rs.Monitor.Machine.{
  observe, timer_decision, note_output, pause, resume, bump_generation, degrade_for_raw_gap,
  note_notification, feed_output, count_check, reschedule_check, reschedule_quiet, record_match,
  check_condition,
}
use fx_rs.Monitor.Machine.Calls.{
  Call, apply, run, observes, timer, feeds, pauses, degrades, bumps, resumes, notified,
}

abbrev is_matched : Option EventReason → Bool
is_matched (some EventReason.matched) = true
is_matched _ = false

-- How many reports of a match a result makes.
abbrev reports : Result MonitorError Decision → ℕ
reports (ok d) = if is_matched d.notify then 1 else 0
reports (err e) = 0

unfoldable pub match_reports : List Call → Monitor → ℕ
match_reports [] m = 0
match_reports (c ∷ cs) m = reports (apply c m).0 + match_reports cs (apply c m).1

-- How many reports a monitor can still make.
abbrev budget : Monitor → ℕ
budget m = if m.runtime.condition_matched then 0 else 1

abbrev Once : Result MonitorError Decision × Monitor → Monitor → Type 0
Once r m = reports r.0 + budget r.1 ≤ budget m

timer_decision-Once : (now_ms : ℤ) (m : Monitor) → Once (timer_decision now_ms m) m
unfolding timer_decision
timer_decision-Once now_ms m = ground arith

record_match-Once : (b : Bool) (m : Monitor) → Once (record_match b m) m
unfolding record_match
record_match-Once b m = ground arith

count_check-budget : (m : Monitor) → budget (count_check m).1 ≡ budget m
unfolding count_check
count_check-budget m = ground arith

reschedule_check-budget :
    (o : Observation) (now_ms : ℤ) (m : Monitor) → budget (reschedule_check o now_ms m).1 ≡ budget m
unfolding reschedule_check
reschedule_check-budget o now_ms m = ground arith

reschedule_quiet-budget :
    (o : Observation) (now_ms : ℤ) (m : Monitor) → budget (reschedule_quiet o now_ms m).1 ≡ budget m
unfolding reschedule_quiet
reschedule_quiet-budget o now_ms m = ground arith

check_condition-Once :
    (o : Observation) (b : Bool) (now_ms : ℤ) (m : Monitor) → Once (check_condition o b now_ms m) m
unfolding check_condition
check_condition-Once o b now_ms m =
    let counted = (count_check m).1 in
    let checked_at = (reschedule_check o now_ms counted).1 in
    let quieted = (reschedule_quiet o now_ms checked_at).1 in
    ground (
      arith,
      count_check-budget m,
      reschedule_check-budget o now_ms counted,
      reschedule_quiet-budget o now_ms checked_at,
      record_match-Once b quieted,
    )

observe-Once :
    (o : Observation) (b : Bool) (now_ms : ℤ) (m : Monitor) → Once (observe o b now_ms m) m
unfolding observe
observe-Once o b now_ms m = ground (arith, check_condition-Once o b now_ms m)

apply-Once : (c : Call) (m : Monitor) → Once (apply c m) m
unfolding apply
apply-Once (observes o b now_ms) m = observe-Once o b now_ms m
apply-Once (timer now_ms) m = timer_decision-Once now_ms m
apply-Once (Call.output now_ms) m = unfold note_output in ground arith
apply-Once (feeds bytes) m = unfold feed_output in ground arith
apply-Once pauses m = unfold pause in ground arith
apply-Once degrades m = unfold degrade_for_raw_gap in ground arith
apply-Once bumps m = unfold bump_generation in ground arith
apply-Once (resumes now_ms) m = unfold resume in ground arith
apply-Once (notified i reason) m = unfold note_notification in ground arith

match_reports-le-budget :
    (cs : List Call) (m : Monitor) → match_reports cs m + budget (run cs m) ≤ budget m
unfolding match_reports run
match_reports-le-budget [] m = omega arith
match_reports-le-budget (c ∷ cs) m =
    omega (arith, apply-Once c m, match_reports-le-budget cs (apply c m).1)

-- Over any history of calls, in any order and whether they succeed or fail, a monitor decides at
-- most once to notify of a match, and not at all if its condition was matched before.
pub match_reports-once :
    (cs : List Call) (m : Monitor)
    → match_reports cs m ≤ (if m.runtime.condition_matched then 0 else 1)
match_reports-once cs m = omega (arith, match_reports-le-budget cs m)
