-- ===== src/Monitor/Machine/Pausing.antt =====
-- What a pause stops, and what a resume restores.
use fx_rs.Base.{◌≡◌, Bool, true, false, List, [], ◌∷◌, Text, ok, arith}
use fx_rs.Base.Int.{ℤ}
use fx_rs.Base.Keeps.{Keeps, Keeps-bind}
use fx_rs.Monitor.Config.{MonitorDefinition}
use fx_rs.Monitor.State.{Monitor, MonitorState, Observation, no_decision, is_suspended}
use fx_rs.Monitor.Create.{new, validate}
use fx_rs.Monitor.Machine.{
  observe, timer_decision, note_output, pause, resume, bump_generation, degrade_for_raw_gap,
  note_notification, feed_output, count_check, reschedule_check, reschedule_quiet, record_match,
  check_condition,
}
use fx_rs.Monitor.Machine.Calls.{
  Call, apply, run, run-validate, observes, timer, feeds, pauses, degrades, bumps, resumes,
  notified,
}

-- The state `matched` records a match.
abbrev IsCoherent : Monitor → Type 0
IsCoherent m = m.runtime.state ≡ MonitorState.matched → m.runtime.condition_matched ≡ true

count_check-IsCoherent : (m : Monitor) → IsCoherent m → IsCoherent (count_check m).1
unfolding count_check
count_check-IsCoherent m h = ground arith

reschedule_check-IsCoherent :
    (o : Observation) (now_ms : ℤ) (m : Monitor)
    → IsCoherent m
    → IsCoherent (reschedule_check o now_ms m).1
unfolding reschedule_check
reschedule_check-IsCoherent o now_ms m h = ground arith

reschedule_quiet-IsCoherent :
    (o : Observation) (now_ms : ℤ) (m : Monitor)
    → IsCoherent m
    → IsCoherent (reschedule_quiet o now_ms m).1
unfolding reschedule_quiet
reschedule_quiet-IsCoherent o now_ms m h = ground arith

record_match-IsCoherent : (b : Bool) (m : Monitor) → IsCoherent m → IsCoherent (record_match b m).1
unfolding record_match
record_match-IsCoherent b m h = ground arith

check_condition-Keeps :
    (o : Observation) (b : Bool) (now_ms : ℤ) → Keeps IsCoherent (check_condition o b now_ms)
unfolding check_condition
check_condition-Keeps o b now_ms =
    Keeps-bind count_check _ (record { from = count_check-IsCoherent })
      λ _.
        Keeps-bind (reschedule_check o now_ms) _
          (record { from = reschedule_check-IsCoherent o now_ms })
          λ _.
            Keeps-bind (reschedule_quiet o now_ms) _
              (record { from = reschedule_quiet-IsCoherent o now_ms })
              λ _. record { from = record_match-IsCoherent b }

apply-IsCoherent : (c : Call) (m : Monitor) → IsCoherent m → IsCoherent (apply c m).1
unfolding apply
apply-IsCoherent (observes o b now_ms) m h =
    unfold observe in ground (arith, (check_condition-Keeps o b now_ms).from m h)
apply-IsCoherent (timer now_ms) m h = unfold timer_decision in ground arith
apply-IsCoherent (Call.output now_ms) m h = unfold note_output in ground arith
apply-IsCoherent (feeds bytes) m h = unfold feed_output in ground arith
apply-IsCoherent pauses m h = unfold pause in ground arith
apply-IsCoherent degrades m h = unfold degrade_for_raw_gap in ground arith
apply-IsCoherent bumps m h = unfold bump_generation in ground arith
apply-IsCoherent (resumes now_ms) m h = unfold resume in ground arith
apply-IsCoherent (notified i reason) m h = unfold note_notification in ground arith

run-IsCoherent : (cs : List Call) (m : Monitor) → IsCoherent m → IsCoherent (run cs m)
unfolding run
run-IsCoherent [] m h = h
run-IsCoherent (c ∷ cs) m h = run-IsCoherent cs (apply c m).1 (apply-IsCoherent c m h)

new-IsCoherent :
    (monitor_id : Text) (d : MonitorDefinition) (now_ms : ℤ) {m : Monitor}
    → new monitor_id d now_ms ≡ ok m
    → IsCoherent m
unfolding new
new-IsCoherent monitor_id d now_ms h = ground arith

pause-resume_state :
    (later_ms : ℤ) (m : Monitor)
    → validate m ≡ ok tt
    → IsCoherent m
    → is_suspended m.runtime.state ≡ false
    → (resume later_ms (pause m).1).1.runtime.state ≡ m.runtime.state
unfolding validate pause resume
pause-resume_state later_ms m v h s = ground arith

observe-pause :
    (o : Observation) (b : Bool) (at_ms : ℤ) (m : Monitor)
    → observe o b at_ms (pause m).1 ≡ (ok no_decision, (pause m).1)
unfolding observe pause
observe-pause o b at_ms m = ground arith

-- Take a monitor that was created and then went through any calls, and that is neither paused nor
-- degraded. Paused, it answers every observation with no decision and does not change. Resumed
-- then, it is in the state, active or matched, that it was in before the pause.
pub resume-pause :
    (monitor_id : Text) (d : MonitorDefinition) (now_ms : ℤ) (cs : List Call) {m : Monitor}
    (o : Observation) (b : Bool) (at_ms later_ms : ℤ)
    → new monitor_id d now_ms ≡ ok m
    → is_suspended (run cs m).runtime.state ≡ false
    → (observe o b at_ms (pause (run cs m)).1 ≡ (ok no_decision, (pause (run cs m)).1))
      × ((resume later_ms (pause (run cs m)).1).1.runtime.state ≡ (run cs m).runtime.state)
resume-pause monitor_id d now_ms cs {m} o b at_ms later_ms h s = (
  observe-pause o b at_ms (run cs m),
  pause-resume_state later_ms (run cs m) (run-validate monitor_id d now_ms cs h)
      (run-IsCoherent cs m (new-IsCoherent monitor_id d now_ms h)) s,
)
