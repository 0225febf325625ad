-- ===== src/Monitor/Machine/Calls.antt =====
-- Histories of calls on one monitor, by any of its operations in any order.
use fx_rs.Base.{ℕ, ◌≡◌, Bool, List, [], ◌∷◌, Text, Result, ok, err}
use fx_rs.Base.Int.{ℤ}
use fx_rs.Monitor.Config.{MonitorError, MonitorDefinition}
use fx_rs.Monitor.State.{Monitor, EventReason, Observation, Decision, no_decision}
use fx_rs.Monitor.Create.{new, validate}
use fx_rs.Monitor.Create.Valid.{new-validate}
use fx_rs.Monitor.Machine.{
  observe, timer_decision, note_output, pause, resume, bump_generation, degrade_for_raw_gap,
  note_notification, feed_output,
}
use fx_rs.Monitor.Machine.Validity.{
  IsValid, pause-IsValid, resume-IsValid, degrade-IsValid, note_output-IsValid, feed_output-IsValid,
  note_notification-IsValid, timer_decision-IsValid, observe-IsValid, bump_generation-IsValid,
}

pub data Call : Type 0 where
  observes : Observation → Bool → ℤ → Call
  timer : ℤ → Call
  output : ℤ → Call
  feeds : List ℕ → Call
  pauses degrades bumps : Call
  resumes : ℤ → Call
  notified : ℕ → EventReason → Call

-- The decision of a call that makes none.
silent : {A : Type 0} → Result MonitorError A → Result MonitorError Decision
silent (ok _) = ok no_decision
silent (err e) = err e

abbrev quiet :
    {A : Type 0} → Result MonitorError A × Monitor → Result MonitorError Decision × Monitor
quiet r = (silent r.0, r.1)

unfoldable pub apply : Call → Monitor → Result MonitorError Decision × Monitor
unfolding silent
apply (observes o condition_matches now_ms) m = observe o condition_matches now_ms m
apply (timer now_ms) m = timer_decision now_ms m
apply (output now_ms) m = quiet (note_output now_ms m)
apply (feeds bytes) m = quiet (feed_output bytes m)
apply pauses m = quiet (pause m)
apply degrades m = quiet (degrade_for_raw_gap m)
apply bumps m = quiet (bump_generation m)
apply (resumes now_ms) m = quiet (resume now_ms m)
apply (notified event_id reason) m = quiet (note_notification event_id reason m)

unfoldable pub run : List Call → Monitor → Monitor
run [] m = m
run (c ∷ cs) m = run cs (apply c m).1

apply-IsValid : (c : Call) (m : Monitor) → IsValid m → IsValid (apply c m).1
unfolding apply
apply-IsValid (observes o b now_ms) m h = observe-IsValid o b now_ms m h
apply-IsValid (timer now_ms) m h = timer_decision-IsValid now_ms m h
apply-IsValid (output now_ms) m h = note_output-IsValid now_ms m h
apply-IsValid (feeds bytes) m h = feed_output-IsValid bytes m h
apply-IsValid pauses m h = pause-IsValid m h
apply-IsValid degrades m h = degrade-IsValid m h
apply-IsValid bumps m h = bump_generation-IsValid m h
apply-IsValid (resumes now_ms) m h = resume-IsValid now_ms m h
apply-IsValid (notified i reason) m h = note_notification-IsValid i reason m h

run-IsValid : (cs : List Call) (m : Monitor) → IsValid m → IsValid (run cs m)
unfolding run
run-IsValid [] m h = h
run-IsValid (c ∷ cs) m h = run-IsValid cs (apply c m).1 (apply-IsValid c m h)

-- A monitor that was created, after any calls of its operations, in any order and whether they
-- succeed or fail, passes the integrity check of `validate`.
pub run-validate :
    (monitor_id : Text) (d : MonitorDefinition) (now_ms : ℤ) (cs : List Call) {m : Monitor}
    → new monitor_id d now_ms ≡ ok m
    → validate (run cs m) ≡ ok tt
run-validate monitor_id d now_ms cs {m} h = run-IsValid cs m (new-validate monitor_id d now_ms h)
