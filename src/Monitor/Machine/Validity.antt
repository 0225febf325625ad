-- ===== src/Monitor/Machine/Validity.antt =====
-- The integrity check of a monitor holds of a new one, and every operation keeps it.
use fx_rs.Base.{ℕ, ◌≡◌, Bool, List, ok, arith}
use fx_rs.Base.Int.{ℤ}
use fx_rs.Base.Keeps.{Keeps, Keeps-bind}
use fx_rs.Monitor.State.{Monitor, EventReason, Observation}
use fx_rs.Monitor.Create.{validate}
use fx_rs.Monitor.Machine.{
  observe, timer_decision, note_output, pause, resume, bump_generation, degrade_for_raw_gap,
  note_notification, feed_output, count_check, reschedule_check, reschedule_quiet, record_match,
  check_condition,
}

abbrev pub IsValid : Monitor → Type 0
IsValid m = validate m ≡ ok tt

pub pause-IsValid : (m : Monitor) → IsValid m → IsValid (pause m).1
unfolding validate pause
pause-IsValid m h = ground arith

pub resume-IsValid : (now_ms : ℤ) (m : Monitor) → IsValid m → IsValid (resume now_ms m).1
unfolding validate resume
resume-IsValid now_ms m h = ground arith

pub bump_generation-IsValid : (m : Monitor) → IsValid m → IsValid (bump_generation m).1
unfolding validate bump_generation
bump_generation-IsValid m h = ground arith

pub degrade-IsValid : (m : Monitor) → IsValid m → IsValid (degrade_for_raw_gap m).1
unfolding validate degrade_for_raw_gap
degrade-IsValid m h = ground arith

pub note_output-IsValid : (now_ms : ℤ) (m : Monitor) → IsValid m → IsValid (note_output now_ms m).1
unfolding validate note_output
note_output-IsValid now_ms m h = ground arith

pub feed_output-IsValid :
    (bytes : List ℕ) (m : Monitor) → IsValid m → IsValid (feed_output bytes m).1
unfolding validate feed_output
feed_output-IsValid bytes m h = ground arith

pub note_notification-IsValid :
    (event_id : ℕ) (reason : EventReason) (m : Monitor)
    → IsValid m
    → IsValid (note_notification event_id reason m).1
unfolding validate note_notification
note_notification-IsValid event_id reason m h = ground arith

pub timer_decision-IsValid :
    (now_ms : ℤ) (m : Monitor) → IsValid m → IsValid (timer_decision now_ms m).1
unfolding validate timer_decision
timer_decision-IsValid now_ms m h = ground arith

count_check-IsValid : (m : Monitor) → IsValid m → IsValid (count_check m).1
unfolding validate count_check
count_check-IsValid m h = ground arith

reschedule_check-IsValid :
    (o : Observation) (now_ms : ℤ) (m : Monitor)
    → IsValid m
    → IsValid (reschedule_check o now_ms m).1
unfolding validate reschedule_check
reschedule_check-IsValid o now_ms m h = ground arith

reschedule_quiet-IsValid :
    (o : Observation) (now_ms : ℤ) (m : Monitor)
    → IsValid m
    → IsValid (reschedule_quiet o now_ms m).1
unfolding validate reschedule_quiet
reschedule_quiet-IsValid o now_ms m h = ground arith

record_match-IsValid :
    (condition_matches : Bool) (m : Monitor)
    → IsValid m
    → IsValid (record_match condition_matches m).1
unfolding validate record_match
record_match-IsValid condition_matches m h = ground arith

check_condition-Keeps :
    (o : Observation) (condition_matches : Bool) (now_ms : ℤ)
    → Keeps IsValid (check_condition o condition_matches now_ms)
unfolding check_condition
check_condition-Keeps o condition_matches now_ms =
    Keeps-bind count_check _ (record { from = count_check-IsValid })
      λ _.
        Keeps-bind (reschedule_check o now_ms) _
          (record { from = reschedule_check-IsValid o now_ms })
          λ _.
            Keeps-bind (reschedule_quiet o now_ms) _
              (record { from = reschedule_quiet-IsValid o now_ms })
              λ _. record { from = record_match-IsValid condition_matches }

pub observe-IsValid :
    (o : Observation) (condition_matches : Bool) (now_ms : ℤ) (m : Monitor)
    → IsValid m
    → IsValid (observe o condition_matches now_ms m).1
unfolding observe
observe-IsValid o condition_matches now_ms m h =
    ground (arith, (check_condition-Keeps o condition_matches now_ms).from m h)
