-- ===== src/Monitor/Machine/Host/Expiry.antt =====
-- Under the host a monitor is removed when its lifetime has ended, degraded or not.
use fx_rs.Base.{
  ℕ, ◌≡◌, refl, Bool, true, false, ◌&&◌, List, [], ◌∷◌, Option, Text, ok, arith, is_some,
  is_some_and,
}
use fx_rs.Base.Int.{ℤ, pos, leb_ℤ, ltb_ℤ}
use fx_rs.Base.Keeps.{Keeps, Keeps-bind, Keeps-pure}
use fx_rs.Monitor.Config.{
  MonitorDefinition, MonitorCondition, output_quiet, output_contains, output_matches,
  screen_matches, path_changed,
}
use fx_rs.Monitor.State.{Monitor, EventReason, Decision, Observation, is_degraded}
use fx_rs.Monitor.Create.{new}
use fx_rs.Monitor.Machine.{
  observe, timer_decision, quiet_due, pause, resume, degrade_for_raw_gap, note_notification,
  check_condition, count_check, reschedule_check, reschedule_quiet, record_match, note_output,
  feed_output, ending, state_notification,
}
use fx_rs.Monitor.Machine.Host.{
  Probes, poll_condition, tick, output_step, poll_step, output_condition, decide,
}

pub data HostCall : Type 0 where
  gap : HostCall
  output : List ℕ → Option Text → ℤ → HostCall
  ticks : ℤ → HostCall
  polls : Probes → ℤ → HostCall
  pauses : HostCall
  resumes : ℤ → HostCall
  notified : ℕ → EventReason → HostCall

unfoldable pub serve : HostCall → Monitor → Monitor
serve gap m = (degrade_for_raw_gap m).1
serve (output bytes screen now_ms) m = (output_step bytes screen now_ms m).1
serve (ticks now_ms) m = (tick now_ms m).1
serve (polls probes now_ms) m = (poll_step probes now_ms m).1
serve pauses m = (pause m).1
serve (resumes now_ms) m = (resume now_ms m).1
serve (notified event_id reason) m = (note_notification event_id reason m).1

unfoldable pub host_run : List HostCall → Monitor → Monitor
host_run [] m = m
host_run (c ∷ cs) m = host_run cs (serve c m)

-- A degraded monitor waits for no check.
abbrev IsAtRest : Monitor → Type 0
IsAtRest m = (is_degraded m.runtime.state && is_some m.runtime.next_check_ms) ≡ false

abbrev IsLive : Monitor → Type 0
IsLive m = is_degraded m.runtime.state ≡ false

count_check-IsLive : (m : Monitor) → IsLive m → IsLive (count_check m).1
unfolding count_check
count_check-IsLive m h = ground arith

reschedule_check-IsLive :
    (o : Observation) (now_ms : ℤ) (m : Monitor) → IsLive m → IsLive (reschedule_check o now_ms m).1
unfolding reschedule_check
reschedule_check-IsLive o now_ms m h = ground arith

reschedule_quiet-IsLive :
    (o : Observation) (now_ms : ℤ) (m : Monitor) → IsLive m → IsLive (reschedule_quiet o now_ms m).1
unfolding reschedule_quiet
reschedule_quiet-IsLive o now_ms m h = ground arith

record_match-IsLive : (b : Bool) (m : Monitor) → IsLive m → IsLive (record_match b m).1
unfolding record_match
record_match-IsLive b m h = ground arith

check_condition-Keeps :
    (o : Observation) (b : Bool) (now_ms : ℤ) → Keeps IsLive (check_condition o b now_ms)
unfolding check_condition
check_condition-Keeps o b now_ms =
    Keeps-bind count_check _ (record { from = count_check-IsLive })
      λ _.
        Keeps-bind (reschedule_check o now_ms) _
          (record { from = reschedule_check-IsLive o now_ms })
          λ _.
            Keeps-bind (reschedule_quiet o now_ms) _
              (record { from = reschedule_quiet-IsLive o now_ms })
              λ _. record { from = record_match-IsLive b }

observe-IsLive :
    (o : Observation) (b : Bool) (now_ms : ℤ) (m : Monitor)
    → IsLive m
    → IsLive (observe o b now_ms m).1
unfolding observe
observe-IsLive o b now_ms m h = ground (arith, (check_condition-Keeps o b now_ms).from m h)

observe-IsAtRest :
    (o : Observation) (b : Bool) (now_ms : ℤ) (m : Monitor)
    → IsAtRest m
    → IsAtRest (observe o b now_ms m).1
unfolding observe
observe-IsAtRest o b now_ms m h = ground (arith, (check_condition-Keeps o b now_ms).from m)

decide-Keeps : (o : Observation) (b : Bool) (now_ms : ℤ) → Keeps IsLive (decide o b now_ms)
unfolding decide
decide-Keeps o b now_ms =
    Keeps-bind (observe o b now_ms) _ (record { from = observe-IsLive o b now_ms })
      λ d. Keeps-pure _

note_output-Keeps : (now_ms : ℤ) → Keeps IsLive (note_output now_ms)
unfolding note_output
note_output-Keeps now_ms = record { from = λ m h. ground arith }

feed_output-Keeps : (bytes : List ℕ) → Keeps IsLive (feed_output bytes)
unfolding feed_output
feed_output-Keeps bytes = record { from = λ m h. ground arith }

output_condition-Keeps :
    (bytes : List ℕ) (screen : Option Text) (now_ms : ℤ) (c : MonitorCondition)
    → Keeps IsLive (output_condition bytes screen now_ms c)
unfolding output_condition
output_condition-Keeps bytes screen now_ms (output_quiet d) =
    Keeps-bind (note_output now_ms) _ (note_output-Keeps now_ms) λ _. Keeps-pure _
output_condition-Keeps bytes screen now_ms (output_contains p) =
    Keeps-bind (feed_output bytes) _ (feed_output-Keeps bytes) λ b. decide-Keeps _ b now_ms
output_condition-Keeps bytes screen now_ms (output_matches p) =
    Keeps-bind (feed_output bytes) _ (feed_output-Keeps bytes) λ b. decide-Keeps _ b now_ms
output_condition-Keeps bytes screen now_ms (screen_matches p) = decide-Keeps _ _ now_ms
output_condition-Keeps bytes screen now_ms _ = Keeps-pure _

output_step-IsAtRest :
    (bytes : List ℕ) (screen : Option Text) (now_ms : ℤ) (m : Monitor)
    → IsAtRest m
    → IsAtRest (output_step bytes screen now_ms m).1
unfolding output_step
output_step-IsAtRest bytes screen now_ms m h =
    ground (arith, (output_condition-Keeps bytes screen now_ms m.definition.condition).from m)

poll_condition-IsAtRest :
    (probes : Probes) (c : MonitorCondition) (m : Monitor)
    → IsAtRest m
    → IsAtRest (poll_condition probes c m).1
unfolding poll_condition
poll_condition-IsAtRest probes (path_changed path) m h = ground arith
poll_condition-IsAtRest probes _ m h = h

poll_step-IsAtRest :
    (probes : Probes) (now_ms : ℤ) (m : Monitor)
    → IsAtRest m
    → IsAtRest (poll_step probes now_ms m).1
unfolding poll_step
poll_step-IsAtRest probes now_ms m h =
    let (matched, polled) = poll_condition probes m.definition.condition m in
    ground (
      arith,
      observe-IsAtRest Observation.check matched now_ms polled
          (poll_condition-IsAtRest probes m.definition.condition m h),
    )

serve-IsAtRest : (c : HostCall) (m : Monitor) → IsAtRest m → IsAtRest (serve c m)
unfolding serve
serve-IsAtRest gap m h = unfold degrade_for_raw_gap in ground arith
serve-IsAtRest (output bytes screen now_ms) m h = output_step-IsAtRest bytes screen now_ms m h
serve-IsAtRest (ticks now_ms) m h =
    unfold tick timer_decision in ground (arith, observe-IsAtRest Observation.quiet true now_ms m)
serve-IsAtRest (polls probes now_ms) m h = poll_step-IsAtRest probes now_ms m h
serve-IsAtRest pauses m h = unfold pause in ground arith
serve-IsAtRest (resumes now_ms) m h = unfold resume in ground arith
serve-IsAtRest (notified i reason) m h = unfold note_notification in ground arith

host_run-IsAtRest : (cs : List HostCall) (m : Monitor) → IsAtRest m → IsAtRest (host_run cs m)
unfolding host_run
host_run-IsAtRest [] m h = h
host_run-IsAtRest (c ∷ cs) m h = host_run-IsAtRest cs (serve c m) (serve-IsAtRest c m h)

new-IsAtRest :
    (monitor_id : Text) (d : MonitorDefinition) (now_ms : ℤ) {m : Monitor}
    → new monitor_id d now_ms ≡ ok m
    → IsAtRest m
unfolding new
new-IsAtRest monitor_id d now_ms h = ground arith

-- The lifetime of the monitor has ended at `now_ms`.
abbrev pub outlived : Monitor → ℤ → Bool
outlived m now_ms = is_some_and m.runtime.lifetime_deadline_ms (λ at. leb_ℤ at now_ms)

tick-remove :
    (m : Monitor) (now_ms : ℤ)
    → IsAtRest m
    → ltb_ℤ now_ms (pos 0) ≡ false
    → outlived m now_ms ≡ true
    → (d : Decision) × (tick now_ms m ≡ (ok d, m)) × (d.remove ≡ true)
unfolding tick observe timer_decision quiet_due
tick-remove m now_ms h c o =
    (ending (state_notification m.definition.notify EventReason.expired), ground arith, refl)

-- Take a monitor that was created and that the host then served in any way: gaps, output, ticks,
-- polls, pauses, resumes and notifications. When its lifetime has ended, at a clock that is not
-- negative, the tick succeeds and decides to remove it, also if it is degraded.
pub tick-outlived :
    (monitor_id : Text) (d : MonitorDefinition) (created_ms : ℤ) (cs : List HostCall) (now_ms : ℤ)
    {m : Monitor}
    → new monitor_id d created_ms ≡ ok m
    → ltb_ℤ now_ms (pos 0) ≡ false
    → outlived (host_run cs m) now_ms ≡ true
    → (decision : Decision) × (tick now_ms (host_run cs m) ≡ (ok decision, host_run cs m))
      × (decision.remove ≡ true)
tick-outlived monitor_id d created_ms cs now_ms {m} h c o =
    tick-remove (host_run cs m) now_ms
      (host_run-IsAtRest cs m (new-IsAtRest monitor_id d created_ms h)) c o
