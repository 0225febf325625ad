-- ===== src/Monitor/Machine.antt =====
-- The operations of a monitor (crates/fx-process/src/monitor.rs, lines 337 to 553 and 576 to 589). A
-- method on `&mut self` is an action: what it wrote before an error stays written.
pub mod Validity
pub mod Calls
pub mod Once
pub mod Pausing
pub mod Wake
pub mod Host
use fx_rs.Base.{
  ℕ, ◌%◌, Bool, true, false, not, ◌&&◌, ◌||◌, Option, none, some, List, Result, ok, err, leb, ltb,
  ◌==◌, if◌then◌else◌, is_some_and, unwrap_or, checked_add, as_bytes, is_multiple_of,
}
use fx_rs.Base.Int.{ℤ, pos, ltb_ℤ, leb_ℤ}
use fx_rs.Base.Exec.{Exec, pure, lift, get, put, ◌>>=◌, ◌>>◌}
use fx_rs.Monitor.Config.{
  MonitorError, MonitorCondition, NotifySchedule, invalid_clock, invalid_state, counter_overflow,
  invalid_event_id, output_contains, output_matches, output_quiet, on_match, on_state_change,
  on_exit, every_check, every_n_checks, requires_polling, is_gap_sensitive,
}
use fx_rs.Monitor.Clock.{deadline, advance_deadline, earlier}
use fx_rs.Monitor.Pattern.{no_positions, pattern_feed}
use fx_rs.Monitor.State.{
  MonitorState, EventReason, Observation, Monitor, MonitorRuntime, Decision, no_decision, Method,
  is_suspended, is_paused, is_degraded, is_quiet_condition, is_until_match,
}

-- `self.runtime.next_check_ms = Some(e?)`.
abbrev pub set_next_check : Result MonitorError ℤ → Method (Unit {0})
set_next_check (ok at) m =
    (ok tt, record m { runtime = record m.runtime { next_check_ms = some at } })
set_next_check (err e) m = (err e, m)

-- `self.runtime.next_notification_ms = Some(e?)`.
abbrev pub set_next_notification : Result MonitorError ℤ → Method (Unit {0})
set_next_notification (ok at) m =
    (ok tt, record m { runtime = record m.runtime { next_notification_ms = some at } })
set_next_notification (err e) m = (err e, m)

expired : Monitor → ℤ → Result MonitorError Bool
expired m now_ms =
    if ltb_ℤ now_ms (pos 0)
    then err invalid_clock
    else ok (is_some_and m.runtime.lifetime_deadline_ms (λ at. leb_ℤ at now_ms))

abbrev is_on_state_change : NotifySchedule → Bool
is_on_state_change on_state_change = true
is_on_state_change _ = false

state_notification : NotifySchedule → EventReason → Option EventReason
state_notification schedule reason = if is_on_state_change schedule then some reason else none

exit_notification : NotifySchedule → Option EventReason
unfolding state_notification
exit_notification on_exit = some EventReason.session_exit
exit_notification schedule = state_notification schedule EventReason.session_exit

match_notification : NotifySchedule → Bool → ℕ → Option EventReason
match_notification on_match newly_matched check_count =
    if newly_matched then some EventReason.matched else none
match_notification on_state_change newly_matched check_count =
    if newly_matched then some EventReason.state_changed else none
match_notification every_check newly_matched check_count = some EventReason.check
match_notification (every_n_checks count) newly_matched check_count =
    if is_multiple_of check_count count then some EventReason.check else none
match_notification _ newly_matched check_count = none

abbrev ending : Option EventReason → Decision
ending notify = record { notify = notify; remove = true; state_changed = true }

count_check : Method (Unit {0})
count_check m = elim (checked_add m.runtime.check_count 1) [
  | none ↦ (err counter_overflow, m)
  | some n ↦ (ok tt, record m { runtime = record m.runtime { check_count = n } })
]

reschedule_check : Observation → ℤ → Method (Unit {0})
reschedule_check Observation.check now_ms m = elim m.definition.check_interval_ms [
  | none ↦ (ok tt, m)
  | some every ↦
      set_next_check (advance_deadline (unwrap_or m.runtime.next_check_ms now_ms) every now_ms) m
]
reschedule_check _ now_ms m = (ok tt, m)

-- The `if let OutputQuiet { duration_ms } = ...` of three methods.
restart_quiet : ℤ → MonitorCondition → Method (Unit {0})
restart_quiet now_ms (output_quiet duration_ms) m = set_next_check (deadline now_ms duration_ms) m
restart_quiet now_ms _ m = (ok tt, m)

reschedule_quiet : Observation → ℤ → Method (Unit {0})
unfolding restart_quiet
reschedule_quiet Observation.quiet now_ms m = restart_quiet now_ms m.definition.condition m
reschedule_quiet _ now_ms m = (ok tt, m)

abbrev newly : Bool → Monitor → Bool
newly condition_matches m = condition_matches && not m.runtime.condition_matched

record_match : Bool → Method Decision
unfolding match_notification
record_match condition_matches m = (
  ok (record {
    notify =
        match_notification m.definition.notify (newly condition_matches m) m.runtime.check_count;
    remove = newly condition_matches m && is_until_match m.definition.lifetime;
    state_changed = newly condition_matches m;
  }),
  if newly condition_matches m
      then record m {
        runtime = record m.runtime { condition_matched = true; state = MonitorState.matched };
      }
      else m,
)

-- `observe`, past its early returns.
unfoldable pub check_condition : Observation → Bool → ℤ → Method Decision
unfolding count_check reschedule_check reschedule_quiet record_match
check_condition observation condition_matches now_ms = do
  count_check
  reschedule_check observation now_ms
  reschedule_quiet observation now_ms
  record_match condition_matches

abbrev is_session_exit : Observation → Bool
is_session_exit Observation.session_exit = true
is_session_exit _ = false

unfoldable pub observe : Observation → Bool → ℤ → Method Decision
unfolding expired state_notification exit_notification
observe observation condition_matches now_ms = do
  m ← get
  if is_suspended m.runtime.state then pure no_decision else do
    gone ← lift (expired m now_ms)
    if gone
        then pure (ending (state_notification m.definition.notify EventReason.expired))
        else if is_session_exit observation
        then pure (ending (exit_notification m.definition.notify))
        else check_condition observation condition_matches now_ms

notify_interval : ℤ → NotifySchedule → Method Decision
notify_interval now_ms (NotifySchedule.interval interval_ms) m =
    elim m.runtime.next_notification_ms [
      | none ↦ (err invalid_state, m)
      | some due ↦
          if ltb_ℤ now_ms due
          then (ok no_decision, m)
          else (do
            set_next_notification (advance_deadline due interval_ms now_ms)
            pure (record no_decision { notify = some EventReason.interval }))
              m
    ]
notify_interval now_ms _ m = (ok no_decision, m)

unfoldable pub timer_decision : ℤ → Method Decision
unfolding expired state_notification notify_interval
timer_decision now_ms = do
  m ← get
  gone ← lift (expired m now_ms)
  if gone
      then pure (ending (state_notification m.definition.notify EventReason.expired))
      else if is_suspended m.runtime.state
      then pure no_decision
      else notify_interval now_ms m.definition.notify

unfoldable pub note_output : ℤ → Method (Unit {0})
unfolding restart_quiet
note_output now_ms = do m ← get; restart_quiet now_ms m.definition.condition

unfoldable pub quiet_due : Monitor → ℤ → Bool
quiet_due m now_ms =
    not (is_paused m.runtime.state)
    && is_quiet_condition m.definition.condition
    && is_some_and m.runtime.next_check_ms (λ due. leb_ℤ due now_ms)

unfoldable pub polling_due : Monitor → ℤ → Bool
unfolding requires_polling
polling_due m now_ms =
    not (is_suspended m.runtime.state)
    && requires_polling m.definition.condition
    && is_some_and m.runtime.next_check_ms (λ due. leb_ℤ due now_ms)

unfoldable pub next_deadline : Monitor → Option ℤ
unfolding earlier
next_deadline m =
    if is_suspended m.runtime.state
    then m.runtime.lifetime_deadline_ms
    else earlier (earlier m.runtime.lifetime_deadline_ms m.runtime.next_check_ms)
        m.runtime.next_notification_ms

unfoldable pub pause : Method Bool
pause m =
    if is_suspended m.runtime.state
    then (ok false, m)
    else (ok true, record m { runtime = record m.runtime { state = MonitorState.paused } })

restart_checks : ℤ → Option ℕ → Method (Unit {0})
unfolding restart_quiet
restart_checks now_ms (some every) m = set_next_check (deadline now_ms every) m
restart_checks now_ms none m = restart_quiet now_ms m.definition.condition m

restart_notifications : ℤ → NotifySchedule → Method (Unit {0})
restart_notifications now_ms (NotifySchedule.interval interval_ms) m =
    set_next_notification (deadline now_ms interval_ms) m
restart_notifications now_ms _ m = (ok tt, m)

abbrev resumed_state : Bool → MonitorState
resumed_state condition_matched =
    if condition_matched then MonitorState.matched else MonitorState.active

unfoldable pub resume : ℤ → Method Bool
unfolding restart_checks restart_notifications
resume now_ms = do
  m ← get
  if not (is_paused m.runtime.state) then pure false else do
    put (record m {
      runtime = record m.runtime { state = resumed_state m.runtime.condition_matched };
    })
    restart_checks now_ms m.definition.check_interval_ms
    restart_notifications now_ms m.definition.notify
    pure true

unfoldable pub bump_generation : Method (Unit {0})
bump_generation m = elim (checked_add m.runtime.generation 1) [
  | none ↦ (err counter_overflow, m)
  | some n ↦ (ok tt, record m { runtime = record m.runtime { generation = n } })
]

unfoldable pub degrade_for_raw_gap : Method Bool
unfolding bump_generation is_gap_sensitive
degrade_for_raw_gap = do
  m ← get
  if not (is_gap_sensitive m.definition.condition) || is_degraded m.runtime.state
      then pure false
      else do
        put (record m {
          runtime = record m.runtime {
            state = MonitorState.degraded;
            matcher_states = no_positions;
            next_check_ms = none;
            next_notification_ms = none;
          };
        })
        bump_generation
        pure true

count_notification : Method (Unit {0})
count_notification m = elim (checked_add m.runtime.notification_count 1) [
  | none ↦ (err counter_overflow, m)
  | some n ↦ (ok tt, record m { runtime = record m.runtime { notification_count = n } })
]

unfoldable pub note_notification : ℕ → EventReason → Method (Unit {0})
unfolding count_notification
note_notification event_id reason = do
  m ← get
  if event_id == 0 || leb event_id m.runtime.last_event_id then lift (err invalid_event_id) else do
    put (record m {
      runtime = record m.runtime { last_event_id = event_id; last_event_reason = some reason };
    })
    count_notification

feed_pattern : List ℕ → Bool → List ℕ → Method Bool
feed_pattern pattern wildcard bytes m =
    let (r, states) = pattern_feed pattern wildcard m.runtime.matcher_states bytes in
    (r, record m { runtime = record m.runtime { matcher_states = states } })

feed_condition : List ℕ → MonitorCondition → Method Bool
unfolding feed_pattern
feed_condition bytes (output_contains pattern) = feed_pattern (as_bytes pattern) false bytes
feed_condition bytes (output_matches pattern) = feed_pattern (as_bytes pattern) true bytes
feed_condition bytes _ = pure false

unfoldable pub feed_output : List ℕ → Method Bool
unfolding feed_condition
feed_output bytes = do m ← get; feed_condition bytes m.definition.condition
