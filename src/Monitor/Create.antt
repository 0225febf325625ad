-- ===== src/Monitor/Create.antt =====
-- The creation and the integrity check of a monitor, and its identifiers
-- (crates/fx-process/src/monitor.rs, lines 289 to 335, 555 to 574 and 591 to 596).
pub mod Valid
use fx_rs.Base.{
  ℕ, Bool, true, false, not, ◌&&◌, ◌||◌, Option, none, some, Text, text, ◌++◌, Result, ok, err,
  ◌>>=◌, ◌>>◌, refuse_if, ltb, ◌==◌, if◌then◌else◌, is_some, is_some_and,
}
use fx_rs.Base.Int.{ℤ, pos, ltb_ℤ, leb_ℤ}
use fx_rs.Monitor.Config.{
  MonitorError, MonitorCondition, MonitorDefinition, MonitorLifetime, NotifySchedule, invalid_clock,
  invalid_state, id_exhausted, output_quiet, duration, validate_definition, validate_monitor_id,
}
use fx_rs.Monitor.Clock.{deadline}
use fx_rs.Monitor.Pattern.{no_positions}
use fx_rs.Monitor.State.{Monitor, MonitorState, is_active}

some_of : Result MonitorError ℤ → Result MonitorError (Option ℤ)
some_of (ok at) = ok (some at)
some_of (err e) = err e

-- `Some(deadline(now_ms, duration_ms)?)`, if there is a duration.
unfoldable pub optional_deadline : ℤ → Option ℕ → Result MonitorError (Option ℤ)
unfolding some_of
optional_deadline now_ms none = ok none
optional_deadline now_ms (some duration_ms) = some_of (deadline now_ms duration_ms)

abbrev pub lifetime_ms : MonitorLifetime → Option ℕ
lifetime_ms (duration duration_ms) = some duration_ms
lifetime_ms _ = none

abbrev pub first_check_ms : MonitorCondition → Option ℕ → Option ℕ
first_check_ms _ (some every) = some every
first_check_ms (output_quiet duration_ms) none = some duration_ms
first_check_ms _ none = none

abbrev pub notification_ms : NotifySchedule → Option ℕ
notification_ms (NotifySchedule.interval interval_ms) = some interval_ms
notification_ms _ = none

unfoldable pub new : Text → MonitorDefinition → ℤ → Result MonitorError Monitor
new monitor_id definition now_ms = do
  validate_definition definition
  refuse_if (ltb_ℤ now_ms (pos 0)) invalid_clock
  validate_monitor_id monitor_id
  lifetime ← optional_deadline now_ms (lifetime_ms definition.lifetime)
  next_check ←
      optional_deadline now_ms (first_check_ms definition.condition definition.check_interval_ms)
  next_notification ← optional_deadline now_ms (notification_ms definition.notify)
  ok (record {
    monitor_id = monitor_id;
    definition = definition;
    runtime = record {
      state = MonitorState.active;
      generation = 1;
      created_at_ms = now_ms;
      lifetime_deadline_ms = lifetime;
      next_check_ms = next_check;
      next_notification_ms = next_notification;
      check_count = 0;
      notification_count = 0;
      last_event_id = 0;
      last_event_reason = none;
      condition_matched = false;
      path_baseline = none;
      probe_cwd_fingerprint = none;
      matcher_states = no_positions;
    };
  })

-- `a != b` on `bool`.
abbrev differ : Bool → Bool → Bool
differ true b = not b
differ false b = b

unfoldable pub validate : Monitor → Result MonitorError (Unit {0})
validate m = do
  validate_monitor_id m.monitor_id
  validate_definition m.definition
  refuse_if
      (runtime.generation == 0
        || ltb_ℤ runtime.created_at_ms (pos 0)
        || (ltb 0 runtime.last_event_id && runtime.notification_count == 0)
        || differ (runtime.last_event_id == 0) (not (is_some runtime.last_event_reason))
        || (runtime.condition_matched && is_active runtime.state))
      invalid_state
  refuse_if (is_some_and runtime.lifetime_deadline_ms (λ at. leb_ℤ at runtime.created_at_ms))
      invalid_state
  where
    open m use {runtime}
