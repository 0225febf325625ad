-- ===== src/Monitor/Config.antt =====
-- Monitor definitions and their validation (crates/fx-process/src/monitor.rs, lines 11 to 213,
-- 636 to 656 and 712 to 727).
use fx_rs.Base.{
  ℕ, ◌*◌, Bool, true, false, ◌&&◌, ◌||◌, not, Option, none, some, Text, Result, ok, err, ◌>>◌,
  refuse_if, leb, ltb, ◌==◌, len, any, is_nil,
}
use fx_rs.Base.Int.{ℤ}

pub data MonitorError : Type 0 where
  invalid_condition invalid_lifetime invalid_schedule missing_check_schedule : MonitorError
  unexpected_check_schedule invalid_monitor invalid_state invalid_clock : MonitorError
  invalid_pattern invalid_event_id counter_overflow deadline_overflow id_exhausted : MonitorError

abbrev pub minimum_schedule_ms : ℕ
minimum_schedule_ms = 10

abbrev pub maximum_schedule_ms : ℕ
maximum_schedule_ms = 24 * 60 * 60 * 1_000

abbrev pub maximum_lifetime_ms : ℕ
maximum_lifetime_ms = 365 * 24 * 60 * 60 * 1_000

abbrev pub maximum_pattern_bytes : ℕ
maximum_pattern_bytes = 256

abbrev pub maximum_monitor_id_bytes : ℕ
maximum_monitor_id_bytes = 128

abbrev pub maximum_authority_text_bytes : ℕ
maximum_authority_text_bytes = 4_096

abbrev pub maximum_command_bytes : ℕ
maximum_command_bytes = 64 * 1_024

pub data MonitorSignal : Type 0 where
  hangup interrupt quit terminate kill : MonitorSignal

pub data MonitorCondition : Type 0 where
  process_exit : MonitorCondition
  exit_code : ℤ → MonitorCondition
  signal : MonitorSignal → MonitorCondition
  output_contains : Text → MonitorCondition
  output_matches : Text → MonitorCondition
  output_quiet : ℕ → MonitorCondition
  screen_matches : Text → MonitorCondition
  tcp_ready : Text → ℕ → MonitorCondition
  http_ready : Text → MonitorCondition
  path_exists : Text → MonitorCondition
  path_changed : Text → MonitorCondition
  path_size : Text → ℕ → MonitorCondition
  custom_probe : Text → Text → MonitorCondition

unfoldable pub requires_polling : MonitorCondition → Bool
requires_polling (tcp_ready host port) = true
requires_polling (http_ready pattern) = true
requires_polling (path_exists path) = true
requires_polling (path_changed path) = true
requires_polling (path_size path minimum_bytes) = true
requires_polling (custom_probe command cwd) = true
requires_polling _ = false

unfoldable pub is_gap_sensitive : MonitorCondition → Bool
is_gap_sensitive (output_contains pattern) = true
is_gap_sensitive (output_matches pattern) = true
is_gap_sensitive (output_quiet duration_ms) = true
is_gap_sensitive (screen_matches pattern) = true
is_gap_sensitive _ = false

unfoldable pub valid_text : Text → ℕ → MonitorError → Result MonitorError (Unit {0})
unfolding is_nil
valid_text value maximum error =
    refuse_if (is_nil value || ltb maximum (len value) || any (λ c. c == 0) value) error

unfoldable pub validate_schedule : ℕ → Result MonitorError (Unit {0})
validate_schedule interval_ms =
    refuse_if (not (leb minimum_schedule_ms interval_ms && leb interval_ms maximum_schedule_ms))
      invalid_schedule

unfoldable pub validate_monitor_id : Text → Result MonitorError (Unit {0})
unfolding valid_text
validate_monitor_id value = valid_text value maximum_monitor_id_bytes invalid_monitor

-- `map_err(|_| e)`.
abbrev replace_err : {A : Type 0} → Result MonitorError A → MonitorError → Result MonitorError A
replace_err (ok a) e = ok a
replace_err (err _) e = err e

unfoldable pub validate_condition : MonitorCondition → Result MonitorError (Unit {0})
unfolding valid_text validate_schedule
validate_condition process_exit = ok tt
validate_condition (exit_code n) = ok tt
validate_condition (signal s) = ok tt
validate_condition (output_contains pattern) =
    valid_text pattern maximum_pattern_bytes invalid_condition
validate_condition (output_matches pattern) =
    valid_text pattern maximum_pattern_bytes invalid_condition
validate_condition (screen_matches pattern) =
    valid_text pattern maximum_pattern_bytes invalid_condition
validate_condition (output_quiet duration_ms) =
    replace_err (validate_schedule duration_ms) invalid_condition
validate_condition (tcp_ready host port) = do
  valid_text host maximum_authority_text_bytes invalid_condition
  refuse_if (port == 0) invalid_condition
validate_condition (http_ready pattern) =
    valid_text pattern maximum_authority_text_bytes invalid_condition
validate_condition (path_exists path) =
    valid_text path maximum_authority_text_bytes invalid_condition
validate_condition (path_changed path) =
    valid_text path maximum_authority_text_bytes invalid_condition
validate_condition (path_size path minimum_bytes) =
    valid_text path maximum_authority_text_bytes invalid_condition
validate_condition (custom_probe command cwd) = do
  valid_text command maximum_command_bytes invalid_condition
  valid_text cwd maximum_authority_text_bytes invalid_condition

pub data NotifySchedule : Type 0 where
  on_match on_state_change on_exit every_check : NotifySchedule
  every_n_checks : ℕ → NotifySchedule
  interval : ℕ → NotifySchedule

pub data MonitorLifetime : Type 0 where
  until_match until_session_end : MonitorLifetime
  duration : ℕ → MonitorLifetime

pub record MonitorDefinition : Type 0 where
  pub condition : MonitorCondition
  pub check_interval_ms : Option ℕ
  pub notify : NotifySchedule
  pub lifetime : MonitorLifetime

unfoldable pub validate_notify : NotifySchedule → Result MonitorError (Unit {0})
unfolding validate_schedule
validate_notify (every_n_checks count) =
    refuse_if (count == 0 || ltb 1_000_000 count) invalid_schedule
validate_notify (interval interval_ms) = validate_schedule interval_ms
validate_notify _ = ok tt

unfoldable pub validate_lifetime : MonitorLifetime → Result MonitorError (Unit {0})
validate_lifetime (duration duration_ms) =
    refuse_if (duration_ms == 0 || ltb maximum_lifetime_ms duration_ms) invalid_lifetime
validate_lifetime _ = ok tt

unfoldable pub validate_checks : Bool → Option ℕ → Result MonitorError (Unit {0})
unfolding validate_schedule
validate_checks true (some every) = validate_schedule every
validate_checks true none = err missing_check_schedule
validate_checks false (some every) = err unexpected_check_schedule
validate_checks false none = ok tt

unfoldable pub validate_definition : MonitorDefinition → Result MonitorError (Unit {0})
validate_definition d = do
  validate_condition d.condition
  validate_notify d.notify
  validate_lifetime d.lifetime
  validate_checks (requires_polling d.condition) d.check_interval_ms

pub data MonitorOperation : Type 0 where
  add : MonitorDefinition → MonitorOperation
  update : Text → MonitorDefinition → MonitorOperation
  pause : Text → MonitorOperation
  resume : Text → MonitorOperation
  remove : Text → MonitorOperation

unfoldable pub validate_operation : MonitorOperation → Result MonitorError (Unit {0})
validate_operation (add definition) = validate_definition definition
validate_operation (update monitor_id definition) = do
  validate_monitor_id monitor_id
  validate_definition definition
validate_operation (pause monitor_id) = validate_monitor_id monitor_id
validate_operation (resume monitor_id) = validate_monitor_id monitor_id
validate_operation (remove monitor_id) = validate_monitor_id monitor_id
