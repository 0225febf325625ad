-- ===== src/Monitor/State.antt =====
-- The state of a monitor (crates/fx-process/src/monitor.rs, lines 215 to 286).
use fx_rs.Base.{ℕ, Bool, true, false, Option, none, List, Text}
use fx_rs.Base.Int.{ℤ}
use fx_rs.Base.Exec.{Exec}
use fx_rs.Monitor.Config.{
  MonitorError, MonitorCondition, MonitorDefinition, MonitorLifetime, output_quiet, until_match,
}
use fx_rs.Monitor.Pattern.{Positions}

pub data MonitorState : Type 0 where
  active paused matched degraded : MonitorState

pub data EventReason : Type 0 where
  matched state_changed session_exit check interval expired removed : EventReason
  paused resumed updated : EventReason

pub data Observation : Type 0 where
  check output screen quiet exit session_exit : Observation

pub record PathBaseline : Type 0 where
  pub exists : Bool
  pub size : ℕ
  pub modified_ns : ℤ

pub record MonitorRuntime : Type 0 where
  pub state : MonitorState
  pub generation : ℕ
  pub created_at_ms : ℤ
  pub lifetime_deadline_ms : Option ℤ
  pub next_check_ms : Option ℤ
  pub next_notification_ms : Option ℤ
  pub check_count : ℕ
  pub notification_count : ℕ
  pub last_event_id : ℕ
  pub last_event_reason : Option EventReason
  pub condition_matched : Bool
  pub path_baseline : Option PathBaseline
  pub probe_cwd_fingerprint : Option (List ℕ)
  pub matcher_states : Positions

pub record Monitor : Type 0 where
  pub monitor_id : Text
  pub definition : MonitorDefinition
  pub runtime : MonitorRuntime

pub record Decision : Type 0 where
  pub notify : Option EventReason
  pub remove : Bool
  pub state_changed : Bool

abbrev pub no_decision : Decision
no_decision = record { notify = none; remove = false; state_changed = false }

abbrev pub Method : Type 0 → Type 0
Method A = Exec MonitorError Monitor A

-- `matches!(state, Paused | Degraded)`.
abbrev pub is_suspended : MonitorState → Bool
is_suspended MonitorState.paused = true
is_suspended MonitorState.degraded = true
is_suspended _ = false

abbrev pub is_paused : MonitorState → Bool
is_paused MonitorState.paused = true
is_paused _ = false

abbrev pub is_degraded : MonitorState → Bool
is_degraded MonitorState.degraded = true
is_degraded _ = false

abbrev pub is_active : MonitorState → Bool
is_active MonitorState.active = true
is_active _ = false

abbrev pub is_quiet_condition : MonitorCondition → Bool
is_quiet_condition (output_quiet duration_ms) = true
is_quiet_condition _ = false

abbrev pub is_until_match : MonitorLifetime → Bool
is_until_match until_match = true
is_until_match _ = false
