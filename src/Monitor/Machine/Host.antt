-- ===== src/Monitor/Machine/Host.antt =====
-- What the monitor host does to one monitor in a round (crates/fx-process/src/terminal_monitor_store.rs,
-- lines 490 to 610 and 778 to 817): a gap in the output, new output, the tick that chooses between a quiet check and
-- the timer, and a poll. What a poll reads of its surroundings is an argument.
pub mod Expiry
use fx_rs.Base.{
  ℕ, ◌≡◌, refl, Bool, true, false, not, ◌&&◌, List, [], ◌∷◌, Option, none, some, Text, Result, ok,
  err, arith, ltb, leb, ◌==◌, text_eq, if◌then◌else◌, as_bytes, is_some_and,
}
use fx_rs.Base.Exec.{Exec, pure, get, ◌>>=◌, ◌>>◌}
use fx_rs.Base.Int.{ℤ, pos, leb_ℤ, ltb_ℤ}
use fx_rs.Base.Keeps.{Keeps, Keeps-bind}
use fx_rs.Monitor.Config.{
  MonitorError, MonitorCondition, output_quiet, output_contains, output_matches, screen_matches,
  tcp_ready, http_ready, path_exists, path_changed, path_size, custom_probe,
}
use fx_rs.Monitor.Pattern.{pattern_matches}
use fx_rs.Monitor.State.{
  Monitor, MonitorRuntime, PathBaseline, MonitorState, EventReason, Decision, Method, Observation,
  is_suspended, is_degraded,
}
use fx_rs.Monitor.Machine.{
  observe, timer_decision, quiet_due, polling_due, note_output, feed_output, pause, resume,
  degrade_for_raw_gap, note_notification, check_condition, count_check, reschedule_check,
  reschedule_quiet, record_match,
}

-- `unwrap_or(false)`.
abbrev or_false : Result MonitorError Bool → Bool
or_false (ok b) = b
or_false (err e) = false

decide : Observation → Bool → ℤ → Method (Option Decision)
decide o matched now_ms = do d ← observe o matched now_ms; pure (some d)

output_condition : List ℕ → Option Text → ℤ → MonitorCondition → Method (Option Decision)
unfolding decide
output_condition output screen now_ms (output_quiet duration_ms) = do note_output now_ms; pure none
output_condition output screen now_ms (output_contains pattern) = do
  matched ← feed_output output
  decide Observation.output matched now_ms
output_condition output screen now_ms (output_matches pattern) = do
  matched ← feed_output output
  decide Observation.output matched now_ms
output_condition output screen now_ms (screen_matches pattern) =
    decide Observation.screen
      (is_some_and screen (λ s. or_false (pattern_matches (as_bytes pattern) true (as_bytes s))))
      now_ms
output_condition output screen now_ms _ = pure none

-- The loop body for new output.
unfoldable pub output_step : List ℕ → Option Text → ℤ → Method (Option Decision)
unfolding output_condition
output_step output screen now_ms m =
    if is_suspended m.runtime.state
    then (ok none, m)
    else output_condition output screen now_ms m.definition.condition m

unfoldable pub tick : ℤ → Method Decision
tick now_ms m =
    if quiet_due m now_ms then observe Observation.quiet true now_ms m else timer_decision now_ms m

-- What a poll reads of the network, the file system and the processes: a path is resolved in the
-- workspace and looked at, and a directory is resolved to its fingerprint, or that fails.
pub record Probes : Type 0 where
  pub tcp_answers : Text → ℕ → Bool
  pub http_answers : Text → Bool
  pub look_at : Text → Option PathBaseline
  pub fingerprint : Text → Option (List ℕ)
  pub run_custom_probe : Text → Text → Bool

abbrev bool_eq : Bool → Bool → Bool
bool_eq true b = b
bool_eq false b = not b

abbrev baseline_eq : PathBaseline → PathBaseline → Bool
baseline_eq a b =
    bool_eq a.exists b.exists
    && (a.size == b.size
        && (leb_ℤ a.modified_ns b.modified_ns && leb_ℤ b.modified_ns a.modified_ns))

abbrev is_fingerprint : Option (List ℕ) → List ℕ → Bool
is_fingerprint none found = false
is_fingerprint (some expected) found = text_eq expected found

unfoldable pub poll_condition : Probes → MonitorCondition → Monitor → Bool × Monitor
poll_condition probes (tcp_ready host port) m = (probes.tcp_answers host port, m)
poll_condition probes (http_ready pattern) m = (probes.http_answers pattern, m)
poll_condition probes (path_exists path) m =
    (is_some_and (probes.look_at path) (λ (b : PathBaseline). b.exists), m)
poll_condition probes (path_changed path) m = elim (probes.look_at path) [
  | none ↦ (false, m)
  | some current ↦ (
    is_some_and m.runtime.path_baseline (λ previous. not (baseline_eq previous current)),
    record m { runtime = record m.runtime { path_baseline = some current } },
  )
]
poll_condition probes (path_size path minimum_bytes) m = (
  is_some_and (probes.look_at path) (λ (b : PathBaseline). b.exists && leb minimum_bytes b.size),
  m,
)
poll_condition probes (custom_probe command cwd) m = (
  is_some_and (probes.fingerprint cwd) (λ found.
      is_fingerprint m.runtime.probe_cwd_fingerprint found && probes.run_custom_probe command cwd),
  m,
)
poll_condition probes _ m = (false, m)

-- The poll of a running session.
unfoldable pub poll_step : Probes → ℤ → Method (Option Decision)
unfolding decide
poll_step probes now_ms m =
    let (matched, polled) = poll_condition probes m.definition.condition m in
    if polling_due m now_ms then decide Observation.check matched now_ms polled else (ok none, m)
