-- ===== src/Monitor/Tests.antt =====
-- Runs of the monitor at concrete inputs.
use fx_rs.Base.{
  ℕ, ◌+◌, ◌*◌, ◌≤◌, ◌<◌, ◌≡◌, refl, ◌↔◌, ◌⊎◌, max, Bool, true, false, List, [], ◌∷◌, ◌++◌, none,
  some, text, ok, arith, ltb, as_bytes, is_nil, len,
}
use fx_rs.Base.Int.{pos}
use fx_rs.Monitor.Config.{
  MonitorDefinition, output_contains, path_exists, on_match, interval, duration, validate_condition,
  validate_definition, validate_notify, validate_lifetime, validate_checks, validate_monitor_id,
  requires_polling,
}
use fx_rs.Monitor.Clock.{deadline, advance_deadline}
use fx_rs.Monitor.Clock.Grid.{advance_deadline-grid}
use fx_rs.Monitor.Pattern.{
  pattern_matches, pattern_feed, no_positions, prime, feed_bytes, feed_byte, advance_from,
  epsilon_closure,
}
use fx_rs.Monitor.Pattern.Search.{Contains, pattern_matches-Contains}
use fx_rs.Monitor.Pattern.Stream.{pattern_feed-append}
use fx_rs.Monitor.State.{Monitor, MonitorState, Observation, Decision, no_decision}
use fx_rs.Monitor.Create.{new, validate, optional_deadline}
use fx_rs.Monitor.Machine.{
  observe, feed_output, timer_decision, pause, resume, next_deadline, polling_due, quiet_due,
  degrade_for_raw_gap,
}
use fx_rs.Monitor.Machine.Calls.{run, apply, run-validate, observes, pauses, feeds, degrades}
use fx_rs.Monitor.Machine.Once.{match_reports, match_reports-once}
use fx_rs.Monitor.Machine.Pausing.{resume-pause}
use fx_rs.Monitor.Machine.Wake.{wakes, next_deadline-check_due, timer_decision-early}
use fx_rs.Monitor.Machine.Host.{tick, output_step}
use fx_rs.Monitor.Machine.Host.Expiry.{host_run, serve, gap, output, tick-outlived}

abbrev glob : List ℕ
glob = as_bytes (text "a*c?")

finds_glob : pattern_matches glob true (as_bytes (text "xx abbcd")) ≡ ok true
unfolding pattern_matches pattern_feed prime feed_bytes feed_byte advance_from epsilon_closure
    as_bytes
finds_glob = refl

misses_glob : pattern_matches glob true (as_bytes (text "xx abbc")) ≡ ok false
unfolding pattern_matches pattern_feed prime feed_bytes feed_byte advance_from epsilon_closure
    as_bytes
misses_glob = refl

pattern_matches-Contains_example :
    (b : Bool) × (pattern_matches (97 ∷ 42 ∷ []) true (98 ∷ 97 ∷ []) ≡ ok b)
    × ((b ≡ true) ↔ Contains true (97 ∷ 42 ∷ []) (98 ∷ 97 ∷ []))
unfolding is_nil
pattern_matches-Contains_example =
    pattern_matches-Contains true (97 ∷ 42 ∷ []) (98 ∷ 97 ∷ []) refl (omega arith)

pattern_feed-append_example :
    pattern_feed (97 ∷ 98 ∷ []) false no_positions ((97 ∷ []) ++ 98 ∷ [])
    ≡ pattern_feed
        (97 ∷ 98 ∷ [])
        false
        (pattern_feed (97 ∷ 98 ∷ []) false no_positions (97 ∷ [])).1
        (98 ∷ [])
unfolding is_nil pattern_feed prime feed_bytes feed_byte advance_from epsilon_closure
pattern_feed-append_example =
    pattern_feed-append false (97 ∷ 98 ∷ []) no_positions (97 ∷ []) (98 ∷ []) refl (omega arith)
      refl refl

abbrev wait_ok : MonitorDefinition
wait_ok = record {
  condition = output_contains (text "ok");
  check_interval_ms = none;
  notify = on_match;
  lifetime = duration 5_000;
}

abbrev watch : Monitor
watch = record {
  monitor_id = text "monitor-1";
  definition = wait_ok;
  runtime = record {
    state = MonitorState.active;
    generation = 1;
    created_at_ms = pos 1_000;
    lifetime_deadline_ms = some (pos 6_000);
    next_check_ms = none;
    next_notification_ms = none;
    check_count = 0;
    notification_count = 0;
    last_event_id = 0;
    last_event_reason = none;
    condition_matched = false;
    path_baseline = none;
    probe_cwd_fingerprint = none;
    matcher_states = no_positions;
  };
}

watch_created : new (text "monitor-1") wait_ok (pos 1_000) ≡ ok watch
unfolding new validate_definition validate_condition validate_notify validate_lifetime
    validate_checks requires_polling validate_monitor_id optional_deadline deadline len
watch_created = refl

run-validate_example :
    validate (run (observes Observation.output true (pos 2_000) ∷ pauses ∷ degrades ∷ []) watch)
    ≡ ok tt
run-validate_example =
    run-validate (text "monitor-1") wait_ok (pos 1_000)
      (observes Observation.output true (pos 2_000) ∷ pauses ∷ degrades ∷ []) watch_created

match_reports-once_example :
    match_reports
      (observes Observation.output true (pos 2_000)
        ∷ observes Observation.output true (pos 3_000)
        ∷ [])
      watch
    ≤ 1
match_reports-once_example =
    match_reports-once
      (observes Observation.output true (pos 2_000)
        ∷ observes Observation.output true (pos 3_000)
        ∷ [])
      watch

resume-pause_example :
    (observe Observation.output true (pos 2_500) (pause (run (feeds (111 ∷ []) ∷ []) watch)).1
      ≡ (ok no_decision, (pause (run (feeds (111 ∷ []) ∷ []) watch)).1))
    × ((resume (pos 3_000) (pause (run (feeds (111 ∷ []) ∷ []) watch)).1).1.runtime.state
        ≡ (run (feeds (111 ∷ []) ∷ []) watch).runtime.state)
unfolding run apply feed_output
resume-pause_example =
    resume-pause (text "monitor-1") wait_ok (pos 1_000) (feeds (111 ∷ []) ∷ []) Observation.output
      true (pos 2_500) (pos 3_000) watch_created refl

abbrev poller : Monitor
poller = record watch {
  definition = record wait_ok {
    condition = path_exists (text "/tmp/x");
    check_interval_ms = some 500;
    notify = interval 700;
  };
  runtime = record watch.runtime {
    next_check_ms = some (pos 1_500);
    next_notification_ms = some (pos 1_700);
  };
}

next_deadline-check_due_example : wakes poller (pos 1_600) ≡ true
unfolding polling_due quiet_due
next_deadline-check_due_example = next_deadline-check_due poller (pos 1_600) refl

timer_decision-early_example :
    (no_decision ≡ no_decision) × ((timer_decision (pos 1_400) poller).1 ≡ poller)
unfolding next_deadline timer_decision
timer_decision-early_example = timer_decision-early poller (pos 1_400) refl refl

advance_deadline-grid_example :
    (r k : ℕ) × (advance_deadline (pos 1_500) 500 (pos 2_700) ≡ ok (pos r))
    × (2_700 < r)
    × (r ≡ 1_500 + k * 500)
    × (r ≤ max 1_500 (2_700 + 500))
    × ((ltb 2_700 1_500 ≡ false) ⊎ (r ≡ 1_500))
advance_deadline-grid_example =
    advance_deadline-grid 1_500 500 2_700 (omega arith) (omega arith) (omega arith)

tick-outlived_example :
    (decision : Decision) × (tick
        (pos 7_000)
        (host_run (gap ∷ output (111 ∷ []) none (pos 2_000) ∷ []) watch)
      ≡ (ok decision, host_run (gap ∷ output (111 ∷ []) none (pos 2_000) ∷ []) watch))
    × (decision.remove ≡ true)
unfolding host_run serve output_step degrade_for_raw_gap
tick-outlived_example =
    tick-outlived (text "monitor-1") wait_ok (pos 1_000)
      (gap ∷ output (111 ∷ []) none (pos 2_000) ∷ []) (pos 7_000) watch_created refl refl
