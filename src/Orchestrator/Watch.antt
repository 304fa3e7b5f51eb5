-- ===== src/Orchestrator/Watch.antt =====
-- pkg/orchestrator/watch.go: running a scenario again and again, with a report of its checks over
-- sliding windows from time to time. A duration is a number of nanoseconds. A snapshot reads the
-- clock several times; here it does so once.
use Prim.Native.String.{◌++◌ as str_append}
use event_driven_tests_ai.Common.{
  ℕ, suc, ◌+◌, ◌-◌, String, List, [], ◌∷◌, if◌then◌else◌, ◌==◌, ◌&&◌, ◌||◌, not, nat_beq,
  string_comparable, Bool, true, false, Option, none, some,
}
use event_driven_tests_ai.Common.Int.{ℤ, pos, negsuc, non_positive, pos_part}
use event_driven_tests_ai.Json.{Json}
use event_driven_tests_ai.Events.{Store, Time}
use event_driven_tests_ai.Events.Window.{windowed_view}
use event_driven_tests_ai.Checks.Result.{Check, CheckResult, Outcome, evaluate_one, evaluate_all}
use event_driven_tests_ai.Report.{Report, unset, finalize}
use event_driven_tests_ai.Spec.{Step}
use event_driven_tests_ai.Orchestrator.{
  State, StepError, StepResult, passed, failed, cancelled, timed_out, other_error,
}
use event_driven_tests_ai.Orchestrator.Runner.{Library, Setup}
use event_driven_tests_ai.Orchestrator.Run.{World, run}
pub mod Snapshot
pub mod Loop

-- `WatchConfig`, without the callback that takes the reports.
pub record WatchConfig : Type 0 where
  pub loop_interval : ℤ
  pub eval_interval : ℤ
  pub default_window : ℤ

abbrev or_default : ℤ → ℕ → ℤ
or_default d n = if non_positive d then pos n else d

unfoldable pub defaults : WatchConfig → WatchConfig
defaults c = record {
  loop_interval = or_default c.loop_interval 1000000000;
  eval_interval = or_default c.eval_interval 30000000000;
  default_window = or_default c.default_window 300000000000;
}

abbrev pub same_duration : ℤ → ℤ → Bool
same_duration (pos m) (pos n) = nat_beq m n
same_duration (negsuc m) (negsuc n) = nat_beq m n
same_duration _ _ = false

-- `now.Add(-d)`. A time before Go's zero time is read as that one: no event is earlier than either.
abbrev pub earlier : Time → ℤ → Time
earlier now (pos n) = now - n
earlier now (negsuc n) = now + suc n

-- `new_evaluator` compiles and runs expressions over a store, or fails to be set up;
-- `parse_duration` is `time.ParseDuration`.
module _ {P V : Type 0} (new_evaluator : Store P → Option (String → Outcome V))
    (parse_duration : String → Option ℤ) where
  abbrev pub view : Store P → Time → ℤ → Store P
  view store now d = windowed_view store (earlier now d)

  abbrev again : Option (String → Outcome V) → Time → Check → CheckResult V → CheckResult V
  again none now c r = r
  again (some ev) now c r = evaluate_one ev now c

  -- The check over its own window, where that is another than the default.
  abbrev override : Store P → Time → ℤ → Option ℤ → Check → CheckResult V → CheckResult V
  override store now default none c r = r
  override store now default (some d) c r =
      if same_duration d default then r else again (new_evaluator (view store now d)) now c r

  abbrev overrides : Store P → Time → ℤ → List Check → List (CheckResult V) → List (CheckResult V)
  overrides store now default [] rs = rs
  overrides store now default (c ∷ cs) [] = []
  overrides store now default (c ∷ cs) (r ∷ rs) =
      override store now default (parse_duration c.window) c r ∷ overrides store now default cs rs

  abbrev snapshot_of :
      Option (String → Outcome V)
      → String
      → String
      → String
      → Store P
      → Time
      → List Check
      → WatchConfig
      → Option (Report V)
  snapshot_of none name run_id fresh store now cs cfg = none
  snapshot_of (some ev) name run_id fresh store now cs cfg = some (
      finalize now (record {
        scenario = name;
        run_id = if run_id == "" then str_append "w-" fresh else run_id;
        mode = "watch";
        started_at = earlier now cfg.eval_interval;
        finished_at = 0;
        duration = 0;
        status = unset;
        exit_code = 0;
        checks = overrides store now cfg.default_window cs (evaluate_all ev now cs);
        event_count = store.len;
        err = "";
      }))

  -- `emitWatchSnapshot`: the report that is emitted, if there is one; `fresh` is a random id.
  unfoldable pub emit_watch_snapshot :
      String → String → String → Store P → Time → List Check → WatchConfig → Option (Report V)
  emit_watch_snapshot name run_id fresh store now cs cfg =
      snapshot_of (new_evaluator (view store now cfg.default_window)) name run_id fresh store now cs
        cfg

-- What wakes the watch up, and what the store and the clock are then.
pub data Signal (P : Type 0) : Type 0 where
  ticked : Store P → Time → Signal P
  stopped : Store P → Time → Signal P
  loop_ended : StepError → Store P → Time → Signal P

abbrev pub added : {A : Type 0} → Option A → List A → List A
added none xs = xs
added (some x) xs = x ∷ xs

abbrev pub watch_result : StepError → Option String
watch_result cancelled = none
watch_result timed_out = none
watch_result (other_error e) = some (str_append "watch: step loop terminated: " e)

-- `Watch`: the reports that are emitted, and the error, if there is one. The list of signals goes on
-- until the watch ends; `emit` is the snapshot.
module _ {P R : Type 0} (emit : Store P → Time → Option R) where
  unfoldable pub watch : List (Signal P) → List R × Option String
  watch [] = ([], none)
  watch (ticked store now ∷ signals) =
      let (reports, error) = watch signals in (added (emit store now) reports, error)
  watch (stopped store now ∷ signals) = (added (emit store now) [], none)
  watch (loop_ended e store now ∷ signals) = (added (emit store now) [], watch_result e)

-- One round of the step loop: the steps with what happens while they run, and a cancellation before
-- or after.
pub record Iteration (F : Type 0) : Type 0 where
  pub cancelled_before : Bool
  pub steps : List (Step F (Json F) × World F)
  pub cancelled_waiting : Bool

-- `runScenarioLoop`: the error of a round is left out, and only a cancellation ends the loop. The
-- list of rounds ends with a cancellation.
module _ {F : Type 0} (lib : Library F) (setup : Setup F) where
  unfoldable pub run_scenario_loop :
      List (Iteration F) → State (Json F) → StepResult × State (Json F)
  run_scenario_loop [] s = (failed cancelled, s)
  run_scenario_loop (i ∷ is) s =
      let s' = (run lib setup i.steps s).1 in
      let rest = run_scenario_loop is s' in
      if i.cancelled_before
      then (failed cancelled, s)
      else if i.cancelled_waiting
      then (failed cancelled, s')
      else rest
