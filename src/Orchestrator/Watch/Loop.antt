-- ===== src/Orchestrator/Watch/Loop.antt =====
-- What a watched scenario runs, round after round, until it is cancelled.
use event_driven_tests_ai.Common.{List, [], ◌∷◌, ◌++◌, ◌≡◌, true, false, map}
use event_driven_tests_ai.Json.{Json}
use event_driven_tests_ai.Spec.{Step}
use event_driven_tests_ai.Orchestrator.{State, failed, cancelled}
use event_driven_tests_ai.Orchestrator.Runner.{Library, Setup}
use event_driven_tests_ai.Orchestrator.Run.{World, run}
use event_driven_tests_ai.Orchestrator.Watch.{Iteration, run_scenario_loop}

module _ {F : Type 0} (lib : Library F) (setup : Setup F) where
  abbrev pub undisturbed : List (Step F (Json F) × World F) → Iteration F
  undisturbed steps = record { cancelled_before = false; steps = steps; cancelled_waiting = false }

  -- The states that rounds of steps lead through, whether each round passes or fails.
  abbrev pub after_rounds :
      List (List (Step F (Json F) × World F)) → State (Json F) → State (Json F)
  after_rounds [] s = s
  after_rounds (steps ∷ rounds) s = after_rounds rounds (run lib setup steps s).1

  -- However the rounds of a watched scenario end, a failing one does not stop the loop: each round
  -- starts from the state that the one before left, and only a cancellation ends the loop, which
  -- then ends as cancelled.
  pub run_scenario_loop-rounds :
      (rounds : List (List (Step F (Json F) × World F))) (i : Iteration F) (is : List (Iteration F))
      (s : State (Json F))
      → i.cancelled_before ≡ true
      → run_scenario_loop lib setup (map undisturbed rounds ++ i ∷ is) s
        ≡ (failed cancelled, after_rounds rounds s)
  unfolding run_scenario_loop
  run_scenario_loop-rounds [] i is s h = rw h
  run_scenario_loop-rounds (steps ∷ rounds) i is s h =
      run_scenario_loop-rounds rounds i is (run lib setup steps s).1 h
