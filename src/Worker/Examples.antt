-- ===== src/Worker/Examples.antt =====
-- The loop run for one scenario and two slots.
use event_driven_tests_ai.Common.{
  ◌≤◌, [], ◌∷◌, ◌≡◌, refl, arith, true, false, some, nat_comparable, string_comparable,
}
use event_driven_tests_ai.Common.Dict.{lookup, insert}
use event_driven_tests_ai.Worker.{Loop, observe, dispatch, is_dispatched}
use event_driven_tests_ai.Worker.Reach.{Reach, nothing, later, assignment}
use event_driven_tests_ai.Worker.Invariant.{count_running, count_running-Reach}
use event_driven_tests_ai.Worker.Redispatch.{both_run, Reach-both_run}

Reach-both_run_example :
    Reach 16 (both_run "s")
    × (lookup 1 (both_run "s").tasks
        ≡ some (record { scenario = "s"; running = true; cancelled = false }))
    × (lookup 2 (both_run "s").tasks
        ≡ some (record { scenario = "s"; running = true; cancelled = false }))
    × ((both_run "s").dispatched ≡ ("s", 2) ∷ [])
Reach-both_run_example = Reach-both_run "s" 16 (omega arith)

count_running-Reach_example : count_running (both_run "s").tasks ≤ 16
count_running-Reach_example =
    count_running-Reach 16 (both_run "s") (Reach-both_run "s" 16 (omega arith)).0

abbrev one : Loop
one = record {
  dispatched = ("s", 0) ∷ [];
  tasks = (0, record { scenario = "s"; running = false; cancelled = false }) ∷ [];
  next = 1;
  used = 0;
}

Reach-one : Reach 16 one
unfolding observe dispatch is_dispatched lookup insert
Reach-one = later nothing (assignment true "s")

entry : lookup "s" one.dispatched ≡ some 0
unfolding lookup
entry = refl
