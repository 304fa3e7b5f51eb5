-- ===== src/Worker/Redispatch.antt =====
-- A scenario that is taken away from a worker and given back while its goroutine still ends.
use mathlib.Core.Path.{subst}
use event_driven_tests_ai.Common.{
  ℕ, ◌≤◌, String, [], ◌∷◌, ◌≡◌, refl, arith, true, false, some, string_comparable, nat_comparable,
}
use event_driven_tests_ai.Common.Dict.{lookup, insert, remove, eq_refl}
use event_driven_tests_ai.Worker.{
  Task, Loop, observe, dispatch, is_dispatched, cancel_not_in, cancel_assignments_not_in, finished,
}
use event_driven_tests_ai.Worker.Reach.{assignment, prune, start, finish, Reach, nothing, later}

module _ (x : String) where
  abbrev waiting : Task
  waiting = record { scenario = x; running = false; cancelled = false }

  abbrev busy : Task
  busy = record { scenario = x; running = true; cancelled = false }

  abbrev ending : Task
  ending = record { scenario = x; running = true; cancelled = true }

  -- The first goroutine runs.
  abbrev first_runs : Loop
  first_runs = record { dispatched = (x, 0) ∷ []; tasks = (0, busy) ∷ []; next = 1; used = 1 }

  -- A heartbeat without the scenario cancels it.
  abbrev taken_away : Loop
  taken_away = record { dispatched = []; tasks = (0, ending) ∷ []; next = 1; used = 1 }

  -- The next one has the scenario again.
  abbrev given_back : Loop
  given_back = record {
    dispatched = (x, 1) ∷ [];
    tasks = (0, ending) ∷ (1, waiting) ∷ [];
    next = 2;
    used = 1;
  }

  -- The first goroutine ends, and takes the entry of the second with it.
  abbrev first_ended : Loop
  first_ended = record { dispatched = []; tasks = (1, waiting) ∷ []; next = 2; used = 0 }

  -- The next heartbeat starts a third, and both run.
  abbrev pub both_run : Loop
  both_run = record {
    dispatched = (x, 2) ∷ [];
    tasks = (1, busy) ∷ (2, busy) ∷ [];
    next = 3;
    used = 2;
  }

  cancel-first_runs : cancel_assignments_not_in [] first_runs ≡ taken_away
  unfolding cancel_assignments_not_in cancel_not_in lookup insert remove
  cancel-first_runs = rw (eq_refl x) (rw (eq_refl x) refl)

  finished-given_back : finished 0 ending given_back ≡ first_ended
  unfolding remove
  finished-given_back = rw (eq_refl x) refl

  Reach-first_runs : (max : ℕ) → 2 ≤ max → Reach max first_runs
  unfolding observe dispatch is_dispatched lookup insert
  Reach-first_runs max room =
      later (later nothing (assignment true x)) (start 0 waiting refl refl (omega (arith, room)))

  Reach-given_back : (max : ℕ) → 2 ≤ max → Reach max given_back
  unfolding observe dispatch is_dispatched lookup insert
  Reach-given_back max room =
      later
        (subst (λ s. Reach max s) cancel-first_runs (later (Reach-first_runs max room) (prune [])))
        (assignment true x)

  Reach-first_ended : (max : ℕ) → 2 ≤ max → Reach max first_ended
  unfolding lookup
  Reach-first_ended max room =
      subst (λ s. Reach max s) finished-given_back
        (later (Reach-given_back max room) (finish 0 ending refl refl))

  -- With two slots or more and for every scenario, there is an interleaving in which two goroutines
  -- run the scenario at the same time, neither of them cancelled, and only one of them is in the map: a
  -- cancelled goroutine that ends after its scenario was given back removes the entry of the new one.
  pub Reach-both_run :
      (max : ℕ)
      → 2 ≤ max
      → Reach max both_run
        × (lookup 1 both_run.tasks
            ≡ some (record { scenario = x; running = true; cancelled = false }))
        × (lookup 2 both_run.tasks
            ≡ some (record { scenario = x; running = true; cancelled = false }))
        × (both_run.dispatched ≡ (x, 2) ∷ [])
  unfolding observe dispatch is_dispatched lookup insert
  Reach-both_run max room = (
    later
        (later (later (Reach-first_ended max room) (assignment true x))
          (start 1 waiting refl refl (omega (arith, room))))
        (start 2 waiting refl refl (omega (arith, room))),
    refl,
    refl,
    refl,
  )
