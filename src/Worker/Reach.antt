-- ===== src/Worker/Reach.antt =====
-- The steps of the loop and of its goroutines, in any order.
use event_driven_tests_ai.Common.{
  ℕ, ◌<◌, String, List, ◌≡◌, Bool, true, false, some, nat_comparable,
}
use event_driven_tests_ai.Common.Dict.{lookup}
use event_driven_tests_ai.Worker.{
  Task, Loop, new_loop, observe, cancel_assignments_not_in, cancel_all_assignments, started,
  gave_up, finished,
}

-- `max` is `MaxConcurrentRuns`, the capacity of `slots`.
pub data Step (max : ℕ) (s : Loop) : Loop → Type 0 where
  assignment : (fetched : Bool) (x : String) → Step max s (observe fetched x s)
  prune : (wanted : List String) → Step max s (cancel_assignments_not_in wanted s)
  shutdown : Step max s (cancel_all_assignments s)
  start :
      (k : ℕ) (t : Task)
      → lookup k s.tasks ≡ some t
      → t.running ≡ false
      → s.used < max
      → Step max s (started k t s)
  give_up :
      (k : ℕ) (t : Task)
      → lookup k s.tasks ≡ some t
      → t.running ≡ false
      → t.cancelled ≡ true
      → Step max s (gave_up k t s)
  finish :
      (k : ℕ) (t : Task)
      → lookup k s.tasks ≡ some t
      → t.running ≡ true
      → Step max s (finished k t s)

pub data Reach (max : ℕ) : Loop → Type 0 where
  nothing : Reach max new_loop
  later : {s t : Loop} → Reach max s → Step max s t → Reach max t
