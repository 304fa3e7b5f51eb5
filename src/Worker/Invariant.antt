-- ===== src/Worker/Invariant.antt =====
-- What holds of the worker's loop after any steps: the bound on running goroutines, and what the map
-- of dispatched scenarios says of them.
use event_driven_tests_ai.Common.{
  ℕ, ◌+◌, ◌≤◌, String, List, [], ◌∷◌, arith, if◌then◌else◌, string_comparable, nat_comparable, ◌≡◌,
  Bool, true, false, Option, none, some, Bool-cases, Option-cases, inl, inr,
}
use event_driven_tests_ai.Common.Dict.{Dict, lookup, insert, remove}
use event_driven_tests_ai.Worker.{
  Task, Loop, observe, dispatch, dropped, scenarios_of, is_dispatched, member, cancel_not_in,
  cancel_assignments_not_in, cancel_all_assignments,
}
use event_driven_tests_ai.Worker.Reach.{
  Step, assignment, prune, shutdown, start, give_up, finish, Reach, nothing, later,
}
use event_driven_tests_ai.Worker.Tracking.{Reach-IsTracked}

abbrev weight : Option Task → ℕ
weight none = 0
weight (some t) = if t.running then 1 else 0

-- How many goroutines are running.
abbrev pub count_running : Dict ℕ Task → ℕ
count_running [] = 0
count_running ((k, t) ∷ d) = weight (some t) + count_running d

count_running-insert :
    (k : ℕ) (t : Task) (d : Dict ℕ Task)
    → count_running (insert k t d) + weight (lookup k d) ≡ count_running d + weight (some t)
unfolding insert lookup
count_running-insert k t [] = omega arith
count_running-insert k t ((j, u) ∷ d) = ground (arith, count_running-insert k t d)

count_running-remove :
    (k : ℕ) (d : Dict ℕ Task) → count_running (remove k d) + weight (lookup k d) ≤ count_running d
unfolding remove lookup
count_running-remove k [] = omega arith
count_running-remove k ((j, u) ∷ d) = ground (arith, count_running-remove k d)

record IsBounded (max : ℕ) (s : Loop) : Type 0 where
  pub running : count_running s.tasks ≤ s.used
  pub slots : s.used ≤ max

-- Each step keeps the bound.
observe-IsBounded :
    (max : ℕ) (fetched : Bool) (x : String) (s : Loop)
    → IsBounded max s
    → IsBounded max (observe fetched x s)
unfolding observe dispatch
observe-IsBounded max fetched x s h = elim (Bool-cases (is_dispatched x s)) [
  | inl there ↦ rw there h
  | inr absent ↦ elim (Bool-cases fetched) [
    | inl got ↦
        rw (absent, got)
          (record {
            running = omega (
              arith,
              h.running,
              count_running-insert s.next
                  (record { scenario = x; running = false; cancelled = false }) s.tasks,
            );
            slots = h.slots;
          })
    | inr failed ↦ rw (absent, failed) h
  ]
]

dropped-IsBounded :
    (max : ℕ) (o : Option ℕ) (x : String) (s : Loop)
    → IsBounded max s
    → IsBounded max (dropped o x s)
dropped-IsBounded max none x s h = h
dropped-IsBounded max (some k) x s h = elim (Option-cases (lookup k s.tasks)) [
  | inl gone ↦ rw gone (record { running = h.running; slots = h.slots })
  | inr (t, there) ↦ rw there (record {
    running =
        ground
          (arith, h.running, there, count_running-insert k (record t { cancelled = true }) s.tasks);
    slots = h.slots;
  })
]

cancel_not_in-IsBounded :
    (max : ℕ) (wanted xs : List String) (s : Loop)
    → IsBounded max s
    → IsBounded max (cancel_not_in wanted xs s)
unfolding cancel_not_in
cancel_not_in-IsBounded max wanted [] s h = h
cancel_not_in-IsBounded max wanted (x ∷ xs) s h = elim (Bool-cases (member x wanted)) [
  | inl kept ↦ rw kept (cancel_not_in-IsBounded max wanted xs s h)
  | inr unwanted ↦ rw unwanted (
      cancel_not_in-IsBounded max wanted xs _ (dropped-IsBounded max (lookup x s.dispatched) x s h))
]

Step-IsBounded : {max : ℕ} (s t : Loop) → Step max s t → IsBounded max s → IsBounded max t
unfolding cancel_assignments_not_in cancel_all_assignments
Step-IsBounded {max} s _ (assignment fetched x) h = observe-IsBounded max fetched x s h
Step-IsBounded {max} s _ (prune wanted) h =
    cancel_not_in-IsBounded max wanted (scenarios_of s.dispatched) s h
Step-IsBounded {max} s _ shutdown h = cancel_not_in-IsBounded max [] (scenarios_of s.dispatched) s h
Step-IsBounded {max} s _ (start k t present idle free) h = record {
  running = ground (
    arith,
    h.running,
    present,
    idle,
    count_running-insert k (record t { running = true }) s.tasks,
  );
  slots = omega (arith, free);
}
Step-IsBounded {max} s _ (give_up k t present idle gone) h = record {
  running = ground (arith, h.running, count_running-remove k s.tasks);
  slots = h.slots;
}
Step-IsBounded {max} s _ (finish k t present busy) h = record {
  running = ground (arith, h.running, present, busy, count_running-remove k s.tasks);
  slots = omega (arith, h.slots);
}

Reach-IsBounded : {max : ℕ} (s : Loop) → Reach max s → IsBounded max s
Reach-IsBounded _ nothing = record { running = omega arith; slots = omega arith }
Reach-IsBounded _ (later {s} {t} r st) = Step-IsBounded s t st (Reach-IsBounded s r)

-- However the heartbeats, the cancellations and the goroutines interleave, no more handlers run at
-- one time than `MaxConcurrentRuns`.
pub count_running-Reach : (max : ℕ) (s : Loop) → Reach max s → count_running s.tasks ≤ max
count_running-Reach max s r = let h = Reach-IsBounded s r in omega (arith, h.running, h.slots)

-- However they interleave, an entry of the map of dispatched scenarios is the number of a goroutine
-- that has not ended, was started for that scenario and was not cancelled.
pub lookup-dispatched :
    {max : ℕ} (s : Loop) (x : String) (k : ℕ)
    → Reach max s
    → lookup x s.dispatched ≡ some k
    → (t : Task) × (lookup k s.tasks ≡ some t) × (t.scenario ≡ x) × (t.cancelled ≡ false)
lookup-dispatched s x k r e =
    let h = Reach-IsTracked s r in
    elim (Option-cases (lookup k s.tasks)) [
      | inl gone ↦ elim (h.alive x k e gone) [ ]
      | inr (t, there) ↦ (t, there, (h.same x k t e there).0, (h.same x k t e there).1)
    ]
