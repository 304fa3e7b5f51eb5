-- ===== src/Worker/Tracking.antt =====
-- What the map of dispatched scenarios says of the goroutines, in any state that the loop reaches.
use event_driven_tests_ai.Common.{
  ℕ, ◌-◌, ◌≤◌, String, List, [], ◌∷◌, arith, if◌then◌else◌, ◌==◌, string_comparable, nat_comparable,
  ◌≡◌, ◌≢◌, refl, Bool, true, false, none, some, Bool-cases, Option-cases, inl, inr, eq_iff,
  nat_beq_iff,
}
use event_driven_tests_ai.Common.Dict.{Dict, lookup, remove, lookup-insert, lookup-remove}
use event_driven_tests_ai.Worker.{
  Task, Loop, new_loop, observe, dispatch, dropped, scenarios_of, is_dispatched, member, cancel,
  cancel_not_in, cancel_assignments_not_in, cancel_all_assignments, started,
}
use event_driven_tests_ai.Worker.Reach.{
  Step, assignment, prune, shutdown, start, give_up, finish, Reach, nothing, later,
}

-- Each entry of the map is the number of a goroutine that is there, of that scenario, and not
-- cancelled; numbers are not used again.
pub record IsTracked (s : Loop) : Type 0 where
  pub alive : (x : String) (k : ℕ) → lookup x s.dispatched ≡ some k → lookup k s.tasks ≢ none
  pub same :
      (x : String) (k : ℕ) (t : Task)
      → lookup x s.dispatched ≡ some k
      → lookup k s.tasks ≡ some t
      → (t.scenario ≡ x) × (t.cancelled ≡ false)
  pub fresh : (k : ℕ) → s.next ≤ k → lookup k s.tasks ≡ none

lookup-cancel :
    (k j : ℕ) (t : Task) (d : Dict ℕ Task)
    → lookup k d ≡ some t
    → lookup j (cancel k d) ≡ (if k == j then some (record t { cancelled = true }) else lookup j d)
lookup-cancel k j t d e = rw e (lookup-insert k j (record t { cancelled = true }) d)

dropped-IsTracked :
    (x : String) (s : Loop) → IsTracked s → IsTracked (dropped (lookup x s.dispatched) x s)
dropped-IsTracked x s h = elim (Option-cases (lookup x s.dispatched)) [
  | inl absent ↦ rw absent h
  | inr (k, there) ↦ elim (Option-cases (lookup k s.tasks)) [
    | inl gone ↦ elim (h.alive x k there gone) [ ]
    | inr (t, present) ↦ rw there (record {
      alive = λ y j e g. ground (
        arith,
        lookup-remove x y s.dispatched,
        lookup-cancel k j t s.tasks present,
        h.alive y j,
        e,
        g,
        eq_iff x y,
        nat_beq_iff k j,
      );
      same = λ y j u e f. ground (
        arith,
        lookup-remove x y s.dispatched,
        lookup-cancel k j t s.tasks present,
        h.same y j u,
        h.same y k t,
        h.same x k t there present,
        present,
        e,
        f,
        eq_iff x y,
        nat_beq_iff k j,
      );
      fresh = λ j le. ground (
        arith,
        lookup-cancel k j t s.tasks present,
        h.fresh j le,
        h.fresh k,
        present,
        le,
        nat_beq_iff k j,
      );
    })
  ]
]

observe-IsTracked :
    (fetched : Bool) (x : String) (s : Loop) → IsTracked s → IsTracked (observe fetched x s)
unfolding observe dispatch is_dispatched
observe-IsTracked fetched x s h = elim (Option-cases (lookup x s.dispatched)) [
  | inr (k, there) ↦ rw there h
  | inl absent ↦ elim (Bool-cases fetched) [
    | inl got ↦
        let t : Task = record { scenario = x; running = false; cancelled = false } in
        rw (absent, got)
          (record {
            alive = λ y j e g. ground (
              arith,
              lookup-insert x y s.next s.dispatched,
              lookup-insert s.next j t s.tasks,
              h.alive y j,
              e,
              g,
              eq_iff x y,
              nat_beq_iff s.next j,
            );
            same = λ y j u e f. ground (
              arith,
              lookup-insert x y s.next s.dispatched,
              lookup-insert s.next j t s.tasks,
              h.same y j u,
              h.alive y j,
              h.fresh s.next,
              e,
              f,
              eq_iff x y,
              nat_beq_iff s.next j,
            );
            fresh = λ j le.
                ground
                  (arith, lookup-insert s.next j t s.tasks, h.fresh j, le, nat_beq_iff s.next j);
          })
    | inr failed ↦ rw (absent, failed) h
  ]
]

started-IsTracked :
    (k : ℕ) (t : Task) (s : Loop)
    → lookup k s.tasks ≡ some t
    → IsTracked s
    → IsTracked (started k t s)
started-IsTracked k t s present h = record {
  alive = λ y j e g. ground (
    arith,
    lookup-insert k j (record t { running = true }) s.tasks,
    h.alive y j,
    e,
    g,
    nat_beq_iff k j,
  );
  same = λ y j u e f. ground (
    arith,
    lookup-insert k j (record t { running = true }) s.tasks,
    h.same y j u,
    h.same y k t,
    present,
    e,
    f,
    nat_beq_iff k j,
  );
  fresh = λ j le. ground (
    arith,
    lookup-insert k j (record t { running = true }) s.tasks,
    h.fresh j le,
    h.fresh k,
    present,
    le,
    nat_beq_iff k j,
  );
}

-- A goroutine that ends takes the entry of its scenario with it, whosever it is.
ended-IsTracked :
    (k used : ℕ) (t : Task) (s : Loop)
    → lookup k s.tasks ≡ some t
    → IsTracked s
    → IsTracked (record s {
      tasks = remove k s.tasks;
      dispatched = remove t.scenario s.dispatched;
      used = used;
    })
ended-IsTracked k used t s present h = record {
  alive = λ y j e g. ground (
    arith,
    lookup-remove k j s.tasks,
    lookup-remove t.scenario y s.dispatched,
    h.alive y j,
    h.same y k t,
    present,
    e,
    g,
    nat_beq_iff k j,
    eq_iff t.scenario y,
  );
  same = λ y j u e f. ground (
    arith,
    lookup-remove k j s.tasks,
    lookup-remove t.scenario y s.dispatched,
    h.same y j u,
    e,
    f,
    nat_beq_iff k j,
    eq_iff t.scenario y,
  );
  fresh = λ j le. ground (arith, lookup-remove k j s.tasks, h.fresh j le, nat_beq_iff k j);
}

cancel_not_in-IsTracked :
    (wanted xs : List String) (s : Loop) → IsTracked s → IsTracked (cancel_not_in wanted xs s)
unfolding cancel_not_in
cancel_not_in-IsTracked wanted [] s h = h
cancel_not_in-IsTracked wanted (x ∷ xs) s h = elim (Bool-cases (member x wanted)) [
  | inl kept ↦ rw kept (cancel_not_in-IsTracked wanted xs s h)
  | inr unwanted ↦ rw unwanted (cancel_not_in-IsTracked wanted xs _ (dropped-IsTracked x s h))
]

Step-IsTracked : {max : ℕ} (s t : Loop) → Step max s t → IsTracked s → IsTracked t
unfolding cancel_assignments_not_in cancel_all_assignments
Step-IsTracked s _ (assignment fetched x) h = observe-IsTracked fetched x s h
Step-IsTracked s _ (prune wanted) h = cancel_not_in-IsTracked wanted (scenarios_of s.dispatched) s h
Step-IsTracked s _ shutdown h = cancel_not_in-IsTracked [] (scenarios_of s.dispatched) s h
Step-IsTracked s _ (start k t present idle free) h = started-IsTracked k t s present h
Step-IsTracked s _ (give_up k t present idle gone) h = ended-IsTracked k s.used t s present h
Step-IsTracked s _ (finish k t present busy) h = ended-IsTracked k (s.used - 1) t s present h

new_loop-IsTracked : IsTracked new_loop
unfolding lookup
new_loop-IsTracked = record {
  alive = λ x k e. ground arith;
  same = λ x k t e f. ground arith;
  fresh = λ k le. refl;
}

pub Reach-IsTracked : {max : ℕ} (s : Loop) → Reach max s → IsTracked s
Reach-IsTracked _ nothing = new_loop-IsTracked
Reach-IsTracked _ (later {s} {t} r st) = Step-IsTracked s t st (Reach-IsTracked s r)
