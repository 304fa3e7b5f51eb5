-- ===== src/Storage/Extending.antt =====
-- What a method of `MemStore` may do to the store without breaking an assignment.
use event_driven_tests_ai.Common.{
  String, List, [], ◌∷◌, ◌≡◌, ◌≢◌, refl, arith, ◌==◌, string_comparable, Option, none, some, All,
  All-append, Bool-cases, inl, inr, eq_iff,
}
use event_driven_tests_ai.Storage.{Token}
use event_driven_tests_ai.Common.Dict.{Dict, lookup, insert, lookup-insert}
use event_driven_tests_ai.Events.{Time}
use event_driven_tests_ai.Storage.{
  Role, EvalRun, EvalResult, CheckSample, Worker, Scenario, Assignment, MemStore,
}
use event_driven_tests_ai.Storage.Runs.{record_eval_run}
use event_driven_tests_ai.Storage.Workers.{
  assign_scenario, list_assignments, beaten, assigned, added, list_assignments-assign_scenario,
}
use event_driven_tests_ai.Storage.Tokens.{issued, revoked, issue_locked, issue_token_with_plaintext}
use event_driven_tests_ai.Storage.Samples.{append_check_samples}

-- The worker and the scenario that an assignment names are kept in the store.
pub record IsHonoured {F : Type 0} (s : MemStore F) (id : String) (a : Assignment) : Type 0 where
  pub owner : a.worker_id ≡ id
  pub worker : lookup id s.workers ≢ none
  pub scenario : lookup a.scenario_name s.scenarios ≢ none

abbrev pub IsPlaced : {F : Type 0} → MemStore F → Type 0
IsPlaced s = (id : String) → All (IsHonoured s id) (list_assignments id s)

-- The second store keeps every worker, every scenario and all lists of assignments of the first.
pub record Extends {F : Type 0} (s t : MemStore F) : Type 0 where
  pub workers : (id : String) → lookup id t.workers ≡ none → lookup id s.workers ≡ none
  pub scenarios : (n : String) → lookup n t.scenarios ≡ none → lookup n s.scenarios ≡ none
  pub assignments : (id : String) → list_assignments id t ≡ list_assignments id s

All-IsHonoured :
    {F : Type 0} (s t : MemStore F) (id : String) (xs : List Assignment)
    → Extends s t
    → All (IsHonoured s id) xs
    → All (IsHonoured t id) xs
All-IsHonoured s t id [] e h = tt
All-IsHonoured s t id (a ∷ xs) e (k, h) = (
  record {
    owner = k.owner;
    worker = λ gone. k.worker (e.workers id gone);
    scenario = λ gone. k.scenario (e.scenarios a.scenario_name gone);
  },
  All-IsHonoured s t id xs e h,
)

pub extend : {F : Type 0} (s t : MemStore F) → Extends s t → IsPlaced s → IsPlaced t
extend s t e h id = rw (e.assignments id) (All-IsHonoured s t id (list_assignments id s) e (h id))

pub lookup-insert-none :
    {V : Type 0} (k j : String) (v : V) (d : Dict String V)
    → lookup j (insert k v d) ≡ none
    → lookup j d ≡ none
lookup-insert-none k j v d h = ground (arith, lookup-insert k j v d, h)

same : {F : Type 0} (s : MemStore F) → Extends s s
same s = record { workers = λ id h. h; scenarios = λ n h. h; assignments = λ id. refl }

pub beaten-Extends :
    {F : Type 0} (o : Option Worker) (now : Time) (id : String) (s : MemStore F)
    → Extends s (beaten o now id s).1
unfolding list_assignments
beaten-Extends none now id s = same s
beaten-Extends (some w) now id s = record {
  workers = λ i. lookup-insert-none id i (record w { last_heartbeat = now }) s.workers;
  scenarios = λ n h. h;
  assignments = λ i. refl;
}

pub issued-Extends :
    {F : Type 0} (o : Option Token) (tok : Token) (digest : String) (s : MemStore F)
    → Extends s (issued o tok digest s).1
unfolding list_assignments
issued-Extends none tok digest s = record {
  workers = λ id h. h;
  scenarios = λ n h. h;
  assignments = λ i. refl;
}
issued-Extends (some t) tok digest s = same s

pub revoked-Extends :
    {F : Type 0} (o : Option String) (id : String) (s : MemStore F) → Extends s (revoked o id s).1
unfolding list_assignments
revoked-Extends none id s = same s
revoked-Extends (some digest) id s = record {
  workers = λ id h. h;
  scenarios = λ n h. h;
  assignments = λ i. refl;
}

pub eval_run-Extends :
    {F : Type 0} (r : EvalRun) (results : List (EvalResult F)) (s : MemStore F)
    → Extends s (record_eval_run r results s).1
unfolding list_assignments record_eval_run
eval_run-Extends r results s = elim (Bool-cases (r.id == "")) [
  | inl no_id ↦ rw no_id (same s)
  | inr id ↦ elim (Bool-cases (r.scenario == "")) [
    | inl no_scenario ↦ rw (id, no_scenario) (same s)
    | inr scenario ↦
        rw (id, scenario)
          (record { workers = λ id h. h; scenarios = λ n h. h; assignments = λ i. refl })
  ]
]

pub plaintext-Extends :
    {F : Type 0} (hash_token : String → String) (fresh : String) (now : Time) (plaintext : String)
    (role : Role) (note : String) (s : MemStore F)
    → Extends s (issue_token_with_plaintext hash_token fresh now plaintext role note s).1
unfolding issue_token_with_plaintext issue_locked
plaintext-Extends hash_token fresh now plaintext role note s = elim (Bool-cases (plaintext == "")) [
  | inl empty ↦ rw empty (same s)
  | inr full ↦ rw full (issued-Extends _ _ _ s)
]

pub samples-Extends :
    {F : Type 0} (xs : List CheckSample) (s : MemStore F) → Extends s (append_check_samples xs s)
unfolding append_check_samples list_assignments
samples-Extends [] s = same s
samples-Extends (x ∷ xs) s = record {
  workers = λ id h. h;
  scenarios = λ n h. h;
  assignments = λ i. refl;
}

added-IsHonoured :
    {F : Type 0} (o : Option Worker) (p : Option Scenario) (a : Assignment) (id : String)
    (s : MemStore F)
    → lookup a.worker_id s.workers ≡ o
    → lookup a.scenario_name s.scenarios ≡ p
    → All (IsHonoured s id) (added o p a id)
added-IsHonoured none p a id s e f = tt
added-IsHonoured (some w) none a id s e f = tt
added-IsHonoured (some w) (some sc) a id s e f = elim (Bool-cases (a.worker_id == id)) [
  | inl own ↦ rw own (
    record {
      owner = (eq_iff a.worker_id id).0 own;
      worker = ground (arith, e, (eq_iff a.worker_id id).0 own);
      scenario = ground (arith, f);
    },
    tt,
  )
  | inr other ↦ rw other tt
]

assigned-Extends :
    {F : Type 0} (o : Option Worker) (p : Option Scenario) (a : Assignment) (s : MemStore F)
    (id : String) (xs : List Assignment)
    → All (IsHonoured s id) xs
    → All (IsHonoured (assigned o p a s).1 id) xs
assigned-Extends none p a s id xs h = h
assigned-Extends (some w) none a s id xs h = h
assigned-Extends (some w) (some sc) a s id [] h = tt
assigned-Extends (some w) (some sc) a s id (x ∷ xs) (k, h) = (
  record { owner = k.owner; worker = k.worker; scenario = k.scenario },
  assigned-Extends (some w) (some sc) a s id xs h,
)

pub assign-IsPlaced :
    {F : Type 0} (now : Time) (w n : String) (s : MemStore F)
    → IsPlaced s
    → IsPlaced (assign_scenario now w n s).1
assign-IsPlaced now w n s h id =
    let a : Assignment = record { worker_id = w; scenario_name = n; assigned_at = now } in
    rw (list_assignments-assign_scenario now w n s id) (
      unfold assign_scenario in
      assigned-Extends (lookup w s.workers) (lookup n s.scenarios) a s id _ (
        All-append (IsHonoured s id) (list_assignments id s) _ (h id)
          (added-IsHonoured (lookup w s.workers) (lookup n s.scenarios) a id s refl refl)))
