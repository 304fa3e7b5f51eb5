-- ===== src/Storage/Placement.antt =====
-- `MemStore` as a state machine: every mutating method is a step, and what holds after any steps.
use Prim.Native.String.{◌++◌ as str_append}
use event_driven_tests_ai.Common.{String, List, refl, string_comparable, All}
use event_driven_tests_ai.Common.Dict.{lookup, lookup_or}
use event_driven_tests_ai.Events.{Time}
use event_driven_tests_ai.Storage.{
  new_store, Labels, Role, Run, CheckRow, EvalRun, EvalResult, CheckSample, MemStore,
}
use event_driven_tests_ai.Storage.Scenarios.{upsert_scenario}
use event_driven_tests_ai.Storage.Runs.{record_run, record_eval_run}
use event_driven_tests_ai.Storage.Workers.{
  register_worker, heartbeat, assign_scenario, list_assignments,
}
use event_driven_tests_ai.Storage.Tokens.{
  issue_locked, issue_token, issue_token_with_plaintext, revoke_token,
}
use event_driven_tests_ai.Storage.Samples.{append_check_samples}
use event_driven_tests_ai.Storage.Extending.{
  IsHonoured, IsPlaced, extend, lookup-insert-none, beaten-Extends, issued-Extends, revoked-Extends,
  eval_run-Extends, plaintext-Extends, samples-Extends, assign-IsPlaced,
}

pub data Step {F : Type 0} (hash_token : String → String) (s : MemStore F)
    : MemStore F → Type 0 where
  upload :
      (now : Time) (name yaml : String) (labels : Labels)
      → Step hash_token s (upsert_scenario now name yaml labels s).1
  run :
      (fresh : String) (r : Run) (checks : List CheckRow)
      → Step hash_token s (record_run fresh r checks s)
  eval_run :
      (r : EvalRun) (results : List (EvalResult F))
      → Step hash_token s (record_eval_run r results s).1
  register :
      (fresh : String) (now : Time) (labels : Labels) (version : String)
      → Step hash_token s (register_worker fresh now labels version s).1
  beat : (now : Time) (id : String) → Step hash_token s (heartbeat now id s).1
  assign : (now : Time) (w n : String) → Step hash_token s (assign_scenario now w n s).1
  issue :
      (first second fresh : String) (now : Time) (role : Role) (note : String)
      → Step hash_token s (issue_token hash_token first second fresh now role note s).1
  issue_with_plaintext :
      (fresh : String) (now : Time) (plaintext : String) (role : Role) (note : String)
      → Step hash_token s (issue_token_with_plaintext hash_token fresh now plaintext role note s).1
  revoke : (id : String) → Step hash_token s (revoke_token id s).1
  samples : (xs : List CheckSample) → Step hash_token s (append_check_samples xs s)

pub data Reach {F : Type 0} (hash_token : String → String) : MemStore F → Type 0 where
  start : Reach hash_token (new_store F)
  later : {s t : MemStore F} → Reach hash_token s → Step hash_token s t → Reach hash_token t

module _ {F : Type 0} (hash_token : String → String) where
  -- Every mutating method keeps the invariant: each assignment in the list of a worker names that
  -- worker, and the worker and the scenario it names are in the store.
  pub Step-IsPlaced : (s t : MemStore F) → Step hash_token s t → IsPlaced s → IsPlaced t
  unfolding list_assignments upsert_scenario record_run register_worker heartbeat issue_token
      issue_locked revoke_token
  Step-IsPlaced s t (upload now name yaml labels) h =
      extend s t
        (record {
          workers = λ id h. h;
          scenarios = λ n. lookup-insert-none name n _ s.scenarios;
          assignments = λ i. refl;
        })
        h
  Step-IsPlaced s t (run fresh r checks) h =
      extend s t (record { workers = λ id h. h; scenarios = λ n h. h; assignments = λ i. refl }) h
  Step-IsPlaced s t (eval_run r results) h = extend s t (eval_run-Extends r results s) h
  Step-IsPlaced s t (register fresh now labels version) h =
      extend s t
        (record {
          workers = λ id. lookup-insert-none (str_append "w-" fresh) id _ s.workers;
          scenarios = λ n h. h;
          assignments = λ i. refl;
        })
        h
  Step-IsPlaced s t (beat now id) h = extend s t (beaten-Extends _ now id s) h
  Step-IsPlaced s t (assign now w n) h = assign-IsPlaced now w n s h
  Step-IsPlaced s t (issue first second fresh now role note) h =
      extend s t (issued-Extends _ _ _ s) h
  Step-IsPlaced s t (issue_with_plaintext fresh now plaintext role note) h =
      extend s t (plaintext-Extends hash_token fresh now plaintext role note s) h
  Step-IsPlaced s t (revoke id) h = extend s t (revoked-Extends _ id s) h
  Step-IsPlaced s t (samples xs) h = extend s t (samples-Extends xs s) h

  -- In every store that the methods can reach from a new one, each assignment in the list of a
  -- worker names that worker, and the worker and the scenario it names are in the store.
  pub Reach-IsPlaced :
      (s : MemStore F)
      → Reach hash_token s
      → (id : String) → All (IsHonoured s id) (list_assignments id s)
  Reach-IsPlaced _ start = unfold list_assignments lookup_or lookup in λ id. tt
  Reach-IsPlaced _ (later {s} {t} r st) = Step-IsPlaced s t st (Reach-IsPlaced s r)
