-- ===== src/Storage/Examples.antt =====
-- The in-memory store run on concrete calls.
use event_driven_tests_ai.Common.{
  ℕ, nat_comparable, String, List, [], ◌∷◌, ◌≡◌, refl, if◌then◌else◌, ◌==◌, string_comparable, true,
  select, none, some, arith, All,
}
use event_driven_tests_ai.Common.Dict.{lookup}
use event_driven_tests_ai.Storage.{
  new_store, MemStore, Run, CheckRow, EvalRun, CheckSample, role_admin,
}
use event_driven_tests_ai.Storage.Scenarios.{
  upsert_scenario, get_scenario, Upload, upload_all, document, named, get_scenario-upload_all,
}
use event_driven_tests_ai.Storage.Runs.{record_run, values}
use event_driven_tests_ai.Storage.Slo.{
  slo_pass_rate, recent_rows, total_of, passed_of, lookup-slo_pass_rate,
}
use event_driven_tests_ai.Storage.Tokens.{issue_locked}
use event_driven_tests_ai.Storage.Tokens.Agreeing.{Agrees}
use event_driven_tests_ai.Storage.Tokens.Laws.{issue_locked-Agrees}
use event_driven_tests_ai.Storage.Workers.{list_assignments, assign_scenario, register_worker}
use event_driven_tests_ai.Storage.Extending.{IsHonoured}
use event_driven_tests_ai.Storage.Placement.{upload, register, assign, start, later, Reach-IsPlaced}

abbrev hash_token : String → String
hash_token x = x

abbrev empty : MemStore ℕ
empty = new_store ℕ

abbrev uploads : List Upload
uploads =
    record { at = 3; name = "a"; yaml = "one"; labels = [] }
    ∷ record { at = 5; name = "b"; yaml = "two"; labels = [] }
    ∷ record { at = 8; name = "a"; yaml = "three"; labels = [] }
    ∷ []

get_scenario-upload_all_example :
    get_scenario "a" (upload_all uploads (new_store ℕ)) ≡ document (select (named "a") uploads)
get_scenario-upload_all_example = get_scenario-upload_all ℕ uploads "a"

abbrev first_run : Run
first_run = record {
  id = "";
  scenario = "a";
  mode = "run";
  status = "pass";
  exit_code = 0;
  started_at = 4;
  finished_at = 9;
  duration = 5;
  report = "{}";
}

abbrev row : CheckRow
row = record {
  run_id = "";
  name = "c";
  severity = "critical";
  window = "";
  passed = true;
  value = "true";
  err = "";
  at = 8;
}

abbrev with_run : MemStore ℕ
with_run = record_run "r1" first_run (row ∷ []) empty

abbrev first_eval_run : EvalRun
first_eval_run = record {
  id = "e1";
  scenario = "a";
  judge_model = "m";
  iterations = 2;
  started_at = 3;
  finished_at = 4;
  status = "pass";
}

lookup-slo_pass_rate_example :
    let rows = recent_rows with_run "a" 100 10 (values with_run.runs) in
    lookup "c" (slo_pass_rate (λ p n. p) "a" 100 10 with_run)
    ≡ (if total_of "c" rows == 0 then none else some (passed_of "c" rows))
lookup-slo_pass_rate_example = lookup-slo_pass_rate with_run (λ p n. p) "a" 100 10 "c"

abbrev with_token : MemStore ℕ
with_token = (issue_locked hash_token "1" 2 "secret" role_admin "" empty).1

empty-Agrees : Agrees empty
unfolding lookup
empty-Agrees = record {
  kept = λ id d h. ground arith;
  by_id = λ id d t h. ground arith;
  by_digest = λ d t h. ground arith;
}

empty-fresh : lookup "tok_1" empty.tokens_by_id ≡ none
unfolding lookup
empty-fresh = refl

with_token-Agrees : Agrees with_token
with_token-Agrees =
    issue_locked-Agrees hash_token "1" 2 "secret" role_admin "" empty empty-fresh empty-Agrees

abbrev staffed : MemStore ℕ
staffed = (register_worker "1" 4 [] "v1" (upsert_scenario 3 "a" "one" [] empty).1).1

Reach-IsPlaced_example :
    All
      (IsHonoured (assign_scenario 6 "w-1" "a" staffed).1 "w-1")
      (list_assignments "w-1" (assign_scenario 6 "w-1" "a" staffed).1)
Reach-IsPlaced_example =
    Reach-IsPlaced hash_token (assign_scenario 6 "w-1" "a" staffed).1
      (later (later (later start (upload 3 "a" "one" [])) (register "1" 4 [] "v1"))
        (assign 6 "w-1" "a"))
      "w-1"

abbrev a_sample : CheckSample
a_sample = record {
  scenario = "a";
  check = "c";
  ts = 7;
  passed = true;
  value = "";
  severity = "warning";
  window = "5m";
}
