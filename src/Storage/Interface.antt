-- ===== src/Storage/Interface.antt =====
-- The `Storage` interface of pkg/controlplane/storage/storage.go, and `MemStore` as one.
use event_driven_tests_ai.Common.{ℕ, String, List}
use event_driven_tests_ai.Common.Dict.{Dict}
use event_driven_tests_ai.Common.Int.{ℤ}
use event_driven_tests_ai.Events.{Time}
use event_driven_tests_ai.Storage.{
  Labels, Result, ok, Scenario, Run, CheckRow, EvalRun, EvalResult, CheckSample, Worker, Assignment,
  Role, Token, MemStore,
}
use event_driven_tests_ai.Storage.Scenarios.{upsert_scenario, get_scenario, list_scenarios}
use event_driven_tests_ai.Storage.Runs.{
  record_run, get_run, list_runs, record_eval_run, get_eval_run, list_eval_runs,
}
use event_driven_tests_ai.Storage.Slo.{slo_pass_rate}
use event_driven_tests_ai.Storage.Workers.{
  register_worker, heartbeat, list_workers, assign_scenario, list_assignments,
}
use event_driven_tests_ai.Storage.Tokens.{
  issue_token, issue_token_with_plaintext, lookup_token, list_tokens, revoke_token,
}
use event_driven_tests_ai.Storage.Samples.{append_check_samples, load_check_samples_since}

-- `F` is the type of a `float64`, `S` the state behind the interface.
pub record Storage (F S : Type 0) : Type 0 where
  pub upsert_scenario : String → String → Labels → S → Result Scenario × S
  pub get_scenario : String → S → Result Scenario
  pub list_scenarios : S → Result (List Scenario)
  pub record_run : Run → List CheckRow → S → Result (Unit {0}) × S
  pub get_run : String → S → Result (Run × List CheckRow)
  pub list_runs : String → ℤ → S → Result (List Run)
  pub record_eval_run : EvalRun → List (EvalResult F) → S → Result (Unit {0}) × S
  pub get_eval_run : String → S → Result (EvalRun × List (EvalResult F))
  pub list_eval_runs : String → ℤ → S → Result (List EvalRun)
  pub slo_pass_rate : String → ℕ → S → Result (Dict String F)
  pub append_check_samples : List CheckSample → S → Result (Unit {0}) × S
  pub load_check_samples_since : String → Time → S → Result (List CheckSample)
  pub register_worker : Labels → String → S → Result Worker × S
  pub heartbeat : String → S → Result (Unit {0}) × S
  pub list_workers : S → Result (List Worker)
  pub assign_scenario : String → String → S → Result (Unit {0}) × S
  pub list_assignments : String → S → Result (List Assignment)
  pub issue_token : Role → String → S → Result Token × S
  pub issue_token_with_plaintext : String → Role → String → S → Result Token × S
  pub lookup_token : String → S → Result Token
  pub list_tokens : S → Result (List Token)
  pub revoke_token : String → S → Result (Unit {0}) × S

-- What `MemStore` takes from outside during one call: the clock, the results of `randID`, SHA-256
-- and the division of two counts.
pub record Environment (F : Type 0) : Type 0 where
  pub now : Time
  pub first : String
  pub second : String
  pub fresh : String
  pub hash_token : String → String
  pub ratio : ℕ → ℕ → F

abbrev succeed : {A S : Type 0} → A × S → Result A × S
succeed (a, s) = (ok a, s)

-- The methods of `MemStore` behind the interface.
abbrev pub mem_storage : {F : Type 0} → Environment F → Storage F (MemStore F)
mem_storage env = record {
  upsert_scenario = λ name yaml labels s. succeed (upsert_scenario env.now name yaml labels s);
  get_scenario = get_scenario;
  list_scenarios = λ s. ok (list_scenarios s);
  record_run = λ r checks s. (ok tt, record_run env.fresh r checks s);
  get_run = get_run;
  list_runs = λ scenario limit s. ok (list_runs scenario limit s);
  record_eval_run = record_eval_run;
  get_eval_run = get_eval_run;
  list_eval_runs = λ scenario limit s. ok (list_eval_runs scenario limit s);
  slo_pass_rate = λ scenario window s. ok (slo_pass_rate env.ratio scenario window env.now s);
  append_check_samples = λ xs s. (ok tt, append_check_samples xs s);
  load_check_samples_since = λ scenario since s. ok (load_check_samples_since scenario since s);
  register_worker =
      λ labels version s. succeed (register_worker env.fresh env.now labels version s);
  heartbeat = heartbeat env.now;
  list_workers = λ s. ok (list_workers s);
  assign_scenario = assign_scenario env.now;
  list_assignments = λ id s. ok (list_assignments id s);
  issue_token = λ role note s.
      succeed (issue_token env.hash_token env.first env.second env.fresh env.now role note s);
  issue_token_with_plaintext = issue_token_with_plaintext env.hash_token env.fresh env.now;
  lookup_token = lookup_token env.hash_token;
  list_tokens = λ s. ok (list_tokens s);
  revoke_token = revoke_token;
}
