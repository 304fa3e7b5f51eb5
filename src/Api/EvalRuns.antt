-- ===== src/Api/EvalRuns.antt =====
-- pkg/controlplane/api/eval_runs.go: taking in and reading the runs of evals.
use Prim.Native.String.{◌++◌ as str_append}
use event_driven_tests_ai.Common.{
  ℕ, String, List, map, ◌≡◌, refl, if◌then◌else◌, ◌==◌, ◌||◌, string_comparable, Bool, ◌∙◌, Option,
  none, some, Bool-cases, inl, inr,
}
use event_driven_tests_ai.Common.Int.{ℤ, pos}
use event_driven_tests_ai.Events.{Time}
use event_driven_tests_ai.Storage.{Result, ok, err, Scenario, EvalRun, EvalResult, MemStore}
use event_driven_tests_ai.Storage.Interface.{Storage, Environment, mem_storage}
use event_driven_tests_ai.Storage.Runs.{with_eval_run_id, get_eval_run-record_eval_run}
use event_driven_tests_ai.Api.{
  Reply, reply, failure, storage_failure, internal_failure, Decoded, decoded, malformed, status_ok,
  status_created, status_bad_request,
}
use event_driven_tests_ai.Api.Runs.{limit_of}

pub record EvalResultWire (F : Type 0) : Type 0 where
  pub name : String
  pub judge_model : String
  pub aggregate : String
  pub samples : ℕ
  pub required_samples : ℕ
  pub value : F
  pub threshold : String
  pub passed : Bool
  pub status : String
  pub errors : ℕ

pub record EvalRunRequest (F : Type 0) : Type 0 where
  pub id : String
  pub scenario : String
  pub judge_model : String
  pub iterations : ℕ
  pub started_at : Time
  pub finished_at : Time
  pub status : String
  pub results : List (EvalResultWire F)

abbrev pub eval_run_of : {F : Type 0} → EvalRunRequest F → EvalRun
eval_run_of req = record {
  id = req.id;
  scenario = req.scenario;
  judge_model = req.judge_model;
  iterations = req.iterations;
  started_at = req.started_at;
  finished_at = req.finished_at;
  status = req.status;
}

abbrev pub eval_row_of : {F : Type 0} → EvalResultWire F → EvalResult F
eval_row_of e = record {
  run_id = "";
  name = e.name;
  judge_model = e.judge_model;
  aggregate = e.aggregate;
  samples = e.samples;
  required_samples = e.required_samples;
  value = e.value;
  threshold = e.threshold;
  passed = e.passed;
  status = e.status;
  errors = e.errors;
  samples_json = "";
}

module _ {F S : Type 0} (storage : Storage F S) where
  abbrev ingest_reply : EvalRun → Result (Unit {0}) × S → Reply EvalRun × S
  ingest_reply r (err e, s) = (internal_failure e, s)
  ingest_reply r (ok u, s) = (reply status_created r, s)

  -- The reply shows the id, the scenario and the status of the run.
  unfoldable pub ingest_eval_run : Decoded (EvalRunRequest F) → S → Reply EvalRun × S
  ingest_eval_run (malformed e) s =
      (failure status_bad_request (str_append "invalid eval-run json: " e), s)
  ingest_eval_run (decoded req) s =
      if req.id == "" || req.scenario == ""
      then (failure status_bad_request "id and scenario are required", s)
      else if req.status == ""
      then (failure status_bad_request "status is required (pass | fail | error)", s)
      else ingest_reply (eval_run_of req)
          (storage.record_eval_run (eval_run_of req) (map eval_row_of req.results) s)

  abbrev list_reply : Result (List EvalRun) → Reply (List EvalRun)
  list_reply (err e) = internal_failure e
  list_reply (ok rs) = reply status_ok rs

  unfoldable pub list_eval_runs : (String → Option ℤ) → String → String → S → Reply (List EvalRun)
  list_eval_runs atoi scenario limit s =
      list_reply
        (storage.list_eval_runs scenario (if limit == "" then pos 50 else limit_of (atoi limit)) s)

-- The agent and the evals of a scenario's document, of some types.
pub record EvalDetail (F A E : Type 0) : Type 0 where
  pub run : EvalRun
  pub results : List (EvalResult F)
  pub agent_and_evals : Option (A × E)

-- `parse` is `scenario.Parse`, down to the agent and the evals of the document.
module _ {F S A E : Type 0} (parse : String → Decoded (A × E)) (storage : Storage F S) where
  abbrev parsed_of : Decoded (A × E) → Option (A × E)
  parsed_of (malformed e) = none
  parsed_of (decoded d) = some d

  abbrev agent_and_evals_of : Result Scenario → Option (A × E)
  agent_and_evals_of (err e) = none
  agent_and_evals_of (ok sc) = parsed_of (parse sc.yaml)

  abbrev detail_of : Result (EvalRun × List (EvalResult F)) → S → Reply (EvalDetail F A E)
  detail_of (err e) s = storage_failure e
  detail_of (ok (r, rows)) s = reply status_ok (record {
    run = r;
    results = rows;
    agent_and_evals = agent_and_evals_of (storage.get_scenario r.scenario s);
  })

  unfoldable pub get_eval_run : String → S → Reply (EvalDetail F A E)
  get_eval_run id s = detail_of (storage.get_eval_run id s) s

ingest_reply-state :
    {F S : Type 0} (storage : Storage F S) (r : EvalRun) (x : Result (Unit {0}) × S)
    → (ingest_reply storage r x).1 ≡ x.1
ingest_reply-state storage r (err e, s) = refl
ingest_reply-state storage r (ok u, s) = refl

module _ {F : Type 0} (env : Environment F) where
  -- The run of an eval that has an id, a scenario and a status is read back under its id from the
  -- in-memory store, with that id on each result; any other request stores nothing, and no other id
  -- reads differently.
  pub get_eval_run-ingest_eval_run :
      (req : EvalRunRequest F) (s : MemStore F) (id : String)
      → (mem_storage env).get_eval_run id (ingest_eval_run (mem_storage env) (decoded req) s).1 ≡ (
          if req.id == "" || req.scenario == "" || req.status == ""
          then (mem_storage env).get_eval_run id s
          else if req.id == id
          then ok (eval_run_of req, map (with_eval_run_id req.id) (map eval_row_of req.results))
          else (mem_storage env).get_eval_run id s)
  unfolding ingest_eval_run
  get_eval_run-ingest_eval_run req s id = elim (Bool-cases (req.id == "")) [
    | inl no_id ↦ rw no_id refl
    | inr has_id ↦ elim (Bool-cases (req.scenario == "")) [
      | inl no_scenario ↦ rw (has_id, no_scenario) refl
      | inr has_scenario ↦ elim (Bool-cases (req.status == "")) [
        | inl no_status ↦ rw (has_id, has_scenario, no_status) refl
        | inr has_status ↦
            rw (has_id, has_scenario, has_status, ingest_reply-state)
              (get_eval_run-record_eval_run (eval_run_of req) (map eval_row_of req.results) s id
                ∙ rw (has_id, has_scenario) refl)
      ]
    ]
  ]
