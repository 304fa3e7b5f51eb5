-- ===== src/Api/Adhoc.antt =====
-- pkg/controlplane/api/adhoc.go: running a scenario that a request brings, without storing the
-- scenario. The steps come with what the outside does while they run.
use Prim.Native.String.{◌++◌ as str_append}
use event_driven_tests_ai.Common.{
  String, List, [], ◌∷◌, map, if◌then◌else◌, ◌==◌, ◌&&◌, string_comparable, Bool, Option, none,
  some,
}
use event_driven_tests_ai.Common.Int.{pos}
use event_driven_tests_ai.Checks.Result.{Check, Value, Outcome, evaluate_all}
use event_driven_tests_ai.Events.{Time, MemStore, new_mem_store}
use event_driven_tests_ai.Json.{Json, text}
use event_driven_tests_ai.Report.{Report, unset, finalize}
use event_driven_tests_ai.Spec.{Step}
use event_driven_tests_ai.Storage.Interface.{Storage}
use event_driven_tests_ai.Orchestrator.{State, StepError, StepResult, passed, failed}
use event_driven_tests_ai.Orchestrator.Runner.{Library, Setup, Answer, answered, refused}
use event_driven_tests_ai.Orchestrator.Run.{World, run}
use event_driven_tests_ai.Api.{
  Reply, reply, failure, Decoded, decoded, malformed, status_ok, status_accepted,
  status_bad_request,
}
use event_driven_tests_ai.Api.Scenarios.{Parsers, read_scenario_payload}
use event_driven_tests_ai.Api.Runs.{run_of, row_of}
pub mod Verdict
mod Examples

-- What a run reads of a document.
pub record Plan (F : Type 0) : Type 0 where
  pub has_kafka : Bool
  pub has_http : Bool
  pub has_web_socket : Bool
  pub has_grpc : Bool
  pub has_registry : Bool
  pub generators : List String
  pub steps : List (Step F (Json F) × World F)
  pub checks : List Check

-- What a run takes from outside: the random part of its id, the times, with the text of the start,
-- the Kafka client, the evaluator over a store, and the text of an error after the word `step`.
pub record Outside (F V : Type 0) : Type 0 where
  pub fresh : String
  pub started_at : Time
  pub started_text : String
  pub now : Time
  pub kafka_client : Answer (Unit {0})
  pub new_evaluator : MemStore (Json F) → Answer (String → Outcome V)
  pub describe : StepError → String

-- Both answers show the report; that of a run which stopped shows its error too.
pub data AdhocResponse (V : Type 0) : Type 0 where
  finished : Report V → AdhocResponse V
  broke : String → Report V → AdhocResponse V

module _ {F V : Type 0} (lib : Library F) (out : Outside F V) where
  abbrev pub adhoc_run_id : String
  adhoc_run_id = str_append "adhoc-" out.fresh

  -- The runner that is wired for a plan.
  abbrev pub adhoc_setup : Plan F → Setup F
  adhoc_setup plan = record {
    has_kafka = plan.has_kafka;
    has_http = plan.has_http;
    has_web_socket = plan.has_web_socket;
    has_sse = plan.has_http;
    has_grpc = plan.has_grpc;
    has_codec = plan.has_kafka && plan.has_registry;
    http_connector = plan.has_http;
    web_socket_connector = plan.has_web_socket;
    grpc_connector = plan.has_grpc;
    generators = plan.generators;
    run = ("id", text adhoc_run_id) ∷ ("startedAt", text out.started_text) ∷ [];
  }

  abbrev pub adhoc_state : State (Json F)
  adhoc_state = record { store = new_mem_store (pos 0); previous = []; sent = [] }

  abbrev pub adhoc_report : String → Report V
  adhoc_report name = record {
    scenario = name;
    run_id = adhoc_run_id;
    mode = "adhoc";
    started_at = out.started_at;
    finished_at = 0;
    duration = 0;
    status = unset;
    exit_code = 0;
    checks = [];
    event_count = 0;
    err = "";
  }

  -- `evalChecks`
  abbrev pub eval_checks :
      Answer (String → Outcome V) → List Check → MemStore (Json F) → Report V → Report V
  eval_checks (refused e) cs store rep = record rep { err = str_append "check evaluator: " e }
  eval_checks (answered evaluate) cs store rep = record rep {
    checks = evaluate_all evaluate out.now cs;
    event_count = store.total;
  }

  abbrev pub step_error_text : StepError → String
  step_error_text e = str_append "step " (out.describe e)

  abbrev pub after_run :
      List Check → StepResult × State (Json F) → Report V → Report V × Option String
  after_run cs (failed e, s) rep = (
    eval_checks (out.new_evaluator s.store) cs s.store
        (finalize out.now (record rep { err = step_error_text e; exit_code = 2 })),
    some (step_error_text e),
  )
  after_run cs (passed, s) rep =
      (finalize out.now (eval_checks (out.new_evaluator s.store) cs s.store rep), none)

  abbrev pub run_plan : Plan F → StepResult × State (Json F)
  run_plan plan = run lib (adhoc_setup plan) plan.steps adhoc_state

  abbrev pub with_client : Answer (Unit {0}) → Plan F → Report V → Report V × Option String
  with_client (refused e) plan rep =
      (record (finalize out.now rep) { err = str_append "kafka client: " e }, some e)
  with_client (answered u) plan rep = after_run plan.checks (run_plan plan) rep

  -- `executeAdhoc`: the report, and the error if there is one.
  unfoldable pub execute_adhoc : Plan F → String → Report V × Option String
  execute_adhoc plan name =
      if plan.has_kafka
      then with_client out.kafka_client plan (adhoc_report name)
      else after_run plan.checks (run_plan plan) (adhoc_report name)

  -- `json_report` is `json.Marshal` on a report, `marshal` that on a value.
  module _ {D G S : Type 0} (p : Parsers D) (plan : D → Plan F) (storage : Storage G S)
      (marshal : Value V → Option String) (json_report : Report V → Option String) where
    -- What storing the run answers is not looked at.
    abbrev pub store_adhoc_run : Option String → Report V → S → S
    store_adhoc_run none rep s = s
    store_adhoc_run (some body) rep s =
        (storage.record_run (run_of marshal rep body) (map (row_of marshal) rep.checks) s).1

    abbrev adhoc_reply : Report V × Option String → Reply (AdhocResponse V)
    adhoc_reply (rep, none) = reply status_ok (finished rep)
    adhoc_reply (rep, some e) = reply status_accepted (broke e rep)

    abbrev pub adhoc_name : String → String
    adhoc_name name = if name == "" then "adhoc" else name

    -- The reply, the next state and the reports that the metrics observed.
    abbrev pub executed : D → S → Reply (AdhocResponse V) × S × List (Report V)
    executed d s =
        let x = execute_adhoc (plan d) (adhoc_name (p.metadata_name d)) in
        (adhoc_reply x, store_adhoc_run (json_report x.0) x.0 s, x.0 ∷ [])

    abbrev pub adhoc_parsed :
        Decoded D → Option String → S → Reply (AdhocResponse V) × S × List (Report V)
    adhoc_parsed (malformed e) v s = (failure status_bad_request (str_append "parse: " e), s, [])
    adhoc_parsed (decoded d) (some e) s =
        (failure status_bad_request (str_append "validation: " e), s, [])
    adhoc_parsed (decoded d) none s = executed d s

    abbrev pub adhoc_of : Decoded String → S → Reply (AdhocResponse V) × S × List (Report V)
    adhoc_of (malformed e) s = (failure status_bad_request e, s, [])
    adhoc_of (decoded yaml) s = adhoc_parsed (p.parse yaml) (p.validate_yaml yaml) s

    -- `runAdhoc`, on a body that could be read.
    unfoldable pub run_adhoc : String → S → Reply (AdhocResponse V) × S × List (Report V)
    unfolding read_scenario_payload
    run_adhoc body s = adhoc_of (read_scenario_payload p body) s
