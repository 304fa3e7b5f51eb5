-- ===== src/Cli.antt =====
-- cmd/edt/run.go and main.go: the command that runs a scenario once, from the text of its file to
-- the exit code of the process. Reading the file, the printers, the host's environment and the push
-- to a control plane are arguments.
use Prim.Native.String.{◌++◌ as str_append}
use event_driven_tests_ai.Common.{
  ℕ, String, List, [], ◌∷◌, if◌then◌else◌, ◌==◌, ◌&&◌, string_comparable, nat_comparable, Option,
  none, some,
}
use event_driven_tests_ai.Common.Int.{pos}
use event_driven_tests_ai.Checks.Result.{Check, Outcome, evaluate_all}
use event_driven_tests_ai.Events.{MemStore, new_mem_store}
use event_driven_tests_ai.Json.{Json, text}
use event_driven_tests_ai.Report.{Report, unset, finalize}
use event_driven_tests_ai.Orchestrator.{State, StepError, StepResult, passed, failed}
use event_driven_tests_ai.Orchestrator.Runner.{Library, Setup, Answer, answered, refused}
use event_driven_tests_ai.Orchestrator.Run.{run}
use event_driven_tests_ai.Api.{Decoded, decoded, malformed}
use event_driven_tests_ai.Api.Scenarios.{Parsers}
use event_driven_tests_ai.Api.Adhoc.{Plan, Outside}
use event_driven_tests_ai.Cli.Host.{expand_host_env}
pub mod Host
pub mod Exit
mod Examples

-- The brokers that a flag names and the time limit go to the clients, the token to the push.
pub record RunFlags : Type 0 where
  pub file : String
  pub format : String
  pub bootstrap_servers : String
  pub timeout : ℕ
  pub report_to : String
  pub report_token : String

pub data CommandError : Type 0 where
  plain : String → CommandError
  exit_error : ℕ → String → CommandError

-- The exit code that `main` gives.
unfoldable pub process_code : Option CommandError → ℕ
process_code none = 0
process_code (some (plain e)) = 1
process_code (some (exit_error code message)) = code

module _ {V : Type 0} (write_json write_console : Report V → Option String) where
  abbrev pub write : String → Report V → Option String
  write format rep = if format == "json" then write_json rep else write_console rep

  abbrev pub exit_of : Option String → Report V → Option CommandError
  exit_of (some e) rep = some (plain e)
  exit_of none rep =
      if rep.exit_code == 0
      then none
      else if rep.exit_code == 2
      then some (exit_error 2 (str_append "scenario error: " rep.err))
      else some (exit_error 1 "check failures")

  -- `writeAndExit`
  unfoldable pub write_and_exit : Report V → String → Option CommandError
  write_and_exit rep format = exit_of (write format rep) rep

module _ {F V : Type 0} (lib : Library F) (out : Outside F V) where
  abbrev pub new_run_id : String
  new_run_id = str_append "r-" out.fresh

  -- The report at the start.
  abbrev pub new_report : String → Report V
  new_report name = record {
    scenario = name;
    run_id = new_run_id;
    mode = "run";
    started_at = out.started_at;
    finished_at = 0;
    duration = 0;
    status = unset;
    exit_code = 0;
    checks = [];
    event_count = 0;
    err = "";
  }

  -- The runner that is wired for a plan; the plan has a registry when it names one with a URL.
  abbrev pub run_setup : Plan F → Setup F
  run_setup plan = record {
    has_kafka = plan.has_kafka;
    has_http = plan.has_http;
    has_web_socket = plan.has_web_socket;
    has_sse = plan.has_http;
    has_grpc = plan.has_grpc;
    has_codec = plan.has_kafka && plan.has_registry;
    http_connector = plan.has_http;
    web_socket_connector = plan.has_web_socket;
    grpc_connector = plan.has_grpc;
    generators = plan.generators;
    run = ("id", text new_run_id) ∷ ("startedAt", text out.started_text) ∷ [];
  }

  abbrev pub run_steps : Plan F → StepResult × State (Json F)
  run_steps plan =
      run lib (run_setup plan) plan.steps
        (record { store = new_mem_store (pos 0); previous = []; sent = [] })

  abbrev pub with_error : StepResult → Report V → Report V
  with_error passed rep = rep
  with_error (failed e) rep = record rep { err = str_append "step " (out.describe e) }

  -- Without an evaluator there is a warning and no check.
  abbrev pub with_checks : Answer (String → Outcome V) → List Check → Report V → Report V
  with_checks (refused e) cs rep = rep
  with_checks (answered evaluate) cs rep = record rep { checks = evaluate_all evaluate out.now cs }

  -- The report of a run whose steps have been taken.
  abbrev pub run_report : Plan F → StepResult × State (Json F) → Report V → Report V
  run_report plan (r, s) rep =
      let checked = with_checks (out.new_evaluator s.store) plan.checks (with_error r rep) in
      finalize out.now (record checked { event_count = s.store.total })

  module _ (write_json write_console : Report V → Option String) (f : RunFlags) where
    -- What the control plane answers to a push is not looked at.
    abbrev pub pushed : Report V → List (Report V)
    pushed rep = if f.report_to == "" then [] else rep ∷ []

    abbrev pub finished : Report V → Option CommandError × List (Report V)
    finished rep = (write_and_exit write_json write_console rep f.format, pushed rep)

    -- A client that cannot be had ends the run with the report as it is, which is not pushed.
    abbrev pub clients :
        Answer (Unit {0}) → Plan F → Report V → Option CommandError × List (Report V)
    clients (refused e) plan rep =
        (write_and_exit write_json write_console (record rep { err = e }) f.format, [])
    clients (answered u) plan rep = finished (run_report plan (run_steps plan) rep)

    abbrev pub run_scenario : Plan F → String → Option CommandError × List (Report V)
    run_scenario plan name =
        if plan.has_kafka
        then clients out.kafka_client plan (new_report name)
        else finished (run_report plan (run_steps plan) (new_report name))

    module _ {D : Type 0} (p : Parsers D) (plan : D → Plan F) (getenv : String → String) where
      abbrev pub run_parsed : Decoded D → Option String → Option CommandError × List (Report V)
      run_parsed (malformed e) v = (some (plain e), [])
      run_parsed (decoded d) (some e) = (some (plain e), [])
      run_parsed (decoded d) none = run_scenario (plan d) (p.metadata_name d)

      -- `doRun`: the error it returns and the reports that it pushed.
      unfoldable pub do_run : Answer String → Option CommandError × List (Report V)
      do_run (refused e) = (some (plain e), [])
      do_run (answered raw) =
          let yaml = expand_host_env getenv raw in run_parsed (p.parse yaml) (p.validate_yaml yaml)
