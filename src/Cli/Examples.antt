-- ===== src/Cli/Examples.antt =====
-- The command on a scenario of one step with a critical check that does not hold, and texts with
-- references to variables of the host.
use event_driven_tests_ai.Common.{
  ℕ, String, List, [], ◌∷◌, refl, false, true, none, ◌≡◌, Option, if◌then◌else◌, ◌==◌,
  string_comparable,
}
use event_driven_tests_ai.Checks.Result.{bool, value}
use event_driven_tests_ai.Report.{Report}
use event_driven_tests_ai.Orchestrator.Runner.{answered}
use event_driven_tests_ai.Orchestrator.Trials.{library}
use event_driven_tests_ai.Orchestrator.Runs.{step, world}
use event_driven_tests_ai.Orchestrator.Interpolate.{brace_name}
use event_driven_tests_ai.Orchestrator.Interpolate.Render.{Part, plain, reference, render, meaning}
use event_driven_tests_ai.Api.{decoded, malformed}
use event_driven_tests_ai.Api.Scenarios.{Parsers}
use event_driven_tests_ai.Api.Adhoc.{Plan, Outside}
use event_driven_tests_ai.Cli.{RunFlags, do_run}
use event_driven_tests_ai.Cli.Host.{
  expand_host, expand_host_env, host_meaning, is_env_name, expand_host_env-render,
}
use event_driven_tests_ai.Cli.Exit.{Exits, run_status, do_run-Exits}

abbrev getenv : String → String
getenv name = if name == "KAFKA_URL" then "broker" else ""

abbrev parts : List Part
parts = plain "echo $PATH " ∷ reference "KAFKA_URL" ∷ plain ":" ∷ reference "run.id" ∷ []

expand_host_env-render_example :
    expand_host_env getenv (render parts) ≡ meaning (host_meaning getenv) parts
expand_host_env-render_example =
    expand_host_env-render getenv parts (refl, (refl, (refl, (refl, tt))))

host_test :
    expand_host_env getenv "$HOME ${KAFKA_URL} ${uuid()} ${open" ≡ "$HOME broker ${uuid()} ${open"
unfolding expand_host_env expand_host is_env_name brace_name
host_test = refl

abbrev outside : Outside ℕ ℕ
outside = record {
  fresh = "1";
  started_at = 3;
  started_text = "now";
  now = 9;
  kafka_client = answered tt;
  new_evaluator = λ s. answered (λ e. value (bool false));
  describe = λ e. "failed";
}

abbrev plan : Plan ℕ
plan = record {
  has_kafka = true;
  has_http = false;
  has_web_socket = false;
  has_grpc = false;
  has_registry = false;
  generators = [];
  steps = (step, world) ∷ [];
  checks = record { name = "ready"; expr = "false"; window = ""; severity = "critical" } ∷ [];
}

abbrev flags : RunFlags
flags = record {
  file = "shop.yaml";
  format = "json";
  bootstrap_servers = "";
  timeout = 600;
  report_to = "http://control";
  report_token = "";
}

-- A document is its own name.
abbrev parsers : Parsers String
parsers = record {
  parse = λ yaml. decoded yaml;
  validate_yaml = λ yaml. none;
  metadata_name = λ d. d;
  metadata_labels = λ d. [];
  unmarshal_yaml = λ body. malformed "no json";
}

abbrev written : Report ℕ → Option String
written rep = none

do_run-Exits_example :
    Exits
      (run_status library outside plan)
      1
      (do_run library outside written written flags parsers (λ d. plan) getenv (answered "shop"))
do_run-Exits_example =
    do_run-Exits library outside written written flags parsers (λ d. plan) getenv (λ rep. refl)
      "shop" (expand_host_env getenv "shop") refl refl
