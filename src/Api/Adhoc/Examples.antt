-- ===== src/Api/Adhoc/Examples.antt =====
-- An ad-hoc run of one step that does nothing, and of one whose Kafka client cannot be had.
use event_driven_tests_ai.Common.{ℕ, String, [], false, true, none}
use event_driven_tests_ai.Common.Int.{pos_part}
use event_driven_tests_ai.Checks.Result.{bool, value}
use event_driven_tests_ai.Report.{pass}
use event_driven_tests_ai.Storage.Interface.{Environment}
use event_driven_tests_ai.Orchestrator.Matcher.{answer}
use event_driven_tests_ai.Orchestrator.Runner.{Library, answered, refused}
use event_driven_tests_ai.Api.{decoded, malformed}
use event_driven_tests_ai.Api.Scenarios.{Parsers}
use event_driven_tests_ai.Api.Adhoc.{Plan, Outside, execute_adhoc}
use event_driven_tests_ai.Api.Adhoc.Verdict.{IsJudged, execute_adhoc-IsJudged}

abbrev library : Library ℕ
library = record {
  numbers = record { of_int = pos_part; equal = λ x y. true; less = λ x y. false };
  show = λ v. "";
  marshal = λ v. [];
  unmarshal = λ v. none;
  bytes = λ t. [];
  text_of = λ v. "";
  parse_duration = λ t. none;
  draw = λ name i. 0;
  compile_regex = λ r. none;
  cel = record { compile = λ r. none; eval = λ r payload before. answer true };
}

-- The broker is not there; a check would hold.
abbrev outside : Outside ℕ ℕ
outside = record {
  fresh = "1";
  started_at = 3;
  started_text = "now";
  now = 9;
  kafka_client = refused "no brokers";
  new_evaluator = λ s. answered (λ e. value (bool true));
  describe = λ e. "failed";
}

abbrev plan : Plan ℕ
plan = record {
  has_kafka = true;
  has_http = false;
  has_web_socket = false;
  has_grpc = false;
  has_registry = false;
  generators = [];
  steps = [];
  checks = [];
}

execute_adhoc-IsJudged_example :
    IsJudged
      (record { status = pass; err = "kafka client: no brokers"; checks = [] })
      (execute_adhoc library outside plan "shop").0
execute_adhoc-IsJudged_example = execute_adhoc-IsJudged library outside plan "shop"

-- A document is its own name.
abbrev parsers : Parsers String
parsers = record {
  parse = λ yaml. decoded yaml;
  validate_yaml = λ yaml. none;
  metadata_name = λ d. d;
  metadata_labels = λ d. [];
  unmarshal_yaml = λ body. malformed "no json";
}

abbrev env : Environment ℕ
env = record {
  now = 5;
  first = "a";
  second = "b";
  fresh = "2";
  hash_token = λ x. x;
  ratio = λ p n. p;
}
