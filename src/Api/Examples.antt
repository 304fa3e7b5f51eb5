-- ===== src/Api/Examples.antt =====
-- The REST handlers and the start of the server run on concrete requests.
use event_driven_tests_ai.Api.EvalRuns.{EvalRunRequest}
use event_driven_tests_ai.Common.{
  ℕ, nat_comparable, String, [], ◌∷◌, ◌++◌, ◌≡◌, refl, if◌then◌else◌, string_comparable, true,
  false, Option, none, some, arith, ltb,
}
use event_driven_tests_ai.Common.Dict.{lookup}
use event_driven_tests_ai.Common.Text.{trim_space}
use event_driven_tests_ai.Checks.Result.{CheckResult, Value, bool}
use event_driven_tests_ai.Report.{Report, pass}
use event_driven_tests_ai.Storage.{new_store, MemStore, Role, role_worker, role_viewer}
use event_driven_tests_ai.Storage.Interface.{Environment, mem_storage}
use event_driven_tests_ai.Storage.Scenarios.{upsert_scenario, get_scenario}
use event_driven_tests_ai.Storage.Tokens.{issue_locked, revoke_token}
use event_driven_tests_ai.Storage.Tokens.Agreeing.{Agrees}
use event_driven_tests_ai.Storage.Tokens.Laws.{issue_locked-Agrees, lookup_token-issue_locked_new}
use event_driven_tests_ai.Storage.Workers.{register_worker, list_assignments, added}
use event_driven_tests_ai.Api.{
  Reply, reply, failure, decoded, malformed, status_forbidden, status_unauthorized,
}
use event_driven_tests_ai.Api.Auth.{
  require_role, bearer, role_rank, require_role-issue_locked, require_role-revoke_token,
}
use event_driven_tests_ai.Api.Workers.{heartbeat_worker, assign_scenario}
use event_driven_tests_ai.Api.Scenarios.{
  Parsers, create_scenario, update_scenario, read_document, read_scenario_payload,
}
use event_driven_tests_ai.Api.Assigning.{beat_reply, heartbeat_worker-assign_scenario}
use event_driven_tests_ai.Api.Uploading.{labels_of, labels-update_scenario}

abbrev env : Environment ℕ
env = record {
  now = 5;
  first = "a";
  second = "b";
  fresh = "1";
  hash_token = λ x. x;
  ratio = λ p n. p;
}

abbrev empty : MemStore ℕ
empty = new_store ℕ

abbrev answer : Role → MemStore ℕ → Reply String × MemStore ℕ
answer role s = (reply 200 role, s)

clean : trim_space "secret" ≡ "secret"
unfolding trim_space
clean = refl

fresh_digest : lookup "secret" empty.tokens ≡ none
unfolding lookup
fresh_digest = refl

fresh_id : lookup "tok_1" empty.tokens_by_id ≡ none
unfolding lookup
fresh_id = refl

abbrev with_token : MemStore ℕ
with_token = (issue_locked env.hash_token "1" 5 "secret" role_worker "" empty).1

require_role-issue_locked_example :
    require_role (mem_storage env) role_viewer (bearer "secret") answer with_token ≡ (
      if ltb (role_rank role_worker) (role_rank role_viewer)
      then (failure status_forbidden "insufficient role: have worker, need viewer", with_token)
      else (reply 200 role_worker, with_token))
require_role-issue_locked_example =
    require_role-issue_locked env role_viewer role_worker "secret" "" answer empty clean refl
      fresh_digest

empty-Agrees : Agrees empty
unfolding lookup
empty-Agrees = record {
  kept = λ id d h. ground arith;
  by_id = λ id d t h. ground arith;
  by_digest = λ d t h. ground arith;
}

require_role-revoke_token_example :
    require_role
      (mem_storage env)
      role_viewer
      (bearer "secret")
      answer
      (revoke_token "tok_1" with_token).1
    ≡ (failure status_unauthorized "invalid token", (revoke_token "tok_1" with_token).1)
require_role-revoke_token_example =
    require_role-revoke_token env role_viewer "tok_1" "secret"
      (record { id = "tok_1"; plaintext = ""; role = role_worker; note = ""; created_at = 5 })
      answer with_token
      (issue_locked-Agrees env.hash_token "1" 5 "secret" role_worker "" empty fresh_id empty-Agrees)
      clean refl
      (lookup_token-issue_locked_new env.hash_token "1" 5 "secret" role_worker "" empty
        fresh_digest)
      refl

abbrev marshal : Value ℕ → Option String
marshal v = some "true"

abbrev result : CheckResult ℕ
result = record {
  name = "c";
  expr = "true";
  severity = "critical";
  window = "5m";
  passed = true;
  observed = some (bool true);
  err = "";
  at = 9;
}

abbrev watch_report : Report ℕ
watch_report = record {
  scenario = "s";
  run_id = "r";
  mode = "watch";
  started_at = 3;
  finished_at = 9;
  duration = 6;
  status = pass;
  exit_code = 0;
  checks = result ∷ [];
  event_count = 0;
  err = "";
}

abbrev staffed : MemStore ℕ
staffed = (register_worker "1" 4 [] "v1" (upsert_scenario 3 "a" "one" [] empty).1).1

heartbeat_worker-assign_scenario_example :
    (heartbeat_worker
      (mem_storage env)
      (λ t. "now")
      "w-1"
      (assign_scenario (mem_storage env) "w-1" (decoded "a") staffed).1).0
    ≡ beat_reply
        (λ t. "now")
        "w-1"
        (list_assignments "w-1" staffed
          ++ added
              (lookup "w-1" staffed.workers)
              (lookup "a" staffed.scenarios)
              (record { worker_id = "w-1"; scenario_name = "a"; assigned_at = 5 })
              "w-1")
        (lookup "w-1" staffed.workers)
heartbeat_worker-assign_scenario_example =
    heartbeat_worker-assign_scenario env (λ t. "now") "w-1" "a" "w-1" staffed

-- Parsers for which a document is its own name, with one label.
abbrev parsers : Parsers String
parsers = record {
  parse = λ yaml. decoded yaml;
  validate_yaml = λ yaml. none;
  metadata_name = λ d. d;
  metadata_labels = λ d. ("team", d) ∷ [];
  unmarshal_yaml = λ body. malformed "no json";
}

read_doc : read_document parsers (read_scenario_payload parsers "doc") ≡ decoded ("doc", "doc")
unfolding read_scenario_payload
read_doc = refl

labels-update_scenario_example :
    (labels_of (get_scenario "doc" (create_scenario parsers (mem_storage env) false "doc" empty).1)
      ≡ ("team", "doc") ∷ [])
    × (labels_of
          (get_scenario "doc" (update_scenario parsers (mem_storage env) "doc" "doc" empty).1)
        ≡ [])
labels-update_scenario_example =
    labels-update_scenario env parsers "doc" "doc" "doc" "doc" empty read_doc refl

abbrev eval_request : EvalRunRequest ℕ
eval_request = record {
  id = "e";
  scenario = "s";
  judge_model = "m";
  iterations = 3;
  started_at = 3;
  finished_at = 4;
  status = "pass";
  results = [];
}
