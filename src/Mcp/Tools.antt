-- ===== src/Mcp/Tools.antt =====
-- The tools: `invoke` of mcp.go, over any `Storage`.
use Prim.Native.String.{◌++◌ as str_append}
use event_driven_tests_ai.Common.{
  ℕ, String, List, if◌then◌else◌, ◌==◌, ◌&&◌, ◌||◌, not, string_comparable, Bool, Option, none,
  some, ltb,
}
use event_driven_tests_ai.Common.Int.{ℤ, pos, non_positive, pos_part}
use event_driven_tests_ai.Json.{Json, Fields}
use event_driven_tests_ai.Storage.{
  Result, ok, err, StorageError, not_found, message, Scenario, Run, CheckRow,
}
use event_driven_tests_ai.Storage.Interface.{Storage}
use event_driven_tests_ai.Mcp.{
  Arg, argument, as_string, as_int, as_labels, members, ToolAnswer, scenarios, scenario, runs,
  run_with_checks, slo, workers, assigned, ToolError, forbidden, missing, internal, Answer,
  answered, refused,
}

abbrev pub tool_error : StorageError → ToolError
tool_error not_found = missing
tool_error (message m) = internal m

abbrev pub answer_of : {F A : Type 0} → (A → ToolAnswer F) → Result A → Answer F
answer_of f (ok a) = answered (f a)
answer_of f (err e) = refused (tool_error e)

-- A limit that is not between 1 and 1000 counts as 50.
abbrev pub run_limit : ℤ → ℤ
run_limit n = if non_positive n || ltb 1000 (pos_part n) then pos 50 else n

abbrev hour : ℕ
hour = 3600000000000

abbrev slo_window : Option ℕ → ℕ
slo_window none = hour
slo_window (some d) = d

abbrev malformed_arguments : String
malformed_arguments = "json: cannot unmarshal the arguments"

abbrev pub denied : {F : Type 0} → String → Answer F
denied tool = refused (
    forbidden (
      str_append "writes disabled: tool "
        (str_append tool " requires a WritePolicy that permits it")))

abbrev pub pair_answer : {F : Type 0} → Run × List CheckRow → ToolAnswer F
pair_answer (r, rows) = run_with_checks r rows

abbrev after_upsert : {F S : Type 0} → Result Scenario × S → Answer F × S
after_upsert (r, s) = (answer_of scenario r, s)

abbrev after_assign : {F S : Type 0} → String → String → Result (Unit {0}) × S → Answer F × S
after_assign worker name (r, s) = (answer_of (λ u. assigned worker name) r, s)

abbrev pub string_of : {G : Type 0} → String → Arg (Fields G) → Arg String
string_of name args = as_string (argument name args.value)

-- `allows` is the write policy, on the name of the tool; `parse_duration` is `time.ParseDuration`,
-- with 0 for a negative duration: no run is in either window.
module _ {F G S : Type 0} (storage : Storage F S) (parse_duration : String → Option ℕ)
    (allows : String → Bool) where
  -- `struct{ RunID string }` has no tag, so a key stands for it that reads RunID.
  abbrev pub invoke_get_run : Arg (Fields G) → S → Answer F
  invoke_get_run args s =
      let id = string_of "RunID" args in
      if args.well && id.well
      then answer_of pair_answer (storage.get_run id.value s)
      else refused (internal malformed_arguments)

  abbrev pub invoke_list_runs : Arg (Fields G) → S → Answer F
  invoke_list_runs args s = answer_of runs (
      storage.list_runs (string_of "Scenario" args).value
        (run_limit (as_int (argument "Limit" args.value)).value) s)

  abbrev pub invoke_slo : Arg (Fields G) → S → Answer F
  invoke_slo args s =
      let name = (string_of "Name" args).value in
      let window = (string_of "Window" args).value in
      let w = if window == "" then hour else slo_window (parse_duration window) in
      answer_of (slo name w) (storage.slo_pass_rate name w s)

  abbrev pub invoke_upsert : Arg (Fields G) → S → Answer F × S
  invoke_upsert args s =
      let name = string_of "name" args in
      let yaml = string_of "yaml" args in
      let labels = as_labels (argument "labels" args.value) in
      if not (args.well && name.well && yaml.well && labels.well)
      then (refused (internal malformed_arguments), s)
      else if name.value == "" || yaml.value == ""
      then (refused (internal "upsert_scenario: name and yaml are required"), s)
      else after_upsert (storage.upsert_scenario name.value yaml.value labels.value s)

  abbrev pub invoke_assign : Arg (Fields G) → S → Answer F × S
  invoke_assign args s =
      let worker = string_of "worker_id" args in
      let name = string_of "scenario_name" args in
      if not (args.well && worker.well && name.well)
      then (refused (internal malformed_arguments), s)
      else if worker.value == "" || name.value == ""
      then (refused (internal "assign_scenario: worker_id and scenario_name are required"), s)
      else after_assign worker.value name.value (storage.assign_scenario worker.value name.value s)

  -- A tool and its arguments, which may be left out.
  unfoldable pub invoke : String → Option (Json G) → S → Answer F × S
  invoke tool arguments s =
      let args = members arguments in
      if tool == "list_scenarios"
      then (answer_of scenarios (storage.list_scenarios s), s)
      else if tool == "get_scenario"
      then (answer_of scenario (storage.get_scenario (string_of "Name" args).value s), s)
      else if tool == "list_runs"
      then (invoke_list_runs args s, s)
      else if tool == "get_run"
      then (invoke_get_run args s, s)
      else if tool == "scenario_slo"
      then (invoke_slo args s, s)
      else if tool == "list_workers"
      then (answer_of workers (storage.list_workers s), s)
      else if tool == "upsert_scenario"
      then (if allows tool then invoke_upsert args s else (denied tool, s))
      else if tool == "assign_scenario"
      then (if allows tool then invoke_assign args s else (denied tool, s))
      else (refused (internal (str_append "unknown tool: " tool)), s)
