-- ===== src/Api/Runs.antt =====
-- pkg/controlplane/api/runs.go: taking in the report of a run, and reading runs and pass rates.
use Prim.Native.String.{◌++◌ as str_append}
use event_driven_tests_ai.Common.{
  ℕ, String, List, [], ◌∷◌, map, if◌then◌else◌, ◌==◌, ◌&&◌, ◌||◌, not, string_comparable, Bool,
  true, false, Option, none, some, nat_beq, ltb, leb,
}
use event_driven_tests_ai.Common.Dict.{Dict}
use event_driven_tests_ai.Common.Int.{ℤ, pos, negsuc}
use event_driven_tests_ai.Checks.Result.{CheckResult, Value}
use event_driven_tests_ai.Report.{Report, Status, pass, fail, error, unset}
use event_driven_tests_ai.Storage.{Result, ok, err, Run, CheckRow, CheckSample}
use event_driven_tests_ai.Storage.Interface.{Storage}
use event_driven_tests_ai.Api.{
  Reply, reply, failure, internal_failure, Decoded, decoded, malformed, status_ok, status_created,
  status_bad_request,
}
use event_driven_tests_ai.Api.Scenarios.{hour}

-- The strings that the statuses stand for.
abbrev pub status_text : Status → String
status_text pass = "pass"
status_text fail = "fail"
status_text error = "error"
status_text unset = ""

abbrev pub is_empty : {A : Type 0} → List A → Bool
is_empty [] = true
is_empty (x ∷ xs) = false

module _ {V : Type 0} (marshal : Value V → Option String) where
  abbrev encoded : Option (Value V) → String
  encoded none = ""
  encoded (some v) = elim (marshal v) [ none ↦ "" | some text ↦ text ]

  -- `encodeCheckValue`
  abbrev pub encode_check_value : CheckResult V → String
  encode_check_value c = encoded c.observed

  abbrev pub run_of : Report V → String → Run
  run_of rep body = record {
    id = rep.run_id;
    scenario = rep.scenario;
    mode = rep.mode;
    status = status_text rep.status;
    exit_code = rep.exit_code;
    started_at = rep.started_at;
    finished_at = rep.finished_at;
    duration = rep.duration;
    report = body;
  }

  abbrev pub row_of : CheckResult V → CheckRow
  row_of c = record {
    run_id = "";
    name = c.name;
    severity = c.severity;
    window = c.window;
    passed = c.passed;
    value = encode_check_value c;
    err = c.err;
    at = c.at;
  }

  abbrev pub sample_of : String → CheckResult V → CheckSample
  sample_of scenario c = record {
    scenario = scenario;
    check = c.name;
    ts = c.at;
    passed = c.passed;
    value = encode_check_value c;
    severity = c.severity;
    window = c.window;
  }

  module _ {F S : Type 0} (storage : Storage F S) where
    -- Only a watch leaves samples. What storing them answers is not looked at.
    abbrev pub keep_samples : Report V → S → S
    keep_samples rep s =
        if rep.mode == "watch" && not (is_empty rep.checks)
        then (storage.append_check_samples (map (sample_of rep.scenario) rep.checks) s).1
        else s

    -- The reply, the next state and the reports that the metrics observed.
    abbrev ingested : Report V → Result (Unit {0}) × S → Reply (Report V) × S × List (Report V)
    ingested rep (err e, s) = (internal_failure e, s, [])
    ingested rep (ok u, s) = (reply status_created rep, keep_samples rep s, rep ∷ [])

    -- The reply shows the run id, the scenario and the status of the report.
    unfoldable pub ingest_run :
        String → Decoded (Report V) → S → Reply (Report V) × S × List (Report V)
    ingest_run body (malformed e) s =
        (failure status_bad_request (str_append "invalid report json: " e), s, [])
    ingest_run body (decoded rep) s =
        if rep.scenario == "" || rep.run_id == ""
        then (failure status_bad_request "scenario and run_id are required", s, [])
        else ingested rep (storage.record_run (run_of rep body) (map row_of rep.checks) s)

-- `atoi` is `strconv.Atoi` on the query's `limit`.
abbrev pub limit_of : Option ℤ → ℤ
limit_of none = pos 50
limit_of (some (negsuc n)) = pos 50
limit_of (some (pos n)) = if ltb 0 n && leb n 1000 then pos n else pos 50

abbrev runs_reply : Result (List Run) → Reply (List Run)
runs_reply (err e) = internal_failure e
runs_reply (ok rs) = reply status_ok rs

unfoldable pub list_runs :
    {F S : Type 0} → Storage F S → (String → Option ℤ) → String → String → S → Reply (List Run)
list_runs storage atoi scenario limit s =
    runs_reply
      (storage.list_runs scenario (if limit == "" then pos 50 else limit_of (atoi limit)) s)

pub record SloResponse (F : Type 0) : Type 0 where
  pub scenario : String
  pub window : ℕ
  pub pass_rates : Dict String F

abbrev slo_reply : {F : Type 0} → String → ℕ → Result (Dict String F) → Reply (SloResponse F)
slo_reply name window (err e) = internal_failure e
slo_reply name window (ok rates) =
    reply status_ok (record { scenario = name; window = window; pass_rates = rates })

abbrev slo_window : Decoded ℕ → ℕ
slo_window (malformed e) = hour
slo_window (decoded d) = if nat_beq d 0 then hour else d

-- `parse_duration` as for `computeSince`.
unfoldable pub scenario_slo :
    {F S : Type 0}
    → Storage F S
    → (String → Decoded ℕ)
    → String
    → String
    → S
    → Reply (SloResponse F)
scenario_slo storage parse_duration name window s =
    let w = if window == "" then hour else slo_window (parse_duration window) in
    slo_reply name w (storage.slo_pass_rate name w s)
