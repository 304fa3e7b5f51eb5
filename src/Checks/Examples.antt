-- ===== src/Checks/Examples.antt =====
-- Tests of pkg/checks and pkg/report, and the theorems at concrete checks and patterns.
use event_driven_tests_ai.Events.{Event, consumed}
use event_driven_tests_ai.Checks.Latency.{pairing, count, count_left, source, destination}
use event_driven_tests_ai.Checks.Latency.Pairing.{FitsPair, pairing-Outcome}
use event_driven_tests_ai.Common.{
  ◌≤◌, ◌+◌, map, All, [], List, ℕ, String, ◌∷◌, ◌++◌, ◌≡◌, refl, true, false, string_comparable,
  arith, ascii, if◌then◌else◌, ◌==◌,
}
use event_driven_tests_ai.Checks.Result.{
  any_critical_failed, is_critical, evaluate_all, Check, Outcome, value, error, bool, other,
  evaluate_one,
}
use event_driven_tests_ai.Report.{Report, pass, finalize, verdict, code_of, finalize-evaluate_all}
use event_driven_tests_ai.Checks.Glob.{glob_match, star}
use event_driven_tests_ai.Checks.Glob.Spec.{Matches}
use event_driven_tests_ai.Checks.Glob.Sound.{glob_match-Matches}
use event_driven_tests_ai.Checks.Glob.Complete.{glob_match_misses}

abbrev check : String → String → Check
check expr severity = record { name = expr; expr = expr; window = ""; severity = severity }

-- An evaluator that knows three expressions.
abbrev evaluate : String → Outcome ℕ
evaluate e =
    if e == "yes"
    then value (bool true)
    else if e == "no"
    then value (bool false)
    else if e == "3"
    then value (other 3)
    else error "undeclared"

warehouse : glob_match (ascii "/warehouse/*") (ascii "/warehouse/7") ≡ true
unfolding glob_match
warehouse = refl

anchored : glob_match (ascii "/a/*/b") (ascii "/x/a/1/b") ≡ false
unfolding glob_match
anchored = refl

glob_match-Matches_example : Matches (ascii "/a/*") (ascii "/a/7")
unfolding glob_match
glob_match-Matches_example = glob_match-Matches (ascii "/a/*") (ascii "/a/7") refl

glob_match_misses_example :
    Matches (star ∷ ascii "/status") (ascii "/status" ++ ascii "/status")
    × (glob_match (star ∷ ascii "/status") (ascii "/status" ++ ascii "/status") ≡ false)
glob_match_misses_example = glob_match_misses b'/' (ascii "status") (ground arith)

abbrev event : String → ℕ → Event ℕ
event key ts = record {
  stream = "s";
  key = key;
  ts = ts;
  headers = [];
  direction = consumed;
  payload = ts;
}

pairing-Outcome_example :
    let out = pairing (event "k" 1 ∷ event "j" 2 ∷ []) (event "k" 4 ∷ event "k" 0 ∷ []) in
    All FitsPair out.0
    × (count (λ e. true) (map destination out.0) + count_left (λ e. true) out.1 ≡ 2)
    × (count (λ e. true) (map source out.0) ≤ 2)
pairing-Outcome_example =
    pairing-Outcome (λ e. true) (event "k" 1 ∷ event "j" 2 ∷ []) (event "k" 4 ∷ event "k" 0 ∷ [])

abbrev checks : List Check
checks = check "yes" "critical" ∷ check "3" "" ∷ check "no" "critical" ∷ []

abbrev report : Report ℕ
report = record {
  scenario = "s";
  run_id = "r";
  mode = "run";
  started_at = 3;
  finished_at = 0;
  duration = 0;
  status = pass;
  exit_code = 0;
  checks = evaluate_all evaluate 7 checks;
  event_count = 0;
  err = "";
}

finalize_fails : (finalize 9 report).exit_code ≡ 1
unfolding finalize any_critical_failed evaluate_all evaluate_one is_critical
finalize_fails = refl

finalize-evaluate_all_example :
    ((finalize 9 report).status ≡ verdict evaluate 7 "" checks)
    × ((finalize 9 report).exit_code ≡ code_of (verdict evaluate 7 "" checks))
    × ((finalize 9 report).checks ≡ evaluate_all evaluate 7 checks)
finalize-evaluate_all_example = finalize-evaluate_all evaluate 7 9 report checks refl
