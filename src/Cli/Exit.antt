-- ===== src/Cli/Exit.antt =====
-- Which exit code the command that runs a scenario ends with.
use event_driven_tests_ai.Common.{
  ℕ, length, String, List, [], ◌∷◌, if◌then◌else◌, ◌==◌, string_comparable, Bool, true, false,
  Option, none, ◌≡◌, refl, ap, ◌∙◌,
}
use event_driven_tests_ai.Checks.Result.{Check, Outcome, any_critical_failed}
use event_driven_tests_ai.Json.{Json}
use event_driven_tests_ai.Report.{
  Report, Status, pass, fail, error, unset, finalize, code_of, verdict, finalize-evaluate_all,
}
use event_driven_tests_ai.Orchestrator.{State, StepResult, passed, failed}
use event_driven_tests_ai.Orchestrator.Runner.{Library, Answer, answered, refused}
use event_driven_tests_ai.Api.{decoded}
use event_driven_tests_ai.Api.Scenarios.{Parsers}
use event_driven_tests_ai.Api.Adhoc.{Plan, Outside}
use event_driven_tests_ai.Api.Adhoc.Verdict.{HasStatus, finalize-error, starts_not_empty}
use event_driven_tests_ai.Cli.Host.{expand_host_env}
use event_driven_tests_ai.Cli.{
  RunFlags, CommandError, process_code, write, write_and_exit, exit_of, run_steps, run_report,
  new_report, pushed, clients, do_run, with_checks,
}

module _ {F V : Type 0} (lib : Library F) (out : Outside F V) where
  -- Checks that cannot be evaluated do not count.
  abbrev pub checked : Answer (String → Outcome V) → List Check → Status
  checked (refused e) cs = pass
  checked (answered evaluate) cs = verdict evaluate out.now "" cs

  abbrev pub steps_status : StepResult × State (Json F) → List Check → Status
  steps_status (failed e, s) cs = error
  steps_status (passed, s) cs = checked (out.new_evaluator s.store) cs

  -- A client that cannot be had leaves the report as it is at the start.
  abbrev pub client_status : Answer (Unit {0}) → Status → Status
  client_status (refused e) st = unset
  client_status (answered u) st = st

  abbrev pub run_status : Plan F → Status
  run_status plan =
      let st = steps_status (run_steps lib out plan) plan.checks in
      if plan.has_kafka then client_status out.kafka_client st else st

  abbrev pub client_pushes : Answer (Unit {0}) → ℕ → ℕ
  client_pushes (refused e) n = 0
  client_pushes (answered u) n = n

  -- How many reports are pushed.
  abbrev pub pushes : RunFlags → Plan F → ℕ
  pushes f plan =
      let n = if f.report_to == "" then 0 else 1 in
      if plan.has_kafka then client_pushes out.kafka_client n else n

  err-with_checks :
      (a : Answer (String → Outcome V)) (cs : List Check) (rep : Report V)
      → (with_checks lib out a cs rep).err ≡ rep.err
  err-with_checks (refused e) cs rep = refl
  err-with_checks (answered evaluate) cs rep = refl

  finalize-with_checks :
      (a : Answer (String → Outcome V)) (cs : List Check) (s : State (Json F)) (name : String)
      → HasStatus (checked a cs) (
          finalize out.now (record (with_checks lib out a cs (new_report lib out name)) {
            event_count = s.store.total;
          }))
  unfolding finalize any_critical_failed
  finalize-with_checks (refused e) cs s name = (refl, refl)
  finalize-with_checks (answered evaluate) cs s name =
      let r = record (with_checks lib out (answered evaluate) cs (new_report lib out name)) {
        event_count = s.store.total;
      } in
      let v = finalize-evaluate_all evaluate out.now out.now r cs refl in (v.0, v.1)

  run_report-HasStatus :
      (plan : Plan F) (x : StepResult × State (Json F)) (name : String)
      → HasStatus (steps_status x plan.checks) (run_report lib out plan x (new_report lib out name))
  run_report-HasStatus plan (failed e, s) name = finalize-error out.now _ (
      ap (λ u. u == "") (err-with_checks (out.new_evaluator s.store) plan.checks _)
      ∙ starts_not_empty (out.describe e))
  run_report-HasStatus plan (passed, s) name =
      finalize-with_checks (out.new_evaluator s.store) plan.checks s name

module _ {V : Type 0} where
  abbrev pub AllHaveStatus : Status → List (Report V) → Type 0
  AllHaveStatus st [] = Unit
  AllHaveStatus st (r ∷ rs) = HasStatus st r × AllHaveStatus st rs

  -- The exit code is that of the status, and so many reports are pushed, with that status.
  pub record Exits (st : Status) (n : ℕ) (x : Option CommandError × List (Report V)) : Type 0 where
    pub code : process_code x.0 ≡ code_of st
    pub pushes : length x.1 ≡ n
    pub of_status : AllHaveStatus st x.1

  if-Exits :
      (b : Bool) (x y : Option CommandError × List (Report V)) (s t : Status) (m n : ℕ)
      → Exits s m x
      → Exits t n y
      → Exits (if b then s else t) (if b then m else n) (if b then x else y)
  if-Exits true x y s t m n h k = h
  if-Exits false x y s t m n h k = k

  if-AllHaveStatus :
      (b : Bool) (st : Status) (rep : Report V)
      → HasStatus st rep
      → AllHaveStatus st (if b then [] else rep ∷ [])
  if-AllHaveStatus true st rep h = tt
  if-AllHaveStatus false st rep h = (h, tt)

  length-if :
      (b : Bool) (rep : Report V) → length (if b then [] else rep ∷ []) ≡ (if b then 0 else 1)
  length-if true rep = refl
  length-if false rep = refl

  module _ (write_json write_console : Report V → Option String) where
    exit_of-code_of :
        (st : Status) (rep : Report V)
        → rep.exit_code ≡ code_of st
        → process_code (exit_of write_json write_console none rep) ≡ code_of st
    unfolding process_code
    exit_of-code_of pass rep h = rw h refl
    exit_of-code_of fail rep h = rw h refl
    exit_of-code_of error rep h = rw h refl
    exit_of-code_of unset rep h = rw h refl

    write_and_exit-code_of :
        (st : Status) (rep : Report V) (format : String)
        → write write_json write_console format rep ≡ none
        → rep.exit_code ≡ code_of st
        → process_code (write_and_exit write_json write_console rep format) ≡ code_of st
    unfolding write_and_exit
    write_and_exit-code_of st rep format w h = rw w (exit_of-code_of st rep h)

module _ {F V D : Type 0} (lib : Library F) (out : Outside F V)
    (write_json write_console : Report V → Option String) (f : RunFlags) (p : Parsers D)
    (plan : D → Plan F) (getenv : String → String)
    (prints : (rep : Report V) → write write_json write_console f.format rep ≡ none) where
  abbrev asked : ℕ
  asked = if f.report_to == "" then 0 else 1

  finished-Exits :
      (pl : Plan F) (name : String)
      → Exits (steps_status lib out (run_steps lib out pl) pl.checks) asked (
        write_and_exit write_json write_console
            (run_report lib out pl (run_steps lib out pl) (new_report lib out name))
            f.format,
        pushed lib out write_json write_console f
            (run_report lib out pl (run_steps lib out pl) (new_report lib out name)),
      )
  finished-Exits pl name =
      let st = steps_status lib out (run_steps lib out pl) pl.checks in
      let rep = run_report lib out pl (run_steps lib out pl) (new_report lib out name) in
      let h = run_report-HasStatus lib out pl (run_steps lib out pl) name in
      record {
        code = write_and_exit-code_of write_json write_console st rep f.format (prints rep) h.1;
        pushes = length-if (f.report_to == "") rep;
        of_status = if-AllHaveStatus (f.report_to == "") st rep h;
      }

  clients-Exits :
      (a : Answer (Unit {0})) (pl : Plan F) (name : String)
      → Exits
          (client_status lib out a (steps_status lib out (run_steps lib out pl) pl.checks))
          (client_pushes lib out a asked)
          (clients lib out write_json write_console f a pl (new_report lib out name))
  clients-Exits (refused e) pl name = record {
    code = write_and_exit-code_of write_json write_console unset _ f.format (prints _) refl;
    pushes = refl;
    of_status = tt;
  }
  clients-Exits (answered u) pl name = finished-Exits pl name

  -- A run of a file whose expanded text parses and validates, with printers that do not fail. When
  -- the Kafka client cannot be had, it exits with 0 and pushes no report. Else it exits with 2 when
  -- a step fails, else with 1 when the checks can be evaluated and a critical one does not evaluate
  -- to true, and else with 0; and it pushes one report, of the same status and exit code, if the flag
  -- names a control plane, and none if not.
  pub do_run-Exits :
      (raw : String) (d : D)
      → p.parse (expand_host_env getenv raw) ≡ decoded d
      → p.validate_yaml (expand_host_env getenv raw) ≡ none
      → Exits
          (run_status lib out (plan d))
          (pushes lib out f (plan d))
          (do_run lib out write_json write_console f p plan getenv (answered raw))
  unfolding do_run
  do_run-Exits raw d parses valid =
      let pl = plan d in
      let name = p.metadata_name d in
      let st = steps_status lib out (run_steps lib out pl) pl.checks in
      rw (parses, valid)
        (if-Exits pl.has_kafka _ _ (client_status lib out out.kafka_client st) st
          (client_pushes lib out out.kafka_client asked) asked
          (clients-Exits out.kafka_client pl name) (finished-Exits pl name))
