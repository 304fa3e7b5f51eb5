-- ===== src/Api/Adhoc/Verdict.antt =====
-- The verdict of an ad-hoc run, and what is stored of it.
use Prim.Native.String.{◌++◌ as str_append}
use Prim.Native.String.append.{cons}
use event_driven_tests_ai.Common.{
  String, List, [], map, if◌then◌else◌, ◌==◌, ◌≡◌, refl, ap, ◌∙◌, string_comparable, Bool, true,
  false, Option, arith,
}
use event_driven_tests_ai.Common.Text.{cons_not_empty}
use event_driven_tests_ai.Checks.Result.{
  evaluate_all, CheckResult, Check, Value, Outcome, any_critical_failed,
}
use event_driven_tests_ai.Events.{Time}
use event_driven_tests_ai.Json.{Json}
use event_driven_tests_ai.Report.{
  Report, Status, pass, error, finalize, code_of, verdict, finalize-evaluate_all,
}
use event_driven_tests_ai.Storage.{ok, MemStore}
use event_driven_tests_ai.Storage.Interface.{Environment, mem_storage}
use event_driven_tests_ai.Storage.Runs.{with_run_id, get_run}
use event_driven_tests_ai.Orchestrator.{State, StepError, StepResult, passed, failed}
use event_driven_tests_ai.Orchestrator.Runner.{Library, Answer, answered, refused}
use event_driven_tests_ai.Api.Scenarios.{Parsers}
use event_driven_tests_ai.Api.Runs.{run_of, row_of}
use event_driven_tests_ai.Api.Adhoc.{
  Plan, Outside, with_client, execute_adhoc, run_plan, after_run, adhoc_report, adhoc_run_id,
  step_error_text, adhoc_name, eval_checks,
}

pub starts_not_empty : (t : String) → (str_append "step " t == "") ≡ false
starts_not_empty t = ap (λ u. u == "") (cons "s" "tep " t) ∙ cons_not_empty "s" _

check_not_empty : (t : String) → (str_append "check evaluator: " t == "") ≡ false
check_not_empty t = ap (λ u. u == "") (cons "c" "heck evaluator: " t) ∙ cons_not_empty "c" _

-- What a report says of a run.
pub record Judgement (V : Type 0) : Type 0 where
  pub status : Status
  pub err : String
  pub checks : List (CheckResult V)

module _ {V : Type 0} where
  -- The status and the exit code.
  abbrev pub HasStatus : Status → Report V → Type 0
  HasStatus st rep = (rep.status ≡ st) × (rep.exit_code ≡ code_of st)

  pub record IsJudged (j : Judgement V) (rep : Report V) : Type 0 where
    pub status : rep.status ≡ j.status
    pub exit_code : rep.exit_code ≡ code_of j.status
    pub err : rep.err ≡ j.err
    pub checks : rep.checks ≡ j.checks

  pub finalize-error :
      (now : Time) (rep : Report V) → (rep.err == "") ≡ false → HasStatus error (finalize now rep)
  unfolding finalize
  finalize-error now rep h = rw h (refl, refl)

  if-IsJudged :
      (b : Bool) (x y : Report V × Option String) (i j : Judgement V)
      → IsJudged i x.0
      → IsJudged j y.0
      → IsJudged (if b then i else j) (if b then x else y).0
  if-IsJudged true x y i j h k = h
  if-IsJudged false x y i j h k = k

  -- A report is finalized without a change to its error and its checks.
  kept-finalize :
      (now : Time) (rep : Report V)
      → ((finalize now rep).err ≡ rep.err) × ((finalize now rep).checks ≡ rep.checks)
  unfolding finalize
  kept-finalize now rep = (ground arith, ground arith)

  finalize-IsJudged :
      (now : Time) (rep : Report V)
      → (rep.err == "") ≡ false
      → IsJudged (record { status = error; err = rep.err; checks = rep.checks }) (finalize now rep)
  finalize-IsJudged now rep h =
      let s = finalize-error now rep h in
      let k = kept-finalize now rep in
      record { status = s.0; exit_code = s.1; err = k.0; checks = k.1 }

module _ {F V : Type 0} (lib : Library F) (out : Outside F V) where
  -- The judgement that a run deserves, from how its steps ended and from the evaluator over its
  -- events. Checks that cannot be evaluated make it an error, and their error is the one that shows.
  abbrev pub judged : StepResult → Answer (String → Outcome V) → List Check → Judgement V
  judged r (refused e) cs = record {
    status = error;
    err = str_append "check evaluator: " e;
    checks = [];
  }
  judged (failed e) (answered evaluate) cs = record {
    status = error;
    err = str_append "step " (out.describe e);
    checks = evaluate_all evaluate out.now cs;
  }
  judged passed (answered evaluate) cs = record {
    status = verdict evaluate out.now "" cs;
    err = "";
    checks = evaluate_all evaluate out.now cs;
  }

  -- A client that cannot be had is no failure of the verdict.
  abbrev pub client_judged : Answer (Unit {0}) → Judgement V → Judgement V
  client_judged (refused e) j = record {
    status = pass;
    err = str_append "kafka client: " e;
    checks = [];
  }
  client_judged (answered u) j = j

  abbrev pub run_judged : Plan F → Judgement V
  run_judged plan =
      let (r, s) = run_plan lib out plan in judged r (out.new_evaluator s.store) plan.checks

  abbrev pub adhoc_judged : Plan F → Judgement V
  adhoc_judged plan =
      if plan.has_kafka then client_judged out.kafka_client (run_judged plan) else run_judged plan

  eval_checks-IsJudged :
      (a : Answer (String → Outcome V)) (cs : List Check) (s : State (Json F)) (e : StepError)
      (rep : Report V)
      → HasStatus error rep
      → rep.err ≡ str_append "step " (out.describe e)
      → rep.checks ≡ []
      → IsJudged (judged (failed e) a cs) (eval_checks lib out a cs s.store rep)
  eval_checks-IsJudged (refused x) cs s e rep h k c = record {
    status = h.0;
    exit_code = h.1;
    err = refl;
    checks = c;
  }
  eval_checks-IsJudged (answered ev) cs s e rep h k c = record {
    status = h.0;
    exit_code = h.1;
    err = k;
    checks = refl;
  }

  finalize-eval_checks :
      (a : Answer (String → Outcome V)) (cs : List Check) (s : State (Json F)) (rep : Report V)
      → rep.err ≡ ""
      → rep.checks ≡ []
      → IsJudged (judged passed a cs) (finalize out.now (eval_checks lib out a cs s.store rep))
  finalize-eval_checks (refused e) cs s rep h c =
      let r = eval_checks lib out (refused e) cs s.store rep in
      let j = finalize-IsJudged out.now r (check_not_empty e) in
      record { status = j.status; exit_code = j.exit_code; err = j.err; checks = j.checks ∙ c }
  finalize-eval_checks (answered ev) cs s rep h c =
      let r = eval_checks lib out (answered ev) cs s.store rep in
      let v = finalize-evaluate_all ev out.now out.now r cs refl in
      let k = kept-finalize out.now r in
      record {
        status = v.0 ∙ ap (λ e. verdict ev out.now e cs) h;
        exit_code = v.1 ∙ ap (λ e. code_of (verdict ev out.now e cs)) h;
        err = k.0 ∙ h;
        checks = k.1;
      }

  after_run-IsJudged :
      (x : StepResult × State (Json F)) (cs : List Check) (name : String)
      → IsJudged
          (judged x.0 (out.new_evaluator x.1.store) cs)
          (after_run lib out cs x (adhoc_report lib out name)).0
  after_run-IsJudged (failed e, s) cs name =
      let r = record (adhoc_report lib out name) {
        err = step_error_text lib out e;
        exit_code = 2;
      } in
      let k = kept-finalize out.now r in
      eval_checks-IsJudged (out.new_evaluator s.store) cs s e (finalize out.now r)
        (finalize-error out.now r (starts_not_empty (out.describe e))) k.0 k.1
  after_run-IsJudged (passed, s) cs name =
      finalize-eval_checks (out.new_evaluator s.store) cs s (adhoc_report lib out name) refl refl

  with_client-IsJudged :
      (a : Answer (Unit {0})) (plan : Plan F) (name : String)
      → IsJudged
          (client_judged a (run_judged plan))
          (with_client lib out a plan (adhoc_report lib out name)).0
  unfolding finalize any_critical_failed
  with_client-IsJudged (refused e) plan name = record {
    status = refl;
    exit_code = refl;
    err = refl;
    checks = refl;
  }
  with_client-IsJudged (answered u) plan name =
      after_run-IsJudged (run_plan lib out plan) plan.checks name

  -- The verdict of an ad-hoc run. A run whose Kafka client cannot be had passes with exit code 0 and
  -- no checks, although its report has the client's error as its text. Any other run is an error with
  -- exit code 2 when a step fails or the checks cannot be set up over the events of the run, with the
  -- text of that error, the one of the checks if there are both; else it fails with 1 when a critical
  -- check does not evaluate to true over them, and else passes with 0, and has no text. The results
  -- of the checks over the events are in the report, also when a step failed, unless the checks
  -- cannot be set up.
  pub execute_adhoc-IsJudged :
      (plan : Plan F) (name : String)
      → IsJudged (adhoc_judged plan) (execute_adhoc lib out plan name).0
  unfolding execute_adhoc
  execute_adhoc-IsJudged plan name =
      if-IsJudged plan.has_kafka
        (with_client lib out out.kafka_client plan (adhoc_report lib out name))
        (after_run lib out plan.checks (run_plan lib out plan) (adhoc_report lib out name))
        (client_judged out.kafka_client (run_judged plan)) (run_judged plan)
        (with_client-IsJudged out.kafka_client plan name)
        (after_run-IsJudged (run_plan lib out plan) plan.checks name)

module _ {F V D G : Type 0} (lib : Library F) (out : Outside F V) (p : Parsers D)
    (plan : D → Plan F) (env : Environment G) (marshal : Value V → Option String)
    (json_report : Report V → Option String) where
  -- The run that a request for a document leaves in the store.
  abbrev pub adhoc_run : D → Report V
  adhoc_run d =
      (execute_adhoc lib out (plan d)
        (adhoc_name lib out p plan (mem_storage env) marshal json_report (p.metadata_name d))).0

  pub record IsStored (d : D) (rep_text : String) (s t : MemStore G) : Type 0 where
    pub own :
        get_run (adhoc_run_id lib out) t
        ≡ ok (
          run_of marshal (adhoc_run d) rep_text,
          map
              (with_run_id (adhoc_run_id lib out))
              (map (row_of marshal) (adhoc_judged lib out (plan d)).checks),
        )
    pub judged : IsJudged (adhoc_judged lib out (plan d)) (adhoc_run d)
    pub others : (id : String) → (adhoc_run_id lib out == id) ≡ false → get_run id t ≡ get_run id s
