-- ===== src/Checks/Result.antt =====
-- pkg/checks/check.go and result.go: each check becomes a result, and some results are critical
-- failures.
use event_driven_tests_ai.Common.{
  String, List, [], ◌∷◌, arith, if◌then◌else◌, ◌==◌, string_comparable, ◌≡◌, refl, Bool, false, not,
  ◌&&◌, ◌||◌, any, Option, none, some, eq_iff,
}
use event_driven_tests_ai.Events.{Time}

-- `scenario.Severity` is a string with three named values.
abbrev pub severity_critical : String
severity_critical = "critical"

abbrev pub severity_warning : String
severity_warning = "warning"

-- `scenario.Check`
pub record Check : Type 0 where
  pub name : String
  pub expr : String
  pub window : String
  pub severity : String

-- What CEL returns: a Go value, which the code only asks whether it is a `bool`.
pub data Value {ℓ} (V : Type ℓ) : Type ℓ where
  bool : Bool → Value V
  other : V → Value V

pub data Outcome {ℓ} (V : Type ℓ) : Type ℓ where
  value : Value V → Outcome V
  error : String → Outcome V

pub record CheckResult {ℓ} (V : Type ℓ) : Type ℓ where
  pub name : String
  pub expr : String
  pub severity : String
  pub window : String
  pub passed : Bool
  pub observed : Option (Value V)
  pub err : String
  pub at : Time

module _ {ℓ} {V : Type ℓ} where
  unfoldable pub failed : CheckResult V → Bool
  failed r = not r.passed || not (r.err == "")

  unfoldable pub is_critical : CheckResult V → Bool
  unfolding failed
  is_critical r = failed r && r.severity == severity_critical

  unfoldable pub any_critical_failed : List (CheckResult V) → Bool
  any_critical_failed rs = any is_critical rs

-- A check that names no severity is a warning.
unfoldable pub effective_severity : Check → String
effective_severity c = if c.severity == "" then severity_warning else c.severity

-- `Evaluator.Evaluate` compiles and runs a CEL expression over the event store; it and the clock
-- are parameters.
module _ {ℓ} {V : Type ℓ} (evaluate : String → Outcome V) (now : Time) where
  conclude : CheckResult V → Outcome V → CheckResult V
  conclude r (error e) = record r { err = e }
  conclude r (value (other v)) = record r {
    observed = some (other v);
    err = "check expression must return bool";
  }
  conclude r (value (bool b)) = record r { observed = some (bool b); passed = b }

  unfoldable pub evaluate_one : Check → CheckResult V
  unfolding effective_severity conclude
  evaluate_one c =
      let r : CheckResult V = record {
        name = c.name;
        expr = c.expr;
        severity = effective_severity c;
        window = c.window;
        passed = false;
        observed = none;
        err = "";
        at = now;
      } in
      conclude r (evaluate c.expr)

  unfoldable pub evaluate_all : List Check → List (CheckResult V)
  evaluate_all [] = []
  evaluate_all (c ∷ cs) = evaluate_one c ∷ evaluate_all cs

  -- Whether the evaluator says `true`.
  abbrev pub holds : Outcome V → Bool
  holds (value (bool b)) = b
  holds _ = false

  conclude-failed :
      (r : CheckResult V) (o : Outcome V)
      → r.passed ≡ false
      → r.err ≡ ""
      → failed (conclude r o) ≡ not (holds o)
  unfolding failed conclude
  conclude-failed r (value (bool b)) p e = rw e (ground (arith, eq_iff "" ""))
  conclude-failed r (value (other v)) p e = rw p
  conclude-failed r (error m) p e = rw p

  severity-conclude : (r : CheckResult V) (o : Outcome V) → (conclude r o).severity ≡ r.severity
  unfolding conclude
  severity-conclude r (value (bool b)) = refl
  severity-conclude r (value (other v)) = refl
  severity-conclude r (error m) = refl

  -- The result of a check counts as failed exactly when its expression did not evaluate to true:
  -- an error, a value that is no bool and `false` all fail it.
  pub failed-evaluate_one : (c : Check) → failed (evaluate_one c) ≡ not (holds (evaluate c.expr))
  unfolding evaluate_one
  failed-evaluate_one c = conclude-failed _ (evaluate c.expr) refl refl

  pub severity-evaluate_one : (c : Check) → (evaluate_one c).severity ≡ effective_severity c
  unfolding evaluate_one
  severity-evaluate_one c = severity-conclude _ (evaluate c.expr)

  -- The critical checks that do not hold.
  abbrev pub breaks : Check → Bool
  breaks c = not (holds (evaluate c.expr)) && effective_severity c == severity_critical

  pub is_critical-evaluate_one : (c : Check) → is_critical (evaluate_one c) ≡ breaks c
  unfolding is_critical
  is_critical-evaluate_one c = rw (failed-evaluate_one c, severity-evaluate_one c)

  -- Over all results of a list of checks, a critical failure is there exactly when some check of
  -- severity critical does not evaluate to true; a check with no severity is a warning.
  pub any_critical_failed-evaluate_all :
      (cs : List Check) → any_critical_failed (evaluate_all cs) ≡ any breaks cs
  unfolding any_critical_failed evaluate_all
  any_critical_failed-evaluate_all [] = refl
  any_critical_failed-evaluate_all (c ∷ cs) =
      rw (is_critical-evaluate_one c, any_critical_failed-evaluate_all cs)
