-- ===== src/Eval.antt =====
-- pkg/eval: scoring the answers of an agent by a judge. A `float64` is of a type `F` with the
-- operations that the code uses; what the judge answers is a score.
pub mod Aggregate
pub mod Words
pub mod Executor
pub mod Verdict
pub mod Matching
pub mod Rounds
mod Examples
use event_driven_tests_ai.Common.{ℕ, String, Bool, Option}

-- The operations on `float64`, with `strconv.ParseFloat`.
pub record Floats (F : Type 0) : Type 0 where
  pub nan : F
  pub of_int : ℕ → F
  pub add : F → F → F
  pub sub : F → F → F
  pub mul : F → F → F
  pub div : F → F → F
  pub less : F → F → Bool
  pub equal : F → F → Bool
  pub floor : F → ℕ
  pub ceil : F → ℕ
  pub parse : String → Option F
  pub to_lower : String → String

-- `Err` is not nil where `failed` is true.
pub record Score (F : Type 0) : Type 0 where
  pub value : F
  pub failed : Bool

pub record EvalThreshold : Type 0 where
  pub aggregate : String
  pub value : String
  pub over : String

-- `scenario.Eval`: of the judge block only whether it is there, since the judge's code reads the rest.
pub record Eval : Type 0 where
  pub name : String
  pub expr : String
  pub has_judge : Bool
  pub threshold : Option EvalThreshold
