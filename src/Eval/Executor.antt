-- ===== src/Eval/Executor.antt =====
-- Executor of pkg/eval/executor.go: the scores of each eval, and its result.
use event_driven_tests_ai.Common.{
  ℕ, suc, String, List, [], ◌∷◌, if◌then◌else◌, ◌==◌, ◌&&◌, not, string_comparable, nat_comparable,
  Bool, true, false, Option, none, some, length, ltb,
}
use event_driven_tests_ai.Common.Dict.{Dict, lookup, insert, lookup_or}
use event_driven_tests_ai.Eval.{Floats, Score, Eval, EvalThreshold}
use event_driven_tests_ai.Eval.Words.{parse_min_samples}
use event_driven_tests_ai.Eval.Aggregate.{
  Aggregate, new_aggregate, add, aggregate_value, check_threshold,
}

pub record EvalOutcome (F : Type 0) : Type 0 where
  pub eval : String
  pub aggregate : String
  pub over : ℕ
  pub required_over : ℕ
  pub value : F
  pub threshold : String
  pub passed : Bool
  pub status : String
  pub errors : ℕ

pub record Executor (F : Type 0) : Type 0 where
  pub agg : Dict String (Aggregate F)
  pub err : Dict String ℕ

abbrev pub new_executor : (F : Type 0) → Executor F
new_executor F = record { agg = []; err = [] }

abbrev pub kind_name : Option EvalThreshold → String
kind_name none = "avg"
kind_name (some t) = if t.aggregate == "" then "avg" else t.aggregate

abbrev pub threshold_value : Option EvalThreshold → String
threshold_value none = ""
threshold_value (some t) = t.value

abbrev pub met : Option Bool → Bool
met none = false
met (some b) = b

module _ {F : Type 0} (fl : Floats F) where
  abbrev pub aggregate_or_new : Option (Aggregate F) → Eval → Aggregate F
  aggregate_or_new none ev = new_aggregate fl (kind_name ev.threshold)
  aggregate_or_new (some a) ev = a

  -- What `scoreOne` does under the lock with the judge's answer.
  unfoldable pub record_score : Eval → Score F → Executor F → Executor F
  record_score ev sc e =
      let a = add fl sc (aggregate_or_new (lookup ev.name e.agg) ev) in
      record {
        agg = insert ev.name a e.agg;
        err = if sc.failed then insert ev.name (suc (lookup_or ev.name e.err 0)) e.err else e.err;
      }

  -- One pair, of any type `P`, against each eval that has a judge.
  unfoldable pub observe :
      {P : Type 0} → (Eval → P → Score F) → List Eval → P → Executor F → Executor F
  unfolding record_score
  observe judge [] p e = e
  observe judge (ev ∷ evs) p e =
      let e' = if ev.has_judge then record_score ev (judge ev p) e else e in observe judge evs p e'

  abbrev pub required : Option EvalThreshold → ℕ
  required none = 0
  required (some t) = parse_min_samples fl t.over

  -- Whether the eval passed, and its status.
  unfoldable pub finalize_status : EvalOutcome F → Option EvalThreshold → Bool × String
  finalize_status r t =
      if r.over == 0 && not (r.errors == 0)
      then (false, "judge_errors")
      else if r.over == 0
      then (false, "insufficient_samples")
      else if not (r.required_over == 0) && ltb r.over r.required_over
      then (false, "insufficient_samples")
      else if threshold_value t == ""
      then (true, "pass")
      else if met (check_threshold fl r.value (threshold_value t))
      then (true, "pass")
      else (false, "fail")

  abbrev pub aggregate_or_avg : Option (Aggregate F) → Aggregate F
  aggregate_or_avg none = new_aggregate fl "avg"
  aggregate_or_avg (some a) = a

  abbrev pub outcome_of : Aggregate F → ℕ → Eval → EvalOutcome F
  outcome_of a errors ev = record {
    eval = ev.name;
    aggregate = a.kind;
    over = length a.vals;
    required_over = required ev.threshold;
    value = aggregate_value fl a.kind a.vals;
    threshold = threshold_value ev.threshold;
    passed = false;
    status = "";
    errors = errors;
  }

  unfoldable pub finalize_one : Executor F → Eval → EvalOutcome F
  unfolding finalize_status
  finalize_one e ev =
      let r = outcome_of (aggregate_or_avg (lookup ev.name e.agg)) (lookup_or ev.name e.err 0) ev in
      let (passed, status) = finalize_status r ev.threshold in
      record r { passed = passed; status = status }

  unfoldable pub finalize : List Eval → Executor F → List (EvalOutcome F)
  unfolding finalize_one
  finalize [] e = []
  finalize (ev ∷ evs) e =
      let rest = finalize evs e in if ev.has_judge then finalize_one e ev ∷ rest else rest
