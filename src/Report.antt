-- ===== src/Report.antt =====
-- pkg/report: the report of a run, and the status and exit code that its checks give it.
use event_driven_tests_ai.Common.{
  ℕ, String, List, arith, if◌then◌else◌, ◌==◌, string_comparable, ◌≡◌, not, any, ◌-◌,
}
use event_driven_tests_ai.Events.{Time}
use event_driven_tests_ai.Checks.Result.{
  Check, CheckResult, Outcome, any_critical_failed, evaluate_all, breaks,
  any_critical_failed-evaluate_all,
}

-- `unset` is the empty status, that of a report which is not finalized.
pub data Status : Type 0 where
  pass fail error unset : Status

pub record Report {ℓ} (V : Type ℓ) : Type ℓ where
  pub scenario : String
  pub run_id : String
  pub mode : String
  pub started_at : Time
  pub finished_at : Time
  pub duration : ℕ
  pub status : Status
  pub exit_code : ℕ
  pub checks : List (CheckResult V)
  pub event_count : ℕ
  pub err : String

module _ {ℓ} {V : Type ℓ} where
  -- `Finalize`, at the time `now`, which is not before the start.
  unfoldable pub finalize : Time → Report V → Report V
  finalize now r =
      let t = record r { finished_at = now; duration = now - r.started_at } in
      if not (r.err == "")
      then record t { status = error; exit_code = 2 }
      else if any_critical_failed r.checks
      then record t { status = fail; exit_code = 1 }
      else record t { status = pass; exit_code = 0 }

-- What the exit code says of a finalized report: 2 for a run that stopped by an error, else 1 when
-- a critical check failed, else 0.
abbrev pub code_of : Status → ℕ
code_of error = 2
code_of fail = 1
code_of pass = 0
code_of unset = 0

module _ {ℓ} {V : Type ℓ} (evaluate : String → Outcome V) (now : Time) where
  -- The verdict that a run deserves: from its error text, and from what its checks evaluate to.
  abbrev pub verdict : String → List Check → Status
  verdict err cs =
      if not (err == "") then error else if any (breaks evaluate now) cs then fail else pass

  -- A report over the results of a list of checks is finalized to `error` with exit code 2 when the
  -- run has an error text; else to `fail` with 1 when some check that is critical does not evaluate
  -- to true; else to `pass` with 0. Nothing else decides status and exit code, and the results stay.
  pub finalize-evaluate_all :
      (finish : Time) (r : Report V) (cs : List Check)
      → r.checks ≡ evaluate_all evaluate now cs
      → ((finalize finish r).status ≡ verdict r.err cs)
        × ((finalize finish r).exit_code ≡ code_of (verdict r.err cs))
        × ((finalize finish r).checks ≡ evaluate_all evaluate now cs)
  unfolding finalize
  finalize-evaluate_all finish r cs h =
      let e : any_critical_failed r.checks ≡ any (breaks evaluate now) cs =
        rw h (any_critical_failed-evaluate_all evaluate now cs) in
      ground (arith, e)
