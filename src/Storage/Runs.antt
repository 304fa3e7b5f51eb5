-- ===== src/Storage/Runs.antt =====
-- The runs and eval runs of `MemStore`.
use event_driven_tests_ai.Common.{
  ◌||◌, String, List, [], ◌∷◌, arith, if◌then◌else◌, ◌==◌, string_comparable, ◌≡◌, not, ◌&&◌, Bool,
  select, map, none, some,
}
use event_driven_tests_ai.Common.Dict.{
  Dict, lookup, insert, lookup_or, lookup-insert, lookup_or-insert,
}
use event_driven_tests_ai.Common.Int.{ℤ}
use event_driven_tests_ai.Common.Sort.{sort, descending}
use event_driven_tests_ai.Events.{Time}
use event_driven_tests_ai.Storage.{
  Result, ok, err, not_found, message, Run, EvalRun, EvalResult, CheckRow, MemStore,
}
use event_driven_tests_ai.Storage.Listing.{cut, IsNewest, cut-sort-IsNewest}

abbrev pub values : {V : Type 0} → Dict String V → List V
values [] = []
values ((k, v) ∷ d) = v ∷ values d

-- `run.RunID = id` on each row.
abbrev pub with_run_id : String → CheckRow → CheckRow
with_run_id id c = record c { run_id = id }

abbrev pub with_eval_run_id : {F : Type 0} → String → EvalResult F → EvalResult F
with_eval_run_id id r = record r { run_id = id }

abbrev pub run_start : Run → Time
run_start r = r.started_at

-- An empty scenario asks for the runs of all.
abbrev pub of_scenario : String → Run → Bool
of_scenario scenario r = not (not (scenario == "") && not (r.scenario == scenario))

abbrev pub eval_run_start : EvalRun → Time
eval_run_start r = r.started_at

abbrev pub of_eval_scenario : String → EvalRun → Bool
of_eval_scenario scenario r = not (not (scenario == "") && not (r.scenario == scenario))

module _ {F : Type 0} where
  -- `fresh` is what `randID` returns; it is used for a run with no id.
  unfoldable pub record_run : String → Run → List CheckRow → MemStore F → MemStore F
  record_run fresh r checks s =
      let id = if r.id == "" then fresh else r.id in
      record s {
        runs = insert id (record r { id = id }) s.runs;
        checks_by_run = insert id (map (with_run_id id) checks) s.checks_by_run;
      }

  unfoldable pub get_run : String → MemStore F → Result (Run × List CheckRow)
  get_run id s = elim (lookup id s.runs) [
    | none ↦ err not_found
    | some r ↦ ok (r, lookup_or id s.checks_by_run [])
  ]

  unfoldable pub list_runs : String → ℤ → MemStore F → List Run
  unfolding cut sort
  list_runs scenario limit s =
      cut limit (sort (descending run_start) (select (of_scenario scenario) (values s.runs)))

  unfoldable pub record_eval_run :
      EvalRun → List (EvalResult F) → MemStore F → Result (Unit {0}) × MemStore F
  record_eval_run r results s =
      if r.id == ""
      then (err (message "storage: eval run ID is required"), s)
      else if r.scenario == ""
      then (err (message "storage: eval run scenario is required"), s)
      else (
        ok tt,
        record s {
          eval_runs = insert r.id r s.eval_runs;
          eval_results = insert r.id (map (with_eval_run_id r.id) results) s.eval_results;
        },
      )

  unfoldable pub get_eval_run : String → MemStore F → Result (EvalRun × List (EvalResult F))
  get_eval_run id s = elim (lookup id s.eval_runs) [
    | none ↦ err not_found
    | some r ↦ ok (r, lookup_or id s.eval_results [])
  ]

  unfoldable pub list_eval_runs : String → ℤ → MemStore F → List EvalRun
  unfolding cut sort
  list_eval_runs scenario limit s =
      cut limit
        (sort (descending eval_run_start) (select (of_eval_scenario scenario) (values s.eval_runs)))

  -- A recorded run is read back under its id, with that id on every check row; every other run and
  -- its rows are read as before.
  pub get_run-record_run :
      (fresh : String) (r : Run) (checks : List CheckRow) (s : MemStore F) (id : String)
      → let own = if r.id == "" then fresh else r.id in
        get_run id (record_run fresh r checks s) ≡ (
          if own == id
          then ok (record r { id = own }, map (with_run_id own) checks)
          else get_run id s)
  unfolding get_run record_run
  get_run-record_run fresh r checks s id =
      let own : String = if r.id == "" then fresh else r.id in
      ground (
        arith,
        lookup-insert own id (record r { id = own }) s.runs,
        lookup_or-insert own id (map (with_run_id own) checks) [] s.checks_by_run,
      )

  -- A list of runs holds the newest runs of the asked scenario (of all, for an empty one), newest
  -- first, and as many of them as the limit allows; a limit that is not positive allows all.
  pub list_runs-IsNewest :
      (scenario : String) (limit : ℤ) (s : MemStore F)
      → IsNewest run_start limit
          (select (of_scenario scenario) (values s.runs))
          (list_runs scenario limit s)
  unfolding list_runs
  list_runs-IsNewest scenario limit s = cut-sort-IsNewest run_start limit _

  pub list_eval_runs-IsNewest :
      (scenario : String) (limit : ℤ) (s : MemStore F)
      → IsNewest eval_run_start limit
          (select (of_eval_scenario scenario) (values s.eval_runs))
          (list_eval_runs scenario limit s)
  unfolding list_eval_runs
  list_eval_runs-IsNewest scenario limit s = cut-sort-IsNewest eval_run_start limit _

  -- An eval run with no id or no scenario leaves every read as it was; any other is read back under
  -- its id, with that id on every result, and no other id reads differently.
  pub get_eval_run-record_eval_run :
      (r : EvalRun) (results : List (EvalResult F)) (s : MemStore F) (id : String)
      → get_eval_run id (record_eval_run r results s).1 ≡ (
          if r.id == "" || r.scenario == ""
          then get_eval_run id s
          else if r.id == id
          then ok (r, map (with_eval_run_id r.id) results)
          else get_eval_run id s)
  unfolding get_eval_run record_eval_run
  get_eval_run-record_eval_run r results s id = ground (
    arith,
    lookup-insert r.id id r s.eval_runs,
    lookup_or-insert r.id id (map (with_eval_run_id r.id) results) [] s.eval_results,
  )
