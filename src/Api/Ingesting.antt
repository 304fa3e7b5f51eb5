-- ===== src/Api/Ingesting.antt =====
-- What a report that is taken in leaves in the in-memory store.
use event_driven_tests_ai.Common.{
  String, List, [], ◌∷◌, ◌++◌, map, select, ◌≡◌, refl, if◌then◌else◌, ◌==◌, ◌&&◌, ◌||◌, not,
  string_comparable, ap, ◌∙◌, Option, Bool-cases, inl, inr,
}
use mathlib.Core.List.{append-nil}
use event_driven_tests_ai.Common.Sort.{sort, ascending}
use event_driven_tests_ai.Events.{Time}
use event_driven_tests_ai.Checks.Result.{Value}
use event_driven_tests_ai.Report.{Report}
use event_driven_tests_ai.Storage.{Run, ok, CheckRow, CheckSample, MemStore}
use event_driven_tests_ai.Storage.Interface.{Environment, mem_storage}
use event_driven_tests_ai.Storage.Runs.{with_run_id, get_run, record_run, get_run-record_run}
use event_driven_tests_ai.Storage.Samples.{
  sample_time, sampled_since, append_check_samples, load_check_samples_since,
  load_check_samples_since-append,
}
use event_driven_tests_ai.Api.{decoded}
use event_driven_tests_ai.Api.Runs.{ingest_run, run_of, row_of, sample_of, is_empty, keep_samples}

get_run-append_check_samples :
    {F : Type 0} (xs : List CheckSample) (s : MemStore F) (id : String)
    → get_run id (append_check_samples xs s) ≡ get_run id s
unfolding get_run append_check_samples
get_run-append_check_samples [] s id = refl
get_run-append_check_samples (x ∷ xs) s id = refl

samples-record_run :
    {F : Type 0} (fresh : String) (r : Run) (rows : List CheckRow) (s : MemStore F)
    → (record_run fresh r rows s).samples ≡ s.samples
unfolding record_run
samples-record_run fresh r rows s = refl

load_check_samples_since-samples :
    {F : Type 0} (scenario : String) (since : Time) (s : MemStore F)
    → load_check_samples_since scenario since s
      ≡ sort (ascending sample_time) (select (sampled_since scenario since) s.samples)
unfolding load_check_samples_since
load_check_samples_since-samples scenario since s = refl

append_check_samples-guard :
    {A F : Type 0} (f : A → CheckSample) (cs : List A) (s : MemStore F)
    → (if not (is_empty cs) then append_check_samples (map f cs) s else s)
      ≡ append_check_samples (map f cs) s
unfolding append_check_samples
append_check_samples-guard f [] s = refl
append_check_samples-guard f (c ∷ cs) s = refl

module _ {V F : Type 0} (env : Environment F) (marshal : Value V → Option String) where
  get_run-keep_samples :
      (rep : Report V) (s : MemStore F) (id : String)
      → get_run id (keep_samples marshal (mem_storage env) rep s) ≡ get_run id s
  get_run-keep_samples rep s id =
      elim (Bool-cases (rep.mode == "watch" && not (is_empty rep.checks))) [
        | inl kept ↦
            rw kept
              (get_run-append_check_samples (map (sample_of marshal rep.scenario) rep.checks) s id)
        | inr dropped ↦ rw dropped refl
      ]

  load_check_samples_since-keep_samples :
      (rep : Report V) (s : MemStore F) (scenario : String) (since : Time)
      → load_check_samples_since scenario since (keep_samples marshal (mem_storage env) rep s)
        ≡ sort (ascending sample_time) (
            select (sampled_since scenario since) s.samples
            ++ (if rep.mode == "watch"
                then select
                    (sampled_since scenario since)
                    (map (sample_of marshal rep.scenario) rep.checks)
                else []))
  load_check_samples_since-keep_samples rep s scenario since =
      elim (Bool-cases (rep.mode == "watch")) [
        | inl watch ↦ rw watch (
            ap (load_check_samples_since scenario since)
              (append_check_samples-guard (sample_of marshal rep.scenario) rep.checks s)
            ∙ load_check_samples_since-append scenario since
                (map (sample_of marshal rep.scenario) rep.checks) s)
        | inr other ↦ rw (other, append-nil) (load_check_samples_since-samples scenario since s)
      ]

  -- Taking in a report with a scenario and a run id stores the run under that id with one row for
  -- each check; a report without one of them stores no run, and no other run reads differently.
  pub get_run-ingest_run :
      (body : String) (rep : Report V) (s : MemStore F) (id : String)
      → get_run id (ingest_run marshal (mem_storage env) body (decoded rep) s).1 ≡ (
          if rep.scenario == "" || rep.run_id == ""
          then get_run id s
          else if rep.run_id == id
          then ok (
            run_of marshal rep body,
            map (with_run_id rep.run_id) (map (row_of marshal) rep.checks),
          )
          else get_run id s)
  unfolding ingest_run
  get_run-ingest_run body rep s id = elim (Bool-cases (rep.scenario == "")) [
    | inl no_scenario ↦ rw no_scenario refl
    | inr scenario ↦ elim (Bool-cases (rep.run_id == "")) [
      | inl no_id ↦ rw (scenario, no_id) refl
      | inr own ↦
          rw (scenario, own)
            (get_run-keep_samples rep
                (record_run env.fresh (run_of marshal rep body) (map (row_of marshal) rep.checks) s)
                id
              ∙ get_run-record_run env.fresh (run_of marshal rep body)
                  (map (row_of marshal) rep.checks) s id
              ∙ rw own refl)
    ]
  ]

  -- The samples that a resumed watch loads after a report was taken in are those loaded before and,
  -- if the report has a scenario, a run id and the mode of a watch, those of its checks, in the
  -- order of their times; a report of another mode adds none.
  pub load_check_samples_since-ingest_run :
      (body : String) (rep : Report V) (s : MemStore F) (scenario : String) (since : Time)
      → load_check_samples_since scenario since
          (ingest_run marshal (mem_storage env) body (decoded rep) s).1
        ≡ sort (ascending sample_time) (
            select (sampled_since scenario since) s.samples
            ++ (if not (rep.scenario == "") && not (rep.run_id == "") && rep.mode == "watch"
                then select
                    (sampled_since scenario since)
                    (map (sample_of marshal rep.scenario) rep.checks)
                else []))
  unfolding ingest_run
  load_check_samples_since-ingest_run body rep s scenario since =
      elim (Bool-cases (rep.scenario == "")) [
        | inl no_scenario ↦
            rw (no_scenario, append-nil) (load_check_samples_since-samples scenario since s)
        | inr named ↦ elim (Bool-cases (rep.run_id == "")) [
          | inl no_id ↦
              rw (named, no_id, append-nil) (load_check_samples_since-samples scenario since s)
          | inr own ↦
              rw (named, own)
                (load_check_samples_since-keep_samples rep
                    (record_run env.fresh (run_of marshal rep body)
                      (map (row_of marshal) rep.checks) s)
                    scenario since
                  ∙ rw
                      (samples-record_run env.fresh (run_of marshal rep body)
                        (map (row_of marshal) rep.checks) s)
                      refl)
        ]
      ]
