-- ===== src/Orchestrator/Watch/Snapshot.antt =====
-- Which window each check of a snapshot is evaluated over, and what status that gives.
use event_driven_tests_ai.Common.{
  eq_iff, String, List, [], ◌∷◌, ◌≡◌, refl, arith, if◌then◌else◌, string_comparable, Bool, true,
  Option, none, some, Bool-cases, inl, inr, any,
}
use event_driven_tests_ai.Common.Int.{ℤ, pos, negsuc}
use event_driven_tests_ai.Events.{Store, Time}
use event_driven_tests_ai.Checks.Result.{
  Check, CheckResult, Outcome, evaluate_one, evaluate_all, any_critical_failed, breaks,
  is_critical-evaluate_one,
}
use event_driven_tests_ai.Report.{Report, pass, fail, finalize}
use event_driven_tests_ai.Orchestrator.Watch.{
  WatchConfig, same_duration, view, override, overrides, emit_watch_snapshot,
}

same_duration-eq : (d e : ℤ) → same_duration d e ≡ true → d ≡ e
same_duration-eq (pos m) (pos n) h = ground (arith, h)
same_duration-eq (negsuc m) (negsuc n) h = ground (arith, h)
same_duration-eq (pos m) (negsuc n) h = ground (arith, h)
same_duration-eq (negsuc m) (pos n) h = ground (arith, h)

module _ {P V : Type 0} (evaluator : Store P → String → Outcome V)
    (parse_duration : String → Option ℤ) where
  -- The window that a check asks for, and the default where it asks for none.
  abbrev pub window_of : ℤ → Option ℤ → ℤ
  window_of default none = default
  window_of default (some d) = d

  -- The evaluator of a check: over the events of its window.
  abbrev pub evaluator_of : Store P → Time → ℤ → Check → String → Outcome V
  evaluator_of store now default c = evaluator (
      view (λ s. some (evaluator s)) parse_duration store now
        (window_of default (parse_duration c.window)))

  abbrev pub results : Store P → Time → ℤ → List Check → List (CheckResult V)
  results store now default [] = []
  results store now default (c ∷ cs) =
      evaluate_one (evaluator_of store now default c) now c ∷ results store now default cs

  override-eq :
      (store : Store P) (now : Time) (default : ℤ) (o : Option ℤ) (c : Check)
      → override
          (λ s. some (evaluator s))
          parse_duration
          store
          now
          default
          o
          c
          (evaluate_one
            (evaluator (view (λ s. some (evaluator s)) parse_duration store now default))
            now
            c)
        ≡ evaluate_one
            (evaluator
              (view (λ s. some (evaluator s)) parse_duration store now (window_of default o)))
            now
            c
  override-eq store now default none c = refl
  override-eq store now default (some d) c = elim (Bool-cases (same_duration d default)) [
    | inl same ↦ rw (same, same_duration-eq d default same)
    | inr other ↦ rw other
  ]

  overrides-eq-results :
      (store : Store P) (now : Time) (default : ℤ) (cs : List Check)
      → overrides
          (λ s. some (evaluator s))
          parse_duration
          store
          now
          default
          cs
          (evaluate_all
            (evaluator (view (λ s. some (evaluator s)) parse_duration store now default))
            now
            cs)
        ≡ results store now default cs
  unfolding evaluate_all
  overrides-eq-results store now default [] = refl
  overrides-eq-results store now default (c ∷ cs) = rw (
    override-eq store now default (parse_duration c.window) c,
    overrides-eq-results store now default cs,
  )

  abbrev pub breaks_in_window : Store P → Time → ℤ → Check → Bool
  breaks_in_window store now default c = breaks (evaluator_of store now default c) now c

  any_critical_failed-results :
      (store : Store P) (now : Time) (default : ℤ) (cs : List Check)
      → any_critical_failed (results store now default cs)
        ≡ any (breaks_in_window store now default) cs
  unfolding any_critical_failed
  any_critical_failed-results store now default [] = refl
  any_critical_failed-results store now default (c ∷ cs) = rw (
    is_critical-evaluate_one (evaluator_of store now default c) now c,
    any_critical_failed-results store now default cs,
  )

  pub record IsSnapshot (store : Store P) (now : Time) (cs : List Check) (cfg : WatchConfig)
      (r : Report V) : Type 0 where
    pub checks : r.checks ≡ results store now cfg.default_window cs
    pub status :
        r.status ≡ (if any (breaks_in_window store now cfg.default_window) cs then fail else pass)
    pub exit_code :
        r.exit_code ≡ (if any (breaks_in_window store now cfg.default_window) cs then 1 else 0)
    pub event_count : r.event_count ≡ store.len

  finalize-IsSnapshot :
      (store : Store P) (now : Time) (cs : List Check) (cfg : WatchConfig) (r : Report V)
      → r.err ≡ ""
      → r.checks ≡ results store now cfg.default_window cs
      → r.event_count ≡ store.len
      → IsSnapshot store now cs cfg (finalize now r)
  unfolding finalize
  finalize-IsSnapshot store now cs cfg r e h n =
      let critical : any_critical_failed r.checks
          ≡ any (breaks_in_window store now cfg.default_window) cs =
        rw h (any_critical_failed-results store now cfg.default_window cs) in
      record {
        checks = ground (arith, h);
        status = ground (arith, critical, e, eq_iff r.err "");
        exit_code = ground (arith, critical, e, eq_iff r.err "");
        event_count = ground (arith, n);
      }

  -- A snapshot evaluates each check over the events of its own window, the default one where the
  -- check names none that can be read; the report fails with exit code 1 exactly when a critical
  -- check does not evaluate to true over its window, and passes with 0 otherwise; and it counts all
  -- events of the store. An evaluator must be there for every store.
  pub emit_watch_snapshot-IsSnapshot :
      (name run_id fresh : String) (store : Store P) (now : Time) (cs : List Check)
      (cfg : WatchConfig)
      → (r : Report V) × (emit_watch_snapshot
            (λ s. some (evaluator s))
            parse_duration
            name
            run_id
            fresh
            store
            now
            cs
            cfg
          ≡ some r)
        × IsSnapshot store now cs cfg r
  unfolding emit_watch_snapshot
  emit_watch_snapshot-IsSnapshot name run_id fresh store now cs cfg = (
    _,
    refl,
    finalize-IsSnapshot store now cs cfg _ refl
        (overrides-eq-results store now cfg.default_window cs) refl,
  )
