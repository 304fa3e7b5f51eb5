-- ===== src/Eval/Verdict.antt =====
-- When an eval passes, in terms of all scores that were given.
use event_driven_tests_ai.Common.{
  ℕ, suc, ◌+◌, String, List, [], ◌∷◌, ◌++◌, arith, if◌then◌else◌, ◌==◌, ◌||◌, ◌&&◌, not,
  string_comparable, nat_comparable, Bool, Option, none, some, length, leb, select, ◌≡◌, refl, sym,
  ap, ◌∙◌, Bool-cases, inl, inr, eq_iff,
}
use mathlib.Core.List.{append_assoc, append-nil}
use event_driven_tests_ai.Common.Dict.{lookup, lookup_or, lookup-insert, lookup_or-insert}
use event_driven_tests_ai.Eval.{Floats, Score, Eval, EvalThreshold}
use event_driven_tests_ai.Eval.Aggregate.{
  Aggregate, new_aggregate, add, aggregate_value, check_threshold,
}
use event_driven_tests_ai.Eval.Executor.{
  Executor, new_executor, aggregate_or_new, record_score, threshold_value, required, met,
  finalize_status, aggregate_or_avg, finalize_one, outcome_of, kind_name,
}

-- What the judge answered, in order.
abbrev pub Scored : Type 0 → Type 0
Scored F = Eval × Score F

abbrev pub of_eval : {F : Type 0} → String → Scored F → Bool
of_eval name (ev, sc) = ev.name == name

-- The scores that are no errors, and how many are.
abbrev pub good : {F : Type 0} → List (Scored F) → List F
good [] = []
good ((ev, sc) ∷ xs) = if sc.failed then good xs else sc.value ∷ good xs

abbrev pub bad : {F : Type 0} → List (Scored F) → ℕ
bad [] = 0
bad ((ev, sc) ∷ xs) = if sc.failed then suc (bad xs) else bad xs

module _ {F : Type 0} (fl : Floats F) where
  pub record_all : List (Scored F) → Executor F → Executor F
  unfolding record_score
  record_all [] e = e
  record_all ((ev, sc) ∷ xs) e = record_all xs (record_score fl ev sc e)

  -- The kind of aggregate that the first score of an eval fixes.
  abbrev pub kind_of : List (Scored F) → String
  kind_of [] = (new_aggregate fl "avg").kind
  kind_of ((ev, sc) ∷ xs) = (new_aggregate fl (kind_name ev.threshold)).kind

  gather : Option (Aggregate F) → List (Scored F) → Option (Aggregate F)
  gather o [] = o
  gather o ((ev, sc) ∷ xs) = gather (some (add fl sc (aggregate_or_new fl o ev))) xs

  lookup-record_all :
      (name : String) (xs : List (Scored F)) (e : Executor F)
      → lookup name (record_all xs e).agg ≡ gather (lookup name e.agg) (select (of_eval name) xs)
  unfolding record_all record_score gather
  lookup-record_all name [] e = refl
  lookup-record_all name ((ev, sc) ∷ xs) e =
      let rest = lookup-record_all name xs (record_score fl ev sc e) in
      let a = add fl sc (aggregate_or_new fl (lookup ev.name e.agg) ev) in
      elim (Bool-cases (ev.name == name)) [
        | inl same ↦ rw same (
            rest
            ∙ ap (λ o. gather o (select (of_eval name) xs))
                (rw (lookup-insert ev.name name a e.agg, same)
                  (ap (λ n. some (add fl sc (aggregate_or_new fl (lookup n e.agg) ev)))
                    ((eq_iff ev.name name).0 same))))
        | inr other ↦ rw other (
            rest
            ∙ ap (λ o. gather o (select (of_eval name) xs))
                (rw (lookup-insert ev.name name a e.agg, other) refl))
      ]

  gather-some :
      (a : Aggregate F) (xs : List (Scored F))
      → gather (some a) xs ≡ some (record { kind = a.kind; vals = a.vals ++ good xs })
  unfolding gather
  gather-some a [] = ap (λ vs. some (record { kind = a.kind; vals = vs })) (sym (append-nil a.vals))
  gather-some a ((ev, sc) ∷ xs) = elim (Bool-cases sc.failed) [
    | inl failed ↦ rw failed (gather-some a xs)
    | inr fine ↦ rw fine (
        gather-some (record a { vals = a.vals ++ (sc.value ∷ []) }) xs
        ∙ ap (λ vs. some (record { kind = a.kind; vals = vs }))
            (append_assoc a.vals (sc.value ∷ []) (good xs)))
  ]

  err-record_score :
      (name : String) (ev : Eval) (sc : Score F) (e : Executor F)
      → lookup_or name (record_score fl ev sc e).err 0
        ≡ lookup_or name e.err 0 + (if sc.failed && ev.name == name then 1 else 0)
  unfolding record_score
  err-record_score name ev sc e = ground (
    arith,
    lookup_or-insert ev.name name (suc (lookup_or ev.name e.err 0)) 0 e.err,
    eq_iff ev.name name,
  )

  errors-record_all :
      (name : String) (xs : List (Scored F)) (e : Executor F)
      → lookup_or name (record_all xs e).err 0
        ≡ lookup_or name e.err 0 + bad (select (of_eval name) xs)
  unfolding record_all record_score
  errors-record_all name [] e = omega arith
  errors-record_all name ((ev, sc) ∷ xs) e =
      ground
        (arith, errors-record_all name xs (record_score fl ev sc e), err-record_score name ev sc e)

  -- The aggregate of an eval after all scores.
  abbrev collected : List (Scored F) → Option (Aggregate F)
  collected [] = none
  collected (x ∷ xs) = some (record { kind = kind_of (x ∷ xs); vals = good (x ∷ xs) })

  gather-none : (xs : List (Scored F)) → gather none xs ≡ collected xs
  unfolding gather new_aggregate
  gather-none [] = refl
  gather-none ((ev, sc) ∷ xs) = elim (Bool-cases sc.failed) [
    | inl failed ↦ rw failed (gather-some _ xs)
    | inr fine ↦ rw fine (gather-some _ xs)
  ]

  -- Whether the scores of an eval suffice: one is no error, they are as many as the threshold asks
  -- for, and their aggregate meets it.
  abbrev pub suffices : Option EvalThreshold → List (Scored F) → Bool
  suffices t xs =
      not (length (good xs) == 0)
      && leb (required fl t) (length (good xs))
      && (threshold_value t == ""
          || met
              (check_threshold fl (aggregate_value fl (kind_of xs) (good xs)) (threshold_value t)))

  abbrev enough : Option EvalThreshold → Aggregate F → Bool
  enough t a =
      not (length a.vals == 0)
      && leb (required fl t) (length a.vals)
      && (threshold_value t == ""
          || met (check_threshold fl (aggregate_value fl a.kind a.vals) (threshold_value t)))

  passed-outcome_of :
      (a : Aggregate F) (n : ℕ) (ev : Eval)
      → (finalize_status fl (outcome_of fl a n ev) ev.threshold).0 ≡ enough ev.threshold a
  unfolding finalize_status
  passed-outcome_of a n ev = ground arith

  enough-collected :
      (t : Option EvalThreshold) (xs : List (Scored F))
      → enough t (aggregate_or_avg fl (collected xs)) ≡ suffices t xs
  unfolding new_aggregate
  enough-collected t [] = refl
  enough-collected t (x ∷ xs) = refl

  passed-finalize_one :
      (e : Executor F) (ev : Eval) (xs : List (Scored F))
      → lookup ev.name e.agg ≡ collected xs
      → (finalize_one fl e ev).passed ≡ suffices ev.threshold xs
  unfolding finalize_one
  passed-finalize_one e ev xs h =
      passed-outcome_of (aggregate_or_avg fl (lookup ev.name e.agg)) (lookup_or ev.name e.err 0) ev
      ∙ ap (λ o. enough ev.threshold (aggregate_or_avg fl o)) h
      ∙ enough-collected ev.threshold xs

  errors-finalize_one :
      (e : Executor F) (ev : Eval) → (finalize_one fl e ev).errors ≡ lookup_or ev.name e.err 0
  unfolding finalize_one
  errors-finalize_one e ev = refl

  -- After any scores, an eval passes exactly when one of its own scores is no error, those are at
  -- least as many as its threshold asks for, and their aggregate meets its threshold, if it has one;
  -- and its number of errors is that of its own scores that are errors.
  pub finalize_one-record_all :
      (ev : Eval) (xs : List (Scored F))
      → let own = select (of_eval ev.name) xs in
        let r = finalize_one fl (record_all xs (new_executor F)) ev in
        (r.passed ≡ suffices ev.threshold own) × (r.errors ≡ bad own)
  finalize_one-record_all ev xs =
      let e = record_all xs (new_executor F) in
      let own = select (of_eval ev.name) xs in
      (
        passed-finalize_one e ev own
            (lookup-record_all ev.name xs (new_executor F) ∙ (unfold lookup in gather-none own)),
        errors-finalize_one e ev
            ∙ errors-record_all ev.name xs (new_executor F)
            ∙ (unfold lookup_or lookup in let h : 0 + bad own ≡ bad own = omega arith in h),
      )
