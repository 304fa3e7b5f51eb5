-- ===== src/Checks/Latency.antt =====
-- fnLatency of pkg/checks/operators.go: each source event is paired with the earliest destination
-- event of its key that is not before it, and each destination event is used at most once.
pub mod Buckets
pub mod Pairing
use event_driven_tests_ai.Common.{
  ℕ, zero, suc, ◌+◌, ◌-◌, String, List, [], ◌∷◌, ◌++◌, arith, if◌then◌else◌, ltb, ◌==◌,
  string_comparable, ◌≡◌, refl, Bool, true, false, not, ◌&&◌, ◌||◌, length, Option, none, some, map,
  min, All, Option-cases, inl, inr, eq_iff, ◌≤◌, ap, ◌∙◌, sym, Bool-cases,
}
use event_driven_tests_ai.Common.Dict.{
  Dict, lookup_or, insert, lookup_or-insert, lookup_or-insert_self,
}
use event_driven_tests_ai.Common.Sort.{sort, ascending, insert_sorted}
use event_driven_tests_ai.Events.{Event, Store, Time, event_ts}

-- The largest `time.Duration`, at which `Sub` stops.
abbrev max_duration : ℕ
max_duration = 9223372036854775807

module _ {ℓ} {P : Type ℓ} where
  pub bucket_by_key : List (Event P) → Dict String (List (Event P)) → Dict String (List (Event P))
  bucket_by_key [] buckets = buckets
  bucket_by_key (e ∷ es) buckets =
      bucket_by_key es (insert e.key (lookup_or e.key buckets [] ++ e ∷ []) buckets)

  pub sort_buckets : Dict String (List (Event P)) → Dict String (List (Event P))
  sort_buckets [] = []
  sort_buckets ((k, es) ∷ d) = (k, sort (ascending event_ts) es) ∷ sort_buckets d

  -- The first event of a bucket that is not before `ts`, and the bucket without it.
  pub take_first : Time → List (Event P) → Option (Event P × List (Event P))
  take_first ts [] = none
  take_first ts (e ∷ es) =
      let later = take_first ts es in
      if ltb e.ts ts
      then elim later [ none ↦ none | some (f, rest) ↦ some (f, e ∷ rest) ]
      else some (e, es)

  -- The loop over the sorted sources: the pairs made, and the buckets left.
  pub pair_all :
      List (Event P)
      → Dict String (List (Event P))
      → List (Event P × Event P) × Dict String (List (Event P))
  unfolding take_first
  pair_all [] buckets = ([], buckets)
  pair_all (s ∷ ss) buckets = elim (take_first s.ts (lookup_or s.key buckets [])) [
    | none ↦ pair_all ss buckets
    | some (d, rest) ↦
        let (pairs, left) = pair_all ss (insert s.key rest buckets) in ((s, d) ∷ pairs, left)
  ]

  pub pairing :
      List (Event P) → List (Event P) → List (Event P × Event P) × Dict String (List (Event P))
  unfolding bucket_by_key sort_buckets pair_all
  pairing src dst = pair_all (sort (ascending event_ts) src) (sort_buckets (bucket_by_key dst []))

  abbrev gap : Event P × Event P → ℕ
  gap (s, d) = min (d.ts - s.ts) max_duration

  pub latency : Store P → String → String → List ℕ
  unfolding pairing
  latency store from to = map gap (pairing (store.query from) (store.query to)).0

  -- How many events have a property, in a list and in all buckets.
  abbrev pub count : (Event P → Bool) → List (Event P) → ℕ
  count p [] = 0
  count p (e ∷ es) = if p e then suc (count p es) else count p es

  abbrev pub count_left : (Event P → Bool) → Dict String (List (Event P)) → ℕ
  count_left p [] = 0
  count_left p ((k, es) ∷ d) = count p es + count_left p d

  abbrev pub source : Event P × Event P → Event P
  source (s, d) = s

  abbrev pub destination : Event P × Event P → Event P
  destination (s, d) = d
