-- ===== src/Checks/Latency/Pairing.antt =====
-- The pairing of `latency`: keys agree, time does not run backwards, and no event is used twice.
use event_driven_tests_ai.Common.{
  ◌+◌, String, List, [], ◌∷◌, arith, ltb, string_comparable, ◌≡◌, refl, Bool, Option, none, some,
  map, All, inl, inr, ◌≤◌, Bool-cases,
}
use event_driven_tests_ai.Common.Dict.{Dict, lookup_or, insert}
use event_driven_tests_ai.Common.Sort.{sort, ascending}
use event_driven_tests_ai.Events.{Event, Time, event_ts}
use event_driven_tests_ai.Checks.Latency.{
  bucket_by_key, sort_buckets, take_first, pair_all, pairing, count, count_left, source,
  destination,
}
use event_driven_tests_ai.Checks.Latency.Buckets.{
  Keyed, lookup_or-Keyed, insert-Keyed, bucket_by_key-Keyed, sort_buckets-Keyed, count-sort,
  count_left-insert, count_left-bucket_by_key, count_left-sort_buckets,
}

module _ {ℓ} {P : Type ℓ} where
  -- What `take_first` does: it takes an event that is not before `ts`, and keeps the others.
  abbrev Taken : Time → List (Event P) → Option (Event P × List (Event P)) → Type (ℓ ⊔ 1)
  Taken ts es none = Unit
  Taken ts es (some (e, rest)) =
      (ts ≤ e.ts)
      × ((p : Event P → Bool) → count p es ≡ count p (e ∷ rest))
      × ((Q : Event P → Type 0) → All Q es → Q e × All Q rest)

  Taken-cons :
      (ts : Time) (f : Event P) (es : List (Event P)) (o : Option (Event P × List (Event P)))
      → Taken ts es o
      → Taken ts (f ∷ es) (elim o [ none ↦ none | some (e, rest) ↦ some (e, f ∷ rest) ])
  Taken-cons ts f es none t = tt
  Taken-cons ts f es (some (e, rest)) t =
      (t.0, λ p. ground (arith, t.1 p), λ Q all. let (qe, qs) = t.2 Q all.1 in (qe, (all.0, qs)))

  take_first-Taken : (ts : Time) (es : List (Event P)) → Taken ts es (take_first ts es)
  unfolding take_first
  take_first-Taken ts [] = tt
  take_first-Taken ts (f ∷ es) = elim (Bool-cases (ltb f.ts ts)) [
    | inl early ↦ rw early (Taken-cons ts f es (take_first ts es) (take_first-Taken ts es))
    | inr late ↦ rw late (ground arith, λ p. refl, λ Q all. all)
  ]

  -- What the pairs promise.
  abbrev pub FitsPair : Event P × Event P → Type 0
  FitsPair (s, d) = (d.key ≡ s.key) × (s.ts ≤ d.ts)

  abbrev Outcome :
      List (Event P)
      → Dict String (List (Event P))
      → List (Event P × Event P) × Dict String (List (Event P))
      → Type ℓ
  Outcome ss buckets (pairs, left) =
      All FitsPair pairs
      × ((p : Event P → Bool)
          → count p (map destination pairs) + count_left p left ≡ count_left p buckets)
      × ((p : Event P → Bool) → count p (map source pairs) ≤ count p ss)

  pair_all-Outcome :
      (ss : List (Event P)) (d : Dict String (List (Event P)))
      → Keyed d
      → Outcome ss d (pair_all ss d)
  unfolding pair_all
  pair_all-Outcome [] d h = (tt, λ p. omega arith, λ p. omega arith)
  pair_all-Outcome (s ∷ ss) d h =
      step (take_first s.ts (lookup_or s.key d [])) (take_first-Taken s.ts (lookup_or s.key d []))
        (pair_all-Outcome ss d h)
        (λ es all. pair_all-Outcome ss (insert s.key es d) (insert-Keyed s.key es d all h))
    where
      step :
          (o : Option (Event P × List (Event P)))
          → Taken s.ts (lookup_or s.key d []) o
          → Outcome ss d (pair_all ss d)
          → ((es : List (Event P))
              → All (λ e. e.key ≡ s.key) es
              → Outcome ss (insert s.key es d) (pair_all ss (insert s.key es d)))
          → Outcome (s ∷ ss) d (elim o [
            | none ↦ pair_all ss d
            | some (e, rest) ↦
                let (pairs, left) = pair_all ss (insert s.key rest d) in ((s, e) ∷ pairs, left)
          ])
      step none t skip more = (skip.0, skip.1, λ p. ground (arith, skip.2 p))
      step (some (e, rest)) t skip more =
          let (key, keys) = t.2 (λ f. f.key ≡ s.key) (lookup_or-Keyed s.key d h) in
          let out = more rest keys in
          (
            ((key, t.0), out.0),
            λ p. ground (arith, out.1 p, t.1 p, count_left-insert p s.key rest d),
            λ p. ground (arith, out.2 p),
          )

  -- The pairing behind the latencies, for any source and destination events: paired events have
  -- the same key and the destination is not before its source; the paired destinations and the
  -- events left in the buckets are together the destination events, so none is used twice; and
  -- the paired sources are among the source events, none of them twice. Events are counted by any
  -- property.
  pub pairing-Outcome :
      (p : Event P → Bool) (src dst : List (Event P))
      → All FitsPair (pairing src dst).0
        × (count p (map destination (pairing src dst).0) + count_left p (pairing src dst).1
            ≡ count p dst)
        × (count p (map source (pairing src dst).0) ≤ count p src)
  unfolding pairing
  pairing-Outcome p src dst =
      let buckets = sort_buckets (bucket_by_key dst []) in
      let keyed = sort_buckets-Keyed (bucket_by_key dst []) (bucket_by_key-Keyed dst [] tt) in
      let out = pair_all-Outcome (sort (ascending event_ts) src) buckets keyed in
      (
        out.0,
        omega (
          arith,
          out.1 p,
          count_left-sort_buckets p (bucket_by_key dst []),
          count_left-bucket_by_key p dst [],
        ),
        omega (arith, out.2 p, count-sort p src),
      )
