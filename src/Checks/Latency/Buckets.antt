-- ===== src/Checks/Latency/Buckets.antt =====
-- The buckets of `latency`: each holds events of its key, and sorting them loses none.
use mathlib.Core.Path.{subst}
use event_driven_tests_ai.Common.{
  ◌+◌, String, List, [], ◌∷◌, ◌++◌, arith, ◌==◌, string_comparable, ◌≡◌, refl, Bool, All,
  All-append, inl, inr, eq_iff, Bool-cases,
}
use event_driven_tests_ai.Common.Dict.{Dict, lookup_or, lookup_or-cons, insert}
use event_driven_tests_ai.Common.Sort.{sort, ascending, insert_sorted}
use event_driven_tests_ai.Events.{Event, event_ts}
use event_driven_tests_ai.Checks.Latency.{bucket_by_key, sort_buckets, count, count_left}

module _ {ℓ} {P : Type ℓ} where
  pub count-append :
      (p : Event P → Bool) (xs ys : List (Event P)) → count p (xs ++ ys) ≡ count p xs + count p ys
  count-append p [] ys = omega arith
  count-append p (x ∷ xs) ys = ground (arith, count-append p xs ys)

  pub count_left-insert :
      (p : Event P → Bool) (k : String) (es : List (Event P)) (d : Dict String (List (Event P)))
      → count_left p (insert k es d) + count p (lookup_or k d []) ≡ count_left p d + count p es
  unfolding insert lookup_or
  count_left-insert p k es [] = omega arith
  count_left-insert p k es ((j, fs) ∷ d) = ground (arith, count_left-insert p k es d)

  pub count_left-bucket_by_key :
      (p : Event P → Bool) (es : List (Event P)) (d : Dict String (List (Event P)))
      → count_left p (bucket_by_key es d) ≡ count p es + count_left p d
  unfolding bucket_by_key
  count_left-bucket_by_key p [] d = omega arith
  count_left-bucket_by_key p (e ∷ es) d = ground (
    arith,
    count_left-bucket_by_key p es (insert e.key (lookup_or e.key d [] ++ e ∷ []) d),
    count_left-insert p e.key (lookup_or e.key d [] ++ e ∷ []) d,
    count-append p (lookup_or e.key d []) (e ∷ []),
  )

  count-insert_sorted :
      (p : Event P → Bool) (e : Event P) (es : List (Event P))
      → count p (insert_sorted (ascending event_ts) e es) ≡ count p (e ∷ es)
  unfolding insert_sorted
  count-insert_sorted p e [] = refl
  count-insert_sorted p e (f ∷ es) = ground (arith, count-insert_sorted p e es)

  pub count-sort :
      (p : Event P → Bool) (es : List (Event P))
      → count p (sort (ascending event_ts) es) ≡ count p es
  unfolding sort
  count-sort p [] = refl
  count-sort p (e ∷ es) =
      ground (arith, count-insert_sorted p e (sort (ascending event_ts) es), count-sort p es)

  pub count_left-sort_buckets :
      (p : Event P → Bool) (d : Dict String (List (Event P)))
      → count_left p (sort_buckets d) ≡ count_left p d
  unfolding sort_buckets
  count_left-sort_buckets p [] = refl
  count_left-sort_buckets p ((k, es) ∷ d) =
      omega (arith, count-sort p es, count_left-sort_buckets p d)

  -- A bucket holds only events of its key.
  abbrev pub Keyed : Dict String (List (Event P)) → Type 0
  Keyed [] = Unit
  Keyed ((k, es) ∷ d) = All (λ e. e.key ≡ k) es × Keyed d

  pub lookup_or-Keyed :
      (k : String) (d : Dict String (List (Event P)))
      → Keyed d
      → All (λ e. e.key ≡ k) (lookup_or k d [])
  lookup_or-Keyed k [] h = unfold lookup_or in tt
  lookup_or-Keyed k ((j, es) ∷ d) h = elim (Bool-cases (j == k)) [
    | inl same ↦
        rw (lookup_or-cons, same) (subst (λ i. All (λ e. e.key ≡ i) es) ((eq_iff j k).0 same) h.0)
    | inr other ↦ rw (lookup_or-cons, other) (lookup_or-Keyed k d h.1)
  ]

  pub insert-Keyed :
      (k : String) (es : List (Event P)) (d : Dict String (List (Event P)))
      → All (λ e. e.key ≡ k) es
      → Keyed d
      → Keyed (insert k es d)
  unfolding insert
  insert-Keyed k es [] h hs = (h, tt)
  insert-Keyed k es ((j, fs) ∷ d) h hs = elim (Bool-cases (j == k)) [
    | inl same ↦ rw same (h, hs.1)
    | inr other ↦ rw other (hs.0, insert-Keyed k es d h hs.1)
  ]

  pub bucket_by_key-Keyed :
      (es : List (Event P)) (d : Dict String (List (Event P)))
      → Keyed d
      → Keyed (bucket_by_key es d)
  unfolding bucket_by_key
  bucket_by_key-Keyed [] d h = h
  bucket_by_key-Keyed (e ∷ es) d h = bucket_by_key-Keyed es _ (
      insert-Keyed e.key _ d
        (All-append (λ f. f.key ≡ e.key) (lookup_or e.key d []) (e ∷ []) (lookup_or-Keyed e.key d h)
          (refl, tt))
        h)

  All-insert_sorted :
      (Q : Event P → Type 0) (e : Event P) (es : List (Event P))
      → Q e
      → All Q es
      → All Q (insert_sorted (ascending event_ts) e es)
  unfolding insert_sorted
  All-insert_sorted Q e [] h hs = (h, tt)
  All-insert_sorted Q e (f ∷ es) h hs = elim (Bool-cases (ascending event_ts f e)) [
    | inl lt ↦ rw lt (hs.0, All-insert_sorted Q e es h hs.1)
    | inr ge ↦ rw ge (h, hs)
  ]

  All-sort :
      (Q : Event P → Type 0) (es : List (Event P)) → All Q es → All Q (sort (ascending event_ts) es)
  unfolding sort
  All-sort Q [] h = tt
  All-sort Q (e ∷ es) h = All-insert_sorted Q e _ h.0 (All-sort Q es h.1)

  pub sort_buckets-Keyed : (d : Dict String (List (Event P))) → Keyed d → Keyed (sort_buckets d)
  unfolding sort_buckets
  sort_buckets-Keyed [] h = tt
  sort_buckets-Keyed ((k, es) ∷ d) h = (All-sort (λ e. e.key ≡ k) es h.0, sort_buckets-Keyed d h.1)
