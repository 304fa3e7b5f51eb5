-- ===== src/Events/Insertion.antt =====
-- The insertion sort of pkg/events/window.go.
use event_driven_tests_ai.Common.{
  ℕ, List, [], ◌∷◌, ◌++◌, arith, if◌then◌else◌, ltb, string_comparable, nat_comparable, ◌≡◌, false,
  Bool-cases, inl, inr, All,
}
use mathlib.Core.List.{append-nil, reverse, reverse_aux, reverse_perm, perm_middle, Perm}
use mathlib.Core.List.Perm
use event_driven_tests_ai.Common.Sort.{ascending, IsSorted}
use event_driven_tests_ai.Events.{Event, event_ts}

module _ {ℓ} {P : Type ℓ} where
  -- The inner loop of `AllSorted`: the new event moves left past the later ones. The events to its
  -- left are held nearest first.
  unfoldable pub sink : Event P → List (Event P) → List (Event P)
  sink e [] = e ∷ []
  sink e (x ∷ xs) = if ltb e.ts x.ts then x ∷ sink e xs else e ∷ x ∷ xs

  -- The outer loop, over the events not yet placed.
  unfoldable pub insertion_sort : List (Event P) → List (Event P) → List (Event P)
  unfolding sink
  insertion_sort done [] = done
  insertion_sort done (e ∷ es) = insertion_sort (sink e done) es

  unfoldable pub sorted_by_insertion : List (Event P) → List (Event P)
  unfolding insertion_sort
  sorted_by_insertion es = reverse (insertion_sort [] es)

  -- A descending list, as the loop keeps it.
  abbrev IsDescending : List (Event P) → Type 0
  IsDescending [] = Unit
  IsDescending (x ∷ xs) = All (λ y. ltb x.ts y.ts ≡ false) xs × IsDescending xs

  All-sink :
      (t : ℕ) (e : Event P) (xs : List (Event P))
      → ltb t e.ts ≡ false
      → All (λ y. ltb t y.ts ≡ false) xs
      → All (λ y. ltb t y.ts ≡ false) (sink e xs)
  unfolding sink
  All-sink t e [] h hs = (h, tt)
  All-sink t e (x ∷ xs) h hs = ground (arith, All-sink t e xs h hs.1)

  All-not_lt_trans :
      (t u : ℕ) (xs : List (Event P))
      → ltb t u ≡ false
      → All (λ y. ltb u y.ts ≡ false) xs
      → All (λ y. ltb t y.ts ≡ false) xs
  All-not_lt_trans t u [] h hs = tt
  All-not_lt_trans t u (x ∷ xs) h hs = (ground arith, All-not_lt_trans t u xs h hs.1)

  sink-IsDescending :
      (e : Event P) (xs : List (Event P)) → IsDescending xs → IsDescending (sink e xs)
  unfolding sink
  sink-IsDescending e [] h = (tt, tt)
  sink-IsDescending e (x ∷ xs) h = elim (Bool-cases (ltb e.ts x.ts)) [
    | inl lt ↦ rw lt (All-sink x.ts e xs (ground arith) h.0, sink-IsDescending e xs h.1)
    | inr ge ↦ rw ge ((ge, All-not_lt_trans e.ts x.ts xs ge h.0), h)
  ]

  insertion_sort-IsDescending :
      (done es : List (Event P)) → IsDescending done → IsDescending (insertion_sort done es)
  unfolding insertion_sort
  insertion_sort-IsDescending done [] h = h
  insertion_sort-IsDescending done (e ∷ es) h =
      insertion_sort-IsDescending (sink e done) es (sink-IsDescending e done h)

  -- No event of the second list is earlier than one of the first.
  abbrev IsAbove : List (Event P) → List (Event P) → Type 0
  IsAbove xs ys = All (λ x. All (λ y. ltb (event_ts y) (event_ts x) ≡ false) ys) xs

  IsAbove-cons :
      (x : Event P) (xs ys : List (Event P))
      → All (λ z. ltb x.ts z.ts ≡ false) xs
      → IsAbove xs ys
      → IsAbove xs (x ∷ ys)
  IsAbove-cons x [] ys h hs = tt
  IsAbove-cons x (z ∷ xs) ys h hs = ((h.0, hs.0), IsAbove-cons x xs ys h.1 hs.1)

  reverse_aux-IsSorted :
      (xs ys : List (Event P))
      → IsDescending xs
      → IsSorted (ascending event_ts) ys
      → IsAbove xs ys
      → IsSorted (ascending event_ts) (reverse_aux xs ys)
  reverse_aux-IsSorted [] ys d s a = s
  reverse_aux-IsSorted (x ∷ xs) ys d s a =
      reverse_aux-IsSorted xs (x ∷ ys) d.1 (a.0, s) (IsAbove-cons x xs ys d.0 a.1)

  IsAbove-nil : (xs : List (Event P)) → IsAbove xs []
  IsAbove-nil [] = tt
  IsAbove-nil (x ∷ xs) = (tt, IsAbove-nil xs)

  pub sorted_by_insertion-IsSorted :
      (es : List (Event P)) → IsSorted (ascending event_ts) (sorted_by_insertion es)
  unfolding sorted_by_insertion
  sorted_by_insertion-IsSorted es =
      let done = insertion_sort [] es in
      reverse_aux-IsSorted done [] (insertion_sort-IsDescending [] es tt) tt (IsAbove-nil done)

  sink-perm : (e : Event P) (xs : List (Event P)) → Perm (sink e xs) (e ∷ xs)
  unfolding sink
  sink-perm e [] = Perm.refl (e ∷ [])
  sink-perm e (x ∷ xs) = elim (Bool-cases (ltb e.ts x.ts)) [
    | inl lt ↦ rw lt (Perm.trans (Perm.cons x (sink-perm e xs)) (Perm.swap e x xs))
    | inr ge ↦ rw ge (Perm.refl (e ∷ x ∷ xs))
  ]

  insertion_sort-perm : (done es : List (Event P)) → Perm (insertion_sort done es) (es ++ done)
  unfolding insertion_sort
  insertion_sort-perm done [] = Perm.refl done
  insertion_sort-perm done (e ∷ es) =
      Perm.trans (insertion_sort-perm (sink e done) es)
        (Perm.trans (Perm.append (Perm.refl es) (sink-perm e done)) (perm_middle es done))

  pub sorted_by_insertion-perm : (es : List (Event P)) → Perm (sorted_by_insertion es) es
  unfolding sorted_by_insertion
  sorted_by_insertion-perm es =
      Perm.trans (reverse_perm (insertion_sort [] es))
        (rw append-nil at (insertion_sort-perm [] es))
