-- ===== src/Storage/Listing.antt =====
-- What the lists of runs have in common: a sort by start, newest first, and a limit.
use event_driven_tests_ai.Common.{
  ℕ, suc, List, [], ◌∷◌, ◌++◌, arith, if◌then◌else◌, ltb, not, ◌&&◌, ◌≡◌, refl, Bool, length, take,
  drop, min, take-append-drop, length-take, Bool-cases, inl, inr,
}
use mathlib.Core.List.{Perm, append-nil}
use event_driven_tests_ai.Common.Int.{ℤ, non_positive, pos_part}
use event_driven_tests_ai.Common.Sort.{
  insert_sorted, sort, descending, descending-IsWeakOrder, IsSorted, sort-IsSorted, sort-perm,
}
use event_driven_tests_ai.Events.{Time}

-- How many items a limit lets through.
abbrev pub allowed : ℤ → ℕ → ℕ
allowed limit n = if non_positive limit then n else min (pos_part limit) n

module _ {A : Type 0} where
  -- `if limit > 0 && len(out) > limit { out = out[:limit] }`
  unfoldable pub cut : ℤ → List A → List A
  cut limit xs =
      if not (non_positive limit) && ltb (pos_part limit) (length xs)
      then take (pos_part limit) xs
      else xs

  -- The result holds the newest items: with the items left out it is all of them, in order of their
  -- start from the newest to the oldest, and its length is what the limit allows.
  pub record IsNewest (start : A → Time) (limit : ℤ) (matching result : List A) : Type 0 where
    pub rest : List A
    pub perm : Perm (result ++ rest) matching
    pub sorted : IsSorted (descending start) (result ++ rest)
    pub size : length result ≡ allowed limit (length matching)

  left_out : ℤ → List A → List A
  left_out limit xs =
      if not (non_positive limit) && ltb (pos_part limit) (length xs)
      then drop (pos_part limit) xs
      else []

  cut-append-left_out : (limit : ℤ) (xs : List A) → cut limit xs ++ left_out limit xs ≡ xs
  unfolding cut left_out
  cut-append-left_out limit xs =
      elim (Bool-cases (not (non_positive limit) && ltb (pos_part limit) (length xs))) [
        | inl long ↦ rw long (take-append-drop (pos_part limit) xs)
        | inr short ↦ rw short (append-nil xs)
      ]

  length-cut : (limit : ℤ) (xs : List A) → length (cut limit xs) ≡ allowed limit (length xs)
  unfolding cut
  length-cut limit xs = ground (arith, length-take (pos_part limit) xs)

  length-insert_sorted :
      (less : A → A → Bool) (x : A) (xs : List A)
      → length (insert_sorted less x xs) ≡ suc (length xs)
  unfolding insert_sorted
  length-insert_sorted less x [] = refl
  length-insert_sorted less x (y ∷ ys) = ground (arith, length-insert_sorted less x ys)

  length-sort : (less : A → A → Bool) (xs : List A) → length (sort less xs) ≡ length xs
  unfolding sort
  length-sort less [] = refl
  length-sort less (x ∷ xs) =
      ground (arith, length-insert_sorted less x (sort less xs), length-sort less xs)

  pub cut-sort-IsNewest :
      (start : A → Time) (limit : ℤ) (xs : List A)
      → IsNewest start limit xs (cut limit (sort (descending start) xs))
  cut-sort-IsNewest start limit xs =
      let ys = sort (descending start) xs in
      record {
        rest = left_out limit ys;
        perm = rw (cut-append-left_out limit ys) (sort-perm (descending start) xs);
        sorted =
            rw (cut-append-left_out limit ys)
              (sort-IsSorted (descending start) (descending-IsWeakOrder start) xs);
        size = rw (length-cut limit ys, length-sort (descending start) xs);
      }
