-- ===== src/Common/Sort.antt =====
-- `sort.Slice` with a `less` function, as a stable insertion sort. Go's sort is not stable: where
-- two items are not told apart by `less` this is one of its possible results.
use mathlib.Core.Path.{◌≡◌, refl}
use mathlib.Core.Bool.{Bool, true, false}
use mathlib.Core.List.{List, [], ◌∷◌, Perm}
use mathlib.Core.List.Perm
use native.Mathlib.Omega.{arith}
use event_driven_tests_ai.Common.Tests.{if◌then◌else◌, ltb, Bool-cases}
use event_driven_tests_ai.Common.Lists.{All}
use mathlib.Core.Logic.{inl, inr}
use Prim.Native.Nat.{ℕ}

-- What Go asks of `less`.
pub record IsWeakOrder {ℓ} {A : Type ℓ} (less : A → A → Bool) : Type ℓ where
  pub asym : (a b : A) → less a b ≡ true → less b a ≡ false
  pub negative_trans : (a b c : A) → less b a ≡ false → less c b ≡ false → less c a ≡ false

module _ {ℓ} {A : Type ℓ} (less : A → A → Bool) where
  unfoldable pub insert_sorted : A → List A → List A
  insert_sorted x [] = x ∷ []
  insert_sorted x (y ∷ ys) = if less y x then y ∷ insert_sorted x ys else x ∷ y ∷ ys

  unfoldable pub sort : List A → List A
  unfolding insert_sorted
  sort [] = []
  sort (x ∷ xs) = insert_sorted x (sort xs)

  -- No item stands before one that is less than it.
  abbrev pub IsSorted : List A → Type ℓ
  IsSorted [] = Unit
  IsSorted (x ∷ xs) = All (λ y. less y x ≡ false) xs × IsSorted xs

  pub insert_sorted-perm : (x : A) (xs : List A) → Perm (insert_sorted x xs) (x ∷ xs)
  unfolding insert_sorted
  insert_sorted-perm x [] = Perm.refl (x ∷ [])
  insert_sorted-perm x (y ∷ ys) = elim (Bool-cases (less y x)) [
    | inl lt ↦ rw lt (Perm.trans (Perm.cons y (insert_sorted-perm x ys)) (Perm.swap x y ys))
    | inr ge ↦ rw ge (Perm.refl (x ∷ y ∷ ys))
  ]

  pub sort-perm : (xs : List A) → Perm (sort xs) xs
  unfolding sort
  sort-perm [] = Perm.refl []
  sort-perm (x ∷ xs) = Perm.trans (insert_sorted-perm x (sort xs)) (Perm.cons x (sort-perm xs))

  module _ (order : IsWeakOrder less) where
    All-ge_trans :
        (x y : A) (ys : List A)
        → less y x ≡ false
        → All (λ z. less z y ≡ false) ys
        → All (λ z. less z x ≡ false) ys
    All-ge_trans x y [] h hs = tt
    All-ge_trans x y (z ∷ ys) h hs = (order.negative_trans x y z h hs.0, All-ge_trans x y ys h hs.1)

    All-insert_sorted :
        (z x : A) (ys : List A)
        → less x z ≡ false
        → All (λ w. less w z ≡ false) ys
        → All (λ w. less w z ≡ false) (insert_sorted x ys)
    unfolding insert_sorted
    All-insert_sorted z x [] h hs = (h, tt)
    All-insert_sorted z x (y ∷ ys) h hs = elim (Bool-cases (less y x)) [
      | inl lt ↦ rw lt (hs.0, All-insert_sorted z x ys h hs.1)
      | inr ge ↦ rw ge (h, hs)
    ]

    insert_sorted-IsSorted : (x : A) (ys : List A) → IsSorted ys → IsSorted (insert_sorted x ys)
    unfolding insert_sorted
    insert_sorted-IsSorted x [] h = (tt, tt)
    insert_sorted-IsSorted x (y ∷ ys) h = elim (Bool-cases (less y x)) [
      | inl lt ↦
          rw lt (All-insert_sorted y x ys (order.asym y x lt) h.0, insert_sorted-IsSorted x ys h.1)
      | inr ge ↦ rw ge ((ge, All-ge_trans x y ys ge h.0), h)
    ]

    pub sort-IsSorted : (xs : List A) → IsSorted (sort xs)
    unfolding sort
    sort-IsSorted [] = tt
    sort-IsSorted (x ∷ xs) = insert_sorted-IsSorted x (sort xs) (sort-IsSorted xs)

-- The order by a number, either way round.
module _ {ℓ} {A : Type ℓ} (key : A → ℕ) where
  abbrev pub ascending : A → A → Bool
  ascending a b = ltb (key a) (key b)

  abbrev pub descending : A → A → Bool
  descending a b = ltb (key b) (key a)

  pub ascending-IsWeakOrder : IsWeakOrder ascending
  ascending-IsWeakOrder = record {
    asym = λ a b h. ground arith;
    negative_trans = λ a b c h k. ground arith;
  }

  pub descending-IsWeakOrder : IsWeakOrder descending
  descending-IsWeakOrder = record {
    asym = λ a b h. ground arith;
    negative_trans = λ a b c h k. ground arith;
  }

-- Go's `<` on strings, over their code points, which compare as their UTF-8 bytes do.
unfoldable pub text_less : List ℕ → List ℕ → Bool
text_less [] [] = false
text_less [] (y ∷ ys) = true
text_less (x ∷ xs) [] = false
text_less (x ∷ xs) (y ∷ ys) = if ltb x y then true else if ltb y x then false else text_less xs ys

text_less_asym : (xs ys : List ℕ) → text_less xs ys ≡ true → text_less ys xs ≡ false
unfolding text_less
text_less_asym [] [] h = refl
text_less_asym [] (y ∷ ys) h = refl
text_less_asym (x ∷ xs) [] h = cc
text_less_asym (x ∷ xs) (y ∷ ys) h = ground (arith, text_less_asym xs ys)

text_less_negative_trans :
    (xs ys zs : List ℕ)
    → text_less ys xs ≡ false
    → text_less zs ys ≡ false
    → text_less zs xs ≡ false
unfolding text_less
text_less_negative_trans [] [] zs h k = k
text_less_negative_trans [] (y ∷ ys) [] h k = refl
text_less_negative_trans [] (y ∷ ys) (z ∷ zs) h k = refl
text_less_negative_trans (x ∷ xs) [] [] h k = cc
text_less_negative_trans (x ∷ xs) (y ∷ ys) [] h k = cc
text_less_negative_trans (x ∷ xs) [] (z ∷ zs) h k = absurd (cc)
text_less_negative_trans (x ∷ xs) (y ∷ ys) (z ∷ zs) h k =
    ground (arith, text_less_negative_trans xs ys zs)

-- The order of items by a text.
module _ {ℓ} {A : Type ℓ} (name : A → List ℕ) where
  abbrev pub by_text : A → A → Bool
  by_text a b = text_less (name a) (name b)

  pub by_text-IsWeakOrder : IsWeakOrder by_text
  by_text-IsWeakOrder = record {
    asym = λ a b h. text_less_asym (name a) (name b) h;
    negative_trans = λ a b c h k. text_less_negative_trans (name a) (name b) (name c) h k;
  }
