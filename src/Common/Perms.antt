-- ===== src/Common/Perms.antt =====
-- Lists in another order: what maps, selections and concatenations make of them.
use mathlib.Core.Path.{◌≡◌, refl, ap, subst}
use mathlib.Core.Bool.{Bool}
use mathlib.Core.Logic.{inl, inr}
use mathlib.Core.List.{List, [], ◌∷◌, ◌++◌, map, Permᴰ}
use mathlib.Core.List.Permᴰ
use mathlib.Core.List.Permᴰ.{nil, cons, swap, trans}
use event_driven_tests_ai.Common.Tests.{if◌then◌else◌, Bool-cases}
use event_driven_tests_ai.Common.Lists.{select}

module _ {A : Type 0} where
  -- Two blocks change places.
  pub append_swap : (xs ys zs : List A) → Permᴰ (xs ++ (ys ++ zs)) (ys ++ (xs ++ zs))
  append_swap [] ys zs = Permᴰ.refl (ys ++ zs)
  append_swap (x ∷ xs) ys zs =
      trans (cons refl (append_swap xs ys zs)) (Permᴰ.symm (Permᴰ.middle x ys (xs ++ zs)))

module _ {A B : Type 0} (f : A → B) where
  pub map-Permᴰ : (xs ys : List A) → Permᴰ xs ys → Permᴰ (map f xs) (map f ys)
  map-Permᴰ _ _ nil = nil
  map-Permᴰ _ _ (cons {l₁ = xs} {l₂ = ys} e h) = cons (ap f e) (map-Permᴰ xs ys h)
  map-Permᴰ _ _ (swap e g) = swap (ap f e) (ap f g)
  map-Permᴰ xs zs (trans {l₂ = ys} g h) = trans (map-Permᴰ xs ys g) (map-Permᴰ ys zs h)

module _ {A B : Type 0} (f : A → List B) where
  -- The blocks of a list, one after another.
  abbrev pub blocks : List A → List B
  blocks [] = []
  blocks (x ∷ xs) = f x ++ blocks xs

  pub blocks-Permᴰ : (xs ys : List A) → Permᴰ xs ys → Permᴰ (blocks xs) (blocks ys)
  blocks-Permᴰ _ _ nil = nil
  blocks-Permᴰ _ _ (cons {a = a} {l₁ = xs} {l₂ = ys} e h) =
      subst (λ z. Permᴰ (f a ++ blocks xs) (f z ++ blocks ys)) e
        (Permᴰ.append_left (f a) (blocks-Permᴰ xs ys h))
  blocks-Permᴰ _ _ (swap {a = a} {b = b} {a' = c} {b' = d} {l = xs} e g) =
      subst (λ z. Permᴰ (f a ++ (f b ++ blocks xs)) (f c ++ (f z ++ blocks xs))) e
        (subst (λ z. Permᴰ (f a ++ (f b ++ blocks xs)) (f z ++ (f a ++ blocks xs))) g
          (append_swap (f a) (f b) (blocks xs)))
  blocks-Permᴰ xs zs (trans {l₂ = ys} g h) = trans (blocks-Permᴰ xs ys g) (blocks-Permᴰ ys zs h)

module _ {A : Type 0} (p : A → Bool) where
  abbrev one_if : A → List A
  one_if x = if p x then x ∷ [] else []

  select-blocks : (xs : List A) → select p xs ≡ blocks one_if xs
  select-blocks [] = refl
  select-blocks (x ∷ xs) = elim (Bool-cases (p x)) [
    | inl chosen ↦ rw (chosen, select-blocks xs)
    | inr left ↦ rw (left, select-blocks xs)
  ]

  pub select-Permᴰ : (xs ys : List A) → Permᴰ xs ys → Permᴰ (select p xs) (select p ys)
  select-Permᴰ xs ys h = rw (select-blocks xs, select-blocks ys) (blocks-Permᴰ one_if xs ys h)
