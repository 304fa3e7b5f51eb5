-- ===== src/Common/Dict.antt =====
-- A Go map as an association list with one entry for each key. A range over a map visits its
-- entries in the order of the list: Go leaves that order open, and this is one of its choices.
use event_driven_tests_ai.Common.Tests.{Comparable, ◌==◌, if◌then◌else◌}
use mathlib.Core.Path.{◌≡◌, refl}
use mathlib.Core.Bool.{true}
use mathlib.Core.Option.{Option, none, some}
use mathlib.Core.List.{List, [], ◌∷◌}
use native.Mathlib.Omega.{arith}

abbrev pub Dict {ℓ κ} : Type ℓ → Type κ → Type (ℓ ⊔ κ)
Dict K V = List (K × V)

module _ {ℓ κ} {K : Type ℓ} {V : Type κ} ⦃e : Comparable K⦄ where
  unfoldable pub lookup : K → Dict K V → Option V
  lookup k [] = none
  lookup k ((j, v) ∷ d) = if j == k then some v else lookup k d

  -- `m[k] = v`
  unfoldable pub insert : K → V → Dict K V → Dict K V
  insert k v [] = (k, v) ∷ []
  insert k v ((j, w) ∷ d) = if j == k then (k, v) ∷ d else (j, w) ∷ insert k v d

  -- `delete(m, k)`
  unfoldable pub remove : K → Dict K V → Dict K V
  remove k [] = []
  remove k ((j, w) ∷ d) = if j == k then remove k d else (j, w) ∷ remove k d

  pub lookup-insert :
      (k j : K) (v : V) (d : Dict K V)
      → lookup j (insert k v d) ≡ (if k == j then some v else lookup j d)
  unfolding lookup insert
  lookup-insert k j v [] = refl
  lookup-insert k j v ((i, w) ∷ d) =
      ground (arith, e.equal_iff k j, e.equal_iff i k, e.equal_iff i j, lookup-insert k j v d)

  pub lookup-remove :
      (k j : K) (d : Dict K V) → lookup j (remove k d) ≡ (if k == j then none else lookup j d)
  unfolding lookup remove
  lookup-remove k j [] = ground arith
  lookup-remove k j ((i, w) ∷ d) =
      ground (arith, e.equal_iff k j, e.equal_iff i k, e.equal_iff i j, lookup-remove k j d)

  pub lookup-empty : (k : K) → lookup k [] ≡ none
  unfolding lookup
  lookup-empty k = refl

pub eq_refl {ℓ} : {K : Type ℓ} ⦃e : Comparable K⦄ (k : K) → (k == k) ≡ true
eq_refl ⦃e⦄ k = (e.equal_iff k k).1 refl

-- `m[k]` where a missing key reads as the zero value.
module _ {ℓ κ} {K : Type ℓ} {V : Type κ} ⦃e : Comparable K⦄ where
  unfoldable pub lookup_or : K → Dict K V → V → V
  unfolding lookup
  lookup_or k d z = elim (lookup k d) [ none ↦ z | some v ↦ v ]

  pub lookup_or-cons :
      (k j : K) (v z : V) (d : Dict K V)
      → lookup_or k ((j, v) ∷ d) z ≡ (if j == k then v else lookup_or k d z)
  unfolding lookup_or
  lookup_or-cons k j v z d = ground arith

  pub lookup_or-insert :
      (k j : K) (v z : V) (d : Dict K V)
      → lookup_or j (insert k v d) z ≡ (if k == j then v else lookup_or j d z)
  unfolding lookup_or
  lookup_or-insert k j v z d = ground (arith, lookup-insert k j v d)

  pub lookup_or-insert_self : (k : K) (v z : V) (d : Dict K V) → lookup_or k (insert k v d) z ≡ v
  lookup_or-insert_self k v z d = ground (arith, lookup_or-insert k k v z d, e.equal_iff k k)

pub ruleset dict_laws = (lookup-insert, lookup-remove, lookup-empty, lookup_or-insert, eq_refl)
