-- ===== src/Checks/Glob/Spec.antt =====
-- What a pattern with '*' means: a star stands for any bytes, any other byte for itself.
use event_driven_tests_ai.Common.{
  ℕ, zero, suc, List, [], ◌∷◌, ◌++◌, arith, if◌then◌else◌, nat_beq, ◌≡◌, refl, ap, ◌∙◌, true, false,
  length, drop, some, Bool-cases, inl, inr, All, ◌≤◌,
}
use event_driven_tests_ai.Checks.Glob.{star, Bytes, bytes_eq, has_prefix, index, split_star}

-- After a star any number of bytes may be passed over.
abbrev pub Matches : Bytes → Bytes → Type 0
Matches [] s = s ≡ []
Matches (c ∷ p) s =
    if nat_beq c star
    then ((k : ℕ) × Matches p (drop k s))
    else ((t : Bytes) × (s ≡ c ∷ t) × Matches p t)

abbrev pub NoStar : Bytes → Type 0
NoStar = All (λ c. nat_beq c star ≡ false)

pub bytes_eq→eq : (s t : Bytes) → bytes_eq s t ≡ true → s ≡ t
unfolding bytes_eq
bytes_eq→eq [] [] h = refl
bytes_eq→eq [] (y ∷ t) h = cc
bytes_eq→eq (x ∷ s) [] h = cc
bytes_eq→eq (x ∷ s) (y ∷ t) h = ground (arith, bytes_eq→eq s t)

pub bytes_eq_refl : (s : Bytes) → bytes_eq s s ≡ true
unfolding bytes_eq
bytes_eq_refl [] = refl
bytes_eq_refl (x ∷ s) = ground (arith, bytes_eq_refl s)

-- A prefix and what is behind it.
pub has_prefix→eq : (p s : Bytes) → has_prefix p s ≡ true → s ≡ p ++ drop (length p) s
unfolding has_prefix
has_prefix→eq [] s h = refl
has_prefix→eq (c ∷ p) [] h = cc
has_prefix→eq (c ∷ p) (d ∷ s) h = ground (arith, has_prefix→eq p s)

pub has_prefix-append : (p s : Bytes) → has_prefix p (p ++ s) ≡ true
unfolding has_prefix
has_prefix-append [] s = refl
has_prefix-append (c ∷ p) s = ground (arith, has_prefix-append p s)

pub index-has_prefix : (s p : Bytes) (i : ℕ) → index s p ≡ some i → has_prefix p (drop i s) ≡ true
unfolding index
index-has_prefix [] p zero h = ground arith
index-has_prefix [] p (suc i) h = absurd (ground arith)
index-has_prefix (d ∷ s) p zero h = ground arith
index-has_prefix (d ∷ s) p (suc i) h = index-has_prefix s p i (ground arith)

-- The first position is found, and is no later than any other.
pub index-le :
    (s p : Bytes) (j : ℕ)
    → has_prefix p (drop j s) ≡ true
    → (i : ℕ) × (index s p ≡ some i) × (i ≤ j)
unfolding index
index-le [] p zero h = (0, rw h, omega arith)
index-le [] p (suc j) h = (0, rw h, omega arith)
index-le (d ∷ s) p zero h = (0, rw h, omega arith)
index-le (d ∷ s) p (suc j) h = elim (Bool-cases (has_prefix p (d ∷ s))) [
  | inl here ↦ (0, rw here, omega arith)
  | inr later ↦ let (i, e, le) = index-le s p j h in (suc i, rw (later, e), omega arith)
]

-- The pattern that segments come from: a star before each.
abbrev pub starred : List Bytes → Bytes
starred [] = []
starred (p ∷ ps) = star ∷ (p ++ starred ps)

-- Splitting a pattern loses nothing, and no segment has a star.
pub split_star-join :
    (pattern : Bytes) → (split_star pattern).0 ++ starred (split_star pattern).1 ≡ pattern
unfolding split_star
split_star-join [] = refl
split_star-join (c ∷ p) = elim (Bool-cases (nat_beq c star)) [
  | inl e ↦ rw e (ground (arith, split_star-join p))
  | inr e ↦ rw e (ap (λ q. c ∷ q) (split_star-join p))
]

pub split_star-NoStar :
    (pattern : Bytes) → NoStar (split_star pattern).0 × All NoStar (split_star pattern).1
unfolding split_star
split_star-NoStar [] = (tt, tt)
split_star-NoStar (c ∷ p) =
    let (first, others) = split_star-NoStar p in
    elim (Bool-cases (nat_beq c star)) [
      | inl e ↦ rw e (tt, (first, others))
      | inr e ↦ rw e ((e, first), others)
    ]

-- A segment matches itself and nothing else.
pub Matches-append : (p q s : Bytes) → NoStar p → Matches q s → Matches (p ++ q) (p ++ s)
Matches-append [] q s n m = m
Matches-append (c ∷ p) q s n m = rw n.0 (p ++ s, refl, Matches-append p q s n.1 m)

pub Matches-append_inv :
    (p q s : Bytes) → NoStar p → Matches (p ++ q) s → (t : Bytes) × (s ≡ p ++ t) × Matches q t
Matches-append_inv [] q s n m = (s, refl, m)
Matches-append_inv (c ∷ p) q s n m =
    let (t, e, m') : (t : Bytes) × (s ≡ c ∷ t) × Matches (p ++ q) t = rw n.0 at m in
    let (u, e', m'') = Matches-append_inv p q t n.1 m' in (u, e ∙ ap (λ r. c ∷ r) e', m'')
