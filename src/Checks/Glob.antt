-- ===== src/Checks/Glob.antt =====
-- globMatch of pkg/checks/operators.go, over byte strings.
pub mod Spec
pub mod Sound
pub mod Complete
use event_driven_tests_ai.Common.{
  ℕ, zero, suc, ◌+◌, List, [], ◌∷◌, ◌++◌, arith, if◌then◌else◌, nat_beq, ◌≡◌, refl, Bool, true,
  false, not, ◌&&◌, ◌||◌, length, drop, Option, none, some,
}

abbrev pub star : ℕ
star = b'*'

abbrev pub Bytes : Type 0
Bytes = List ℕ

unfoldable pub bytes_eq : Bytes → Bytes → Bool
bytes_eq [] [] = true
bytes_eq (x ∷ xs) (y ∷ ys) = nat_beq x y && bytes_eq xs ys
bytes_eq _ _ = false

-- `strings.HasPrefix(s, p)`
unfoldable pub has_prefix : Bytes → Bytes → Bool
has_prefix [] s = true
has_prefix (c ∷ p) [] = false
has_prefix (c ∷ p) (d ∷ s) = nat_beq c d && has_prefix p s

-- `strings.Index(s, p)`: the first position at which `p` stands in `s`.
unfoldable pub index : Bytes → Bytes → Option ℕ
unfolding has_prefix
index [] p = if has_prefix p [] then some 0 else none
index (d ∷ s) p =
    let later = index s p in
    if has_prefix p (d ∷ s) then some 0 else elim later [ none ↦ none | some i ↦ some (suc i) ]

-- `strings.Split(pattern, "*")`: the first segment, and the others.
unfoldable pub split_star : Bytes → Bytes × List Bytes
split_star [] = ([], [])
split_star (c ∷ p) =
    let (first, others) = split_star p in
    if nat_beq c star then ([], first ∷ others) else (c ∷ first, others)

abbrev is_empty : Bytes → Bool
is_empty [] = true
is_empty (c ∷ p) = false

-- `strings.HasPrefix(pattern, "*")` and `strings.HasSuffix(pattern, "*")`
unfoldable pub starts_star : Bytes → Bool
starts_star [] = false
starts_star (c ∷ p) = nat_beq c star

unfoldable pub ends_star : Bytes → Bool
ends_star [] = false
ends_star (c ∷ []) = nat_beq c star
ends_star (c ∷ d ∷ p) = ends_star (d ∷ p)

-- The loop over the segments: `anchored` holds for the first one of a pattern with no leading '*'.
-- The result is the position behind the last segment.
unfoldable pub match_segments : Bool → List Bytes → Bytes → ℕ → Option ℕ
unfolding index
match_segments anchored [] s pos = some pos
match_segments anchored (p ∷ ps) s pos =
    let skipped = match_segments false ps s pos in
    if is_empty p then skipped else elim (index (drop pos s) p) [
      | none ↦ none
      | some i ↦
          let rest = match_segments false ps s (pos + i + length p) in
          if anchored && not (nat_beq i 0) then none else rest
    ]

abbrev pub at_end : Bytes → Bytes → Option ℕ → Bool
at_end pattern s none = false
at_end pattern s (some pos) = ends_star pattern || nat_beq pos (length s)

unfoldable pub glob_match : Bytes → Bytes → Bool
unfolding bytes_eq split_star starts_star ends_star match_segments
glob_match pattern s =
    let (first, others) = split_star pattern in
    if bytes_eq pattern (star ∷ []) || bytes_eq pattern s
    then true
    else at_end pattern s (match_segments (not (starts_star pattern)) (first ∷ others) s 0)
