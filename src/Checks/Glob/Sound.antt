-- ===== src/Checks/Glob/Sound.antt =====
-- globMatch accepts only what the pattern means.
use event_driven_tests_ai.Common.{
  suc, zero, none, not, Option, ℕ, ◌+◌, List, [], ◌∷◌, ◌++◌, arith, nat_beq, ◌≡◌, refl, Bool, true,
  false, length, drop, some, Bool-cases, inl, inr, All, drop-drop, ◌⊎◌, Option-cases,
}
use mathlib.Core.Path.{subst}
use event_driven_tests_ai.Checks.Glob.{
  starts_star, glob_match, at_end, bytes_eq, split_star, star, Bytes, index, ends_star,
  match_segments,
}
use event_driven_tests_ai.Checks.Glob.Spec.{
  bytes_eq→eq, split_star-join, split_star-NoStar, Matches, NoStar, has_prefix→eq, index-has_prefix,
  starred, Matches-append,
}

-- Whether the last of the segments behind the first star is empty.
abbrev pub last_empty : List Bytes → Bool
last_empty [] = false
last_empty ([] ∷ []) = true
last_empty ((c ∷ p) ∷ []) = false
last_empty (p ∷ q ∷ ps) = last_empty (q ∷ ps)

pub ends_star-starred :
    (p : Bytes) (ps : List Bytes)
    → NoStar p
    → All NoStar ps
    → ends_star (p ++ starred ps) ≡ last_empty ps
unfolding ends_star
ends_star-starred [] [] n ns = refl
ends_star-starred [] ([] ∷ []) n ns = refl
ends_star-starred [] ([] ∷ q ∷ ps) n ns = ends_star-starred [] (q ∷ ps) tt ns.1
ends_star-starred [] ((d ∷ q) ∷ []) n ns = ends_star-starred (d ∷ q) [] ns.0 tt
ends_star-starred [] ((d ∷ q) ∷ r ∷ ps) n ns = ends_star-starred (d ∷ q) (r ∷ ps) ns.0 ns.1
ends_star-starred (c ∷ []) [] n ns = n.0
ends_star-starred (c ∷ []) (q ∷ ps) n ns = ends_star-starred [] (q ∷ ps) tt ns
ends_star-starred (c ∷ d ∷ p) ps n ns = ends_star-starred (d ∷ p) ps n.1 ns

pub drop-length : (s : Bytes) → drop (length s) s ≡ []
drop-length [] = refl
drop-length (x ∷ s) = drop-length s

pub Matches-self : (s : Bytes) → Matches s s
Matches-self [] = refl
Matches-self (c ∷ s) = elim (Bool-cases (nat_beq c star)) [
  | inl e ↦ rw e (1, Matches-self s)
  | inr e ↦ rw e (s, refl, Matches-self s)
]

abbrev Finished : List Bytes → Bytes → ℕ → Type 0
Finished ps s pos = (last_empty ps ≡ true) ⊎ (pos ≡ length s)

last_empty-cons : (c : ℕ) (p : Bytes) (ps : List Bytes) → last_empty ((c ∷ p) ∷ ps) ≡ last_empty ps
last_empty-cons c p [] = refl
last_empty-cons c p (q ∷ ps) = refl

-- What one non-empty segment, found at `i`, adds to a match.
segment_step :
    (p : Bytes) (q s : Bytes) (pos i : ℕ)
    → NoStar p
    → index (drop pos s) p ≡ some i
    → Matches q (drop (pos + i + length p) s)
    → Matches (p ++ q) (drop i (drop pos s))
segment_step p q s pos i n found m =
    rw (has_prefix→eq p (drop i (drop pos s)) (index-has_prefix (drop pos s) p i found))
      (Matches-append p q _ n (rw (drop-drop i pos s, drop-drop (length p) (pos + i) s) m))

match_segments-Matches :
    (ps : List Bytes) (s : Bytes) (pos stop : ℕ)
    → All NoStar ps
    → match_segments false ps s pos ≡ some stop
    → Finished ps s stop
    → Matches (starred ps) (drop pos s)
unfolding match_segments
match_segments-Matches [] s pos stop ns h (inl e) = cc
match_segments-Matches [] s pos stop ns h (inr e) =
    let at : pos ≡ length s = ground arith in rw at (drop-length s)
match_segments-Matches ([] ∷ []) s pos stop ns h fin =
    (length (drop pos s), drop-length (drop pos s))
match_segments-Matches ([] ∷ q ∷ ps) s pos stop ns h fin =
    (0, match_segments-Matches (q ∷ ps) s pos stop ns.1 h fin)
match_segments-Matches ((c ∷ p) ∷ ps) s pos stop ns h fin =
    elim (Option-cases (index (drop pos s) (c ∷ p))) [
      | inl e ↦ absurd (ground arith)
      | inr (i, e) ↦ (
        i,
        segment_step (c ∷ p) (starred ps) s pos i ns.0 e (
            match_segments-Matches ps s (pos + i + length (c ∷ p)) stop ns.1 (ground arith)
              (rw (last_empty-cons c p ps) at fin)),
      )
    ]

every_segment-Matches :
    (first : Bytes) (others : List Bytes) (s : Bytes) (stop : ℕ)
    → NoStar first
    → All NoStar others
    → match_segments (not (starts_star (first ++ starred others))) (first ∷ others) s 0 ≡ some stop
    → Finished others s stop
    → Matches (first ++ starred others) s
unfolding match_segments starts_star
every_segment-Matches [] others s stop n ns h fin = match_segments-Matches others s 0 stop ns h fin
every_segment-Matches (c ∷ p) others s stop n ns h fin = elim (Option-cases (index s (c ∷ p))) [
  | inl e ↦ absurd (ground arith)
  | inr (zero, e) ↦
      segment_step (c ∷ p) (starred others) s 0 0 n e
        (match_segments-Matches others s (0 + 0 + length (c ∷ p)) stop ns (ground arith) fin)
  | inr (suc i, e) ↦ absurd (ground (arith, n.0))
]

at_end→Finished :
    (pattern : Bytes) (ps : List Bytes) (s : Bytes) (o : Option ℕ)
    → ends_star pattern ≡ last_empty ps
    → at_end pattern s o ≡ true
    → (stop : ℕ) × (o ≡ some stop) × Finished ps s stop
at_end→Finished pattern ps s none e h = cc
at_end→Finished pattern ps s (some stop) e h = (stop, refl, ground arith)

accepted-Matches :
    (first : Bytes) (others : List Bytes) (s : Bytes)
    → NoStar first
    → All NoStar others
    → at_end
        (first ++ starred others)
        s
        (match_segments (not (starts_star (first ++ starred others))) (first ∷ others) s 0)
      ≡ true
    → Matches (first ++ starred others) s
accepted-Matches first others s n ns h =
    let (stop, e, fin) =
      at_end→Finished (first ++ starred others) others s _ (ends_star-starred first others n ns)
        h in
    every_segment-Matches first others s stop n ns e fin

-- Whenever globMatch accepts a text, the text is of the pattern's form: every '*' of the pattern
-- can be read as some run of bytes so that pattern and text agree.
pub glob_match-Matches : (pattern s : Bytes) → glob_match pattern s ≡ true → Matches pattern s
unfolding glob_match
glob_match-Matches pattern s h = elim (Bool-cases (bytes_eq pattern (star ∷ []))) [
  | inl any_text ↦ rw (bytes_eq→eq pattern (star ∷ []) any_text) (length s, drop-length s)
  | inr other ↦ elim (Bool-cases (bytes_eq pattern s)) [
    | inl same ↦ rw (bytes_eq→eq pattern s same) (Matches-self s)
    | inr differ ↦
        let (n, ns) = split_star-NoStar pattern in
        let first : Bytes = (split_star pattern).0 in
        let others : List Bytes = (split_star pattern).1 in
        subst
          (λ p.
            at_end p s (match_segments (not (starts_star p)) (first ∷ others) s 0) ≡ true
            → Matches p s)
          (split_star-join pattern) (accepted-Matches first others s n ns) (rw (other, differ) at h)
  ]
]
