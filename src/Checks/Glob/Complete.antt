-- ===== src/Checks/Glob/Complete.antt =====
-- Where globMatch accepts all that the pattern means, and where it does not.
use event_driven_tests_ai.Common.{
  ap, ℕ, suc, ◌+◌, ◌-◌, List, [], ◌∷◌, ◌++◌, arith, nat_beq, ◌≡◌, ◌≢◌, refl, sym, ◌∙◌, Bool, true,
  false, not, ◌&&◌, length, drop, some, All, drop-drop, ◌≤◌, length-append,
}
use mathlib.Core.Path.{subst}
use event_driven_tests_ai.Checks.Glob.{
  bytes_eq, star, Bytes, has_prefix, index, split_star, starts_star, ends_star, match_segments,
  glob_match, at_end,
}
use event_driven_tests_ai.Checks.Glob.Sound.{Matches-self}
use event_driven_tests_ai.Checks.Glob.Spec.{
  Matches, NoStar, has_prefix-append, index-le, starred, split_star-join, split_star-NoStar,
  Matches-append_inv,
}
use event_driven_tests_ai.Checks.Glob.Sound.{last_empty, ends_star-starred}

-- A star may pass over more.
Matches-drop :
    (q : Bytes) (ps : List Bytes) (k : ℕ) (t : Bytes)
    → Matches (starred (q ∷ ps)) (drop k t)
    → Matches (starred (q ∷ ps)) t
Matches-drop q ps k t (j, m) = (k + j, rw (← drop-drop j k t) m)

drop-length-append : (p t : Bytes) → drop (length p) (p ++ t) ≡ t
drop-length-append [] t = refl
drop-length-append (c ∷ p) t = drop-length-append p t

-- Taking a segment at its first place leaves at least the text that any other place leaves.
earlier_place :
    (p q : Bytes) (ps : List Bytes) (s : Bytes) (pos i k : ℕ) (t : Bytes)
    → i ≤ k
    → drop k (drop pos s) ≡ p ++ t
    → Matches (starred (q ∷ ps)) t
    → Matches (starred (q ∷ ps)) (drop (pos + i + length p) s)
earlier_place p q ps s pos i k t le e m =
    let at : drop (k - i) (drop (pos + i + length p) s) ≡ t =
      drop-drop (k - i) (pos + i + length p) s
      ∙ (let n : pos + i + length p + (k - i) ≡ pos + k + length p = omega arith in
          rw n (
            sym (drop-drop (length p) (pos + k) s)
            ∙ rw (← drop-drop k pos s) (rw e (drop-length-append p t)))) in
    Matches-drop q ps (k - i) _ (rw at m)

match_segments_total :
    (ps : List Bytes) (s : Bytes) (pos : ℕ)
    → All NoStar ps
    → last_empty ps ≡ true
    → Matches (starred ps) (drop pos s)
    → (stop : ℕ) × (match_segments false ps s pos ≡ some stop)
unfolding match_segments
match_segments_total [] s pos ns l m = absurd (cc)
match_segments_total ([] ∷ []) s pos ns l m = (pos, refl)
match_segments_total ([] ∷ q ∷ ps) s pos ns l (k, m) =
    match_segments_total (q ∷ ps) s pos ns.1 l (Matches-drop q ps k (drop pos s) m)
match_segments_total ((c ∷ p) ∷ []) s pos ns l m = absurd (cc)
match_segments_total ((c ∷ p) ∷ q ∷ ps) s pos ns l (k, m) =
    let (t, e, m') = Matches-append_inv (c ∷ p) (starred (q ∷ ps)) (drop k (drop pos s)) ns.0 m in
    let (i, found, le) = index-le (drop pos s) (c ∷ p) k (rw e (has_prefix-append (c ∷ p) t)) in
    let (stop, run) =
      match_segments_total (q ∷ ps) s (pos + i + length (c ∷ p)) ns.1 l
        (earlier_place (c ∷ p) q ps s pos i k t le e m') in
    (stop, rw found run)

index_zero : (s p : Bytes) → has_prefix p s ≡ true → index s p ≡ some 0
unfolding index
index_zero [] p h = rw h
index_zero (d ∷ s) p h = rw h

Bool-and_false : (b : Bool) → (b && false) ≡ false
Bool-and_false true = refl
Bool-and_false false = refl

anchored_run :
    (p : Bytes) (ps : List Bytes) (s : Bytes) (stop : ℕ) (b : Bool)
    → index s p ≡ some 0
    → match_segments false ps s (0 + 0 + length p) ≡ some stop
    → p ≢ []
    → match_segments b (p ∷ ps) s 0 ≡ some stop
unfolding match_segments
anchored_run [] ps s stop b found run ne = absurd (ne refl)
anchored_run (c ∷ p) ps s stop b found run ne = rw found (rw (Bool-and_false b) run)

every_segment_total :
    (first : Bytes) (others : List Bytes) (s : Bytes)
    → NoStar first
    → All NoStar others
    → last_empty others ≡ true
    → Matches (first ++ starred others) s
    → (stop : ℕ) × (match_segments
          (not (starts_star (first ++ starred others)))
          (first ∷ others)
          s
          0
        ≡ some stop)
unfolding match_segments starts_star
every_segment_total first [] s n ns l m = absurd (cc)
every_segment_total [] (q ∷ ps) s n ns l m = match_segments_total (q ∷ ps) s 0 ns l m
every_segment_total (c ∷ p) (q ∷ ps) s n ns l m =
    let (t, e, m') = Matches-append_inv (c ∷ p) (starred (q ∷ ps)) s n m in
    let found = index_zero s (c ∷ p) (rw e (has_prefix-append (c ∷ p) t)) in
    let (stop, run) =
      match_segments_total (q ∷ ps) s (0 + 0 + length (c ∷ p)) ns l
        (earlier_place (c ∷ p) q ps s 0 0 0 t (omega arith) e m') in
    (stop, anchored_run (c ∷ p) (q ∷ ps) s stop _ found run (cc))

accepts :
    (first : Bytes) (others : List Bytes) (s : Bytes)
    → NoStar first
    → All NoStar others
    → ends_star (first ++ starred others) ≡ true
    → Matches (first ++ starred others) s
    → at_end
        (first ++ starred others)
        s
        (match_segments (not (starts_star (first ++ starred others))) (first ∷ others) s 0)
      ≡ true
accepts first others s n ns l m =
    let (stop, run) =
      every_segment_total first others s n ns (rw (← ends_star-starred first others n ns) l) m in
    rw (run, l)

-- For a pattern that ends in '*', globMatch accepts every text of the pattern's form.
pub glob_match_complete :
    (pattern s : Bytes) → ends_star pattern ≡ true → Matches pattern s → glob_match pattern s ≡ true
unfolding glob_match
glob_match_complete pattern s l m =
    let (n, ns) = split_star-NoStar pattern in
    let first : Bytes = (split_star pattern).0 in
    let others : List Bytes = (split_star pattern).1 in
    let run : at_end pattern s (match_segments (not (starts_star pattern)) (first ∷ others) s 0)
        ≡ true =
      subst
        (λ p.
          ends_star p ≡ true
          → Matches p s
          → at_end p s (match_segments (not (starts_star p)) (first ∷ others) s 0) ≡ true)
        (split_star-join pattern) (accepts first others s n ns) l m in
    ground (arith, run)

-- A segment with no star splits off nothing.
split_star-eq_self : (u : Bytes) → NoStar u → split_star u ≡ (u, [])
unfolding split_star
split_star-eq_self [] n = refl
split_star-eq_self (c ∷ u) n = rw (n.0, split_star-eq_self u n.1)

ends_star-segment : (u : Bytes) → NoStar u → ends_star u ≡ false
unfolding ends_star
ends_star-segment [] n = refl
ends_star-segment (c ∷ []) n = n.0
ends_star-segment (c ∷ d ∷ u) n = ends_star-segment (d ∷ u) n.1

split_star-star : (u : Bytes) → NoStar u → split_star (star ∷ u) ≡ ([], u ∷ [])
unfolding split_star
split_star-star u n = rw (split_star-eq_self u n)

one_segment :
    (p s : Bytes) (b : Bool)
    → p ≢ []
    → index s p ≡ some 0
    → match_segments b ([] ∷ p ∷ []) s 0 ≡ some (length p)
unfolding match_segments
one_segment [] s b ne found = absurd (ne refl)
one_segment (c ∷ p) s b ne found =
    rw found (let e : 0 + 0 + suc (length p) ≡ suc (length p) = omega arith in rw e)

glob_match-split :
    (pattern s first : Bytes) (others : List Bytes)
    → split_star pattern ≡ (first, others)
    → bytes_eq pattern (star ∷ []) ≡ false
    → bytes_eq pattern s ≡ false
    → glob_match pattern s
      ≡ at_end pattern s (match_segments (not (starts_star pattern)) (first ∷ others) s 0)
unfolding glob_match
glob_match-split pattern s first others e h k =
    rw (h, k)
      (ap
        (λ (q : Bytes × List Bytes).
          at_end pattern s (match_segments (not (starts_star pattern)) (q.0 ∷ q.1) s 0))
        e)

bytes_eq-star :
    (c : ℕ) (u s : Bytes) → nat_beq star c ≡ false → bytes_eq (star ∷ c ∷ u) (c ∷ s) ≡ false
unfolding bytes_eq
bytes_eq-star c u s h = rw h

bytes_eq-longer : (c : ℕ) (u : Bytes) → bytes_eq (star ∷ c ∷ u) (star ∷ []) ≡ false
unfolding bytes_eq
bytes_eq-longer c u = refl

ends_star-cons : (c : ℕ) (u : Bytes) → NoStar (c ∷ u) → ends_star (star ∷ c ∷ u) ≡ false
unfolding ends_star
ends_star-cons c u n = ends_star-segment (c ∷ u) n

-- A text that repeats a segment is of the form '*' followed by that segment, and globMatch rejects
-- it: it takes the segment at its first place and then finds text left over.
pub glob_match_misses :
    (c : ℕ) (u : Bytes)
    → NoStar (c ∷ u)
    → Matches (star ∷ (c ∷ u)) ((c ∷ u) ++ (c ∷ u))
      × (glob_match (star ∷ (c ∷ u)) ((c ∷ u) ++ (c ∷ u)) ≡ false)
glob_match_misses c u n =
    let p : Bytes = c ∷ u in
    let found = index_zero (p ++ p) p (has_prefix-append p p) in
    let run = one_segment p (p ++ p) (not (starts_star (star ∷ p))) (cc) found in
    (
      (length p, rw (drop-length-append p p) (Matches-self p)),
      glob_match-split (star ∷ p) (p ++ p) [] (p ∷ []) (split_star-star p n) (bytes_eq-longer c u)
            (bytes_eq-star c u (u ++ p) (ground (arith, n.0)))
          ∙ rw (run, ends_star-cons c u n) (ground (arith, length-append p p)),
    )
