-- ===== src/Eval/Matching/Distinct.antt =====
-- No place of an output is matched twice.
use mathlib.Core.Path.{subst}
use event_driven_tests_ai.Common.{
  ℕ, suc, String, List, [], ◌∷◌, if◌then◌else◌, ◌==◌, string_comparable, nat_comparable,
  nat_beq_iff, ◌≡◌, refl, arith, Bool, true, false, Option, none, some, All, Bool-cases, inl, inr,
  eq_iff,
}
use event_driven_tests_ai.Common.Dict.{Dict, lookup_or, lookup_or-insert}
use event_driven_tests_ai.Events.{Event}
use event_driven_tests_ai.Eval.Matching.{
  Used, Hit, MatchStatus, match_hit, match_timeout, match_cancelled, Poll, has_index, taken, mark,
  first_free, find_output, wait_for_output, first_of, round_end, next_hits, match_all,
}

module _ {P : Type 0} where
  abbrev IsFree : Used → Hit P → Type 0
  IsFree used h = taken used h.stream h.index ≡ false

  -- The two hits are in different streams or at different indices.
  abbrev pub differs : Hit P → Hit P → Bool
  differs h g = if h.stream == g.stream then (if h.index == g.index then false else true) else true

  abbrev pub IsDistinct : List (Hit P) → Type 0
  IsDistinct [] = Unit
  IsDistinct (h ∷ hs) = All (λ g. differs h g ≡ true) hs × IsDistinct hs

  -- What a search leaves: nothing, or a hit that is free.
  abbrev IsFreeOption : Used → Option (Hit P) → Type 0
  IsFreeOption used none = Unit
  IsFreeOption used (some h) = IsFree used h

  first_free-IsFreeOption :
      (used : Used) (name key : String) (i : ℕ) (es : List (Event P))
      → IsFreeOption used (first_free name key (lookup_or name used []) i es)
  unfolding first_free
  first_free-IsFreeOption used name key i [] = tt
  first_free-IsFreeOption used name key i (e ∷ es) =
      elim (Bool-cases (has_index i (lookup_or name used []))) [
        | inl seen ↦ rw seen (first_free-IsFreeOption used name key (suc i) es)
        | inr new ↦ elim (Bool-cases (e.key == key)) [
          | inl hit ↦ rw (new, hit) new
          | inr miss ↦ rw (new, miss) (first_free-IsFreeOption used name key (suc i) es)
        ]
      ]

  first_of-IsFreeOption :
      (used : Used) (o rest : Option (Hit P))
      → IsFreeOption used o
      → IsFreeOption used rest
      → IsFreeOption used (first_of o rest)
  first_of-IsFreeOption used none rest h k = k
  first_of-IsFreeOption used (some x) rest h k = h

  find_output-IsFreeOption :
      (query : String → List (Event P)) (names : List String) (key : String)
      (bounds : Dict String ℕ) (used : Used)
      → IsFreeOption used (find_output query names key bounds used)
  unfolding find_output
  find_output-IsFreeOption query [] key bounds used = tt
  find_output-IsFreeOption query (name ∷ names) key bounds used =
      first_of-IsFreeOption used _ _ (first_free-IsFreeOption used name key _ _)
        (find_output-IsFreeOption query names key bounds used)

  -- A wait marks what it hits, which was free, and else leaves the marks as they were.
  abbrev IsFair : Used → MatchStatus P × Used → Type 0
  IsFair used (match_hit h, used') = IsFree used h × (used' ≡ mark h used)
  IsFair used (match_timeout, used') = used' ≡ used
  IsFair used (match_cancelled, used') = used' ≡ used

  if-IsFair :
      (b : Bool) (x y : MatchStatus P × Used) (used : Used)
      → IsFair used x
      → IsFair used y
      → IsFair used (if b then x else y)
  if-IsFair true x y used h k = h
  if-IsFair false x y used h k = k

  round_end-IsFair :
      (o : Option (Hit P)) (p : Poll P) (rest : MatchStatus P × Used) (used : Used)
      → IsFreeOption used o
      → IsFair used rest
      → IsFair used (round_end o p rest used)
  round_end-IsFair (some h) p rest used free fair = (free, refl)
  round_end-IsFair none p rest used free fair =
      if-IsFair p.expired _ _ used refl (if-IsFair p.cancelled_waiting _ _ used refl fair)

  wait_for_output-IsFair :
      (ps : List (Poll P)) (streams : List String) (key : String) (bounds : Dict String ℕ)
      (used : Used)
      → IsFair used (wait_for_output ps streams key bounds used)
  unfolding wait_for_output
  wait_for_output-IsFair [] streams key bounds used = refl
  wait_for_output-IsFair (p ∷ ps) streams key bounds used = if-IsFair p.cancelled _ _ used refl (
      round_end-IsFair _ p (wait_for_output ps streams key bounds used) used
        (find_output-IsFreeOption p.query streams key bounds used)
        (wait_for_output-IsFair ps streams key bounds used))

  IsFree-mark :
      (h g : Hit P) (used : Used) → IsFree (mark h used) g → IsFree used g × (differs h g ≡ true)
  IsFree-mark h g used k = (
    ground (
      arith,
      k,
      lookup_or-insert h.stream g.stream (h.index ∷ lookup_or h.stream used []) [] used,
      eq_iff h.stream g.stream,
      nat_beq_iff h.index g.index,
    ),
    ground (
      arith,
      k,
      lookup_or-insert h.stream g.stream (h.index ∷ lookup_or h.stream used []) [] used,
      eq_iff h.stream g.stream,
      nat_beq_iff h.index g.index,
    ),
  )

  All-IsFree-mark :
      (h : Hit P) (hs : List (Hit P)) (used : Used)
      → All (IsFree (mark h used)) hs
      → All (IsFree used) hs × All (λ g. differs h g ≡ true) hs
  All-IsFree-mark h [] used k = (tt, tt)
  All-IsFree-mark h (g ∷ gs) used (k, ks) =
      let one = IsFree-mark h g used k in
      let rest = All-IsFree-mark h gs used ks in ((one.0, rest.0), (one.1, rest.1))

  next_hits-IsDistinct :
      (st : MatchStatus P) (used used' : Used) (hs : List (Hit P))
      → IsFair used (st, used')
      → All (IsFree used') hs × IsDistinct hs
      → All (IsFree used) (next_hits st hs) × IsDistinct (next_hits st hs)
  next_hits-IsDistinct (match_hit h) used used' hs (free, e) (fs, ds) =
      let rest = All-IsFree-mark h hs used (subst (λ u. All (IsFree u) hs) e fs) in
      ((free, rest.0), (rest.1, ds))
  next_hits-IsDistinct match_timeout used used' hs e (fs, ds) =
      (subst (λ u. All (IsFree u) hs) e fs, ds)
  next_hits-IsDistinct match_cancelled used used' hs e k = (tt, tt)

  match_all-IsFree :
      (inputs : List (String × List (Poll P))) (streams : List String) (bounds : Dict String ℕ)
      (used : Used)
      → All (IsFree used) (match_all inputs streams bounds used)
        × IsDistinct (match_all inputs streams bounds used)
  unfolding match_all
  match_all-IsFree [] streams bounds used = (tt, tt)
  match_all-IsFree ((key, ps) ∷ inputs) streams bounds used =
      let w = wait_for_output ps streams key bounds used in
      next_hits-IsDistinct w.0 used w.1 (match_all inputs streams bounds w.1)
        (wait_for_output-IsFair ps streams key bounds used)
        (match_all-IsFree inputs streams bounds w.1)

  -- Whatever the store answers from poll to poll, no place of an output is matched to two inputs: any
  -- two hits of a run are in different streams or at different indices. (An event keeps its index
  -- only as long as no older one is dropped from its buffer.)
  pub match_all-IsDistinct :
      (inputs : List (String × List (Poll P))) (streams : List String) (bounds : Dict String ℕ)
      (used : Used)
      → IsDistinct (match_all inputs streams bounds used)
  match_all-IsDistinct inputs streams bounds used = (match_all-IsFree inputs streams bounds used).1
