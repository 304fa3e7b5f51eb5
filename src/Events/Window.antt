-- ===== src/Events/Window.antt =====
-- pkg/events/window.go: a store seen through a time window, and what its reads promise.
use event_driven_tests_ai.Common.{
  String, List, [], ◌∷◌, ◌++◌, length, arith, if◌then◌else◌, ltb, leb, not, ◌&&◌, string_comparable,
  nat_comparable, ◌≡◌, refl, sym, ap, ◌∙◌, select, select-select, true, Bool-cases, inl, inr,
}
use mathlib.Core.Path.{fun_ext}
use mathlib.Core.List.{Perm}
use mathlib.Core.List.Perm
use event_driven_tests_ai.Common.Sort.{
  ascending, IsSorted, ascending-IsWeakOrder, sort-IsSorted, sort-perm,
}
use event_driven_tests_ai.Events.{
  Event, MemStore, Store, Time, is_zero, in_range, reads, event_ts, all,
}
use event_driven_tests_ai.Events.Insertion.{
  sorted_by_insertion, sorted_by_insertion-IsSorted, sorted_by_insertion-perm,
}

-- The reads agree with one another.
pub record IsLawful {ℓ} {P : Type ℓ} (s : Store P) : Type ℓ where
  pub range_lem :
      (name : String) (from to : Time)
      → s.query_range name from to ≡ select (in_range from to) (s.query name)
  pub since_lem : (name : String) (from : Time) → s.since name from ≡ s.query_range name from 0
  pub sorted_lem : IsSorted (ascending event_ts) s.all_sorted
  pub perm_lem : Perm s.all_sorted s.all

-- The later of the asked bound and the window's.
pub window_from : Time → Time → Time
window_from lower from =
    if not (is_zero lower) && (if is_zero from then true else ltb from lower) then lower else from

-- It is the bound that `Since` computes.
window_from-eq-later :
    (lower from : Time) → (if ltb from lower then lower else from) ≡ window_from lower from
unfolding window_from
window_from-eq-later lower from = ground arith

module _ {ℓ} {P : Type ℓ} where
  -- The reads of a `MemStore` are lawful.
  pub reads-IsLawful : (s : MemStore P) → IsLawful (reads s)
  unfolding reads
  reads-IsLawful s = record {
    range_lem = λ name from to. refl;
    since_lem = λ name from. refl;
    sorted_lem = sort-IsSorted (ascending event_ts) (ascending-IsWeakOrder event_ts) (all s);
    perm_lem = sort-perm (ascending event_ts) (all s);
  }

  pub since_streams : Store P → Time → List String → List (Event P)
  since_streams base lower [] = []
  since_streams base lower (name ∷ names) = base.since name lower ++ since_streams base lower names

  pub window_all : Store P → Time → List (Event P)
  unfolding since_streams
  window_all base lower = if is_zero lower then base.all else since_streams base lower base.streams

  pub windowed_view : Store P → Time → Store P
  unfolding window_from window_all sorted_by_insertion
  windowed_view base lower = record {
    query = λ name. base.since name lower;
    query_range = λ name from to. base.query_range name (window_from lower from) to;
    since = λ name from. base.since name (if ltb from lower then lower else from);
    streams = base.streams;
    all = window_all base lower;
    all_sorted =
        if leb (length (window_all base lower)) 1
        then window_all base lower
        else sorted_by_insertion (window_all base lower);
    len = length (window_all base lower);
  }

  in_range-window :
      (lower from to : Time)
      → (λ (e : Event P). in_range lower 0 e && in_range from to e)
        ≡ in_range (window_from lower from) to
  unfolding window_from
  in_range-window lower from to = fun_ext λ e. ground arith

  short-IsSorted :
      (es : List (Event P)) → leb (length es) 1 ≡ true → IsSorted (ascending event_ts) es
  short-IsSorted [] h = tt
  short-IsSorted (x ∷ []) h = (tt, tt)
  short-IsSorted (x ∷ y ∷ es) h = absurd (ground arith)

  in_order-IsSorted :
      (es : List (Event P))
      → IsSorted (ascending event_ts) (if leb (length es) 1 then es else sorted_by_insertion es)
  in_order-IsSorted es = elim (Bool-cases (leb (length es) 1)) [
    | inl short ↦ rw short (short-IsSorted es short)
    | inr long ↦ rw long (sorted_by_insertion-IsSorted es)
  ]

  in_order-perm :
      (es : List (Event P)) → Perm (if leb (length es) 1 then es else sorted_by_insertion es) es
  in_order-perm es = elim (Bool-cases (leb (length es) 1)) [
    | inl short ↦ rw short (Perm.refl es)
    | inr long ↦ rw long (sorted_by_insertion-perm es)
  ]

  -- A window over a lawful store is a lawful store: a range query through the view returns the
  -- events of the view in the asked range, whichever bounds are absent, and `AllSorted` is a
  -- permutation of `All` in ascending time.
  pub windowed_view-IsLawful :
      (base : Store P) (lower : Time) → IsLawful base → IsLawful (windowed_view base lower)
  unfolding windowed_view
  windowed_view-IsLawful base lower v = record {
    range_lem = λ name from to.
        v.range_lem name (window_from lower from) to
        ∙ rw (v.since_lem name lower, v.range_lem name lower 0)
            (sym (
              select-select (in_range from to) (in_range lower 0) (base.query name)
              ∙ rw (in_range-window lower from to)));
    since_lem = λ name from.
        v.since_lem name _ ∙ ap (λ t. base.query_range name t 0) (window_from-eq-later lower from);
    sorted_lem = in_order-IsSorted (window_all base lower);
    perm_lem = in_order-perm (window_all base lower);
  }
