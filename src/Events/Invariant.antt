-- ===== src/Events/Invariant.antt =====
-- The invariant of `MemStore`: every buffer is within the cap, and `total` counts all events.
use event_driven_tests_ai.Common.{
  ℕ, ◌+◌, ◌-◌, ◌≤◌, ◌<◌, String, List, [], ◌∷◌, ◌++◌, length, drop, arith, string_comparable, ◌≡◌,
  refl, length-append,
}
use event_driven_tests_ai.Common.Dict.{Dict, lookup_or, insert}
use event_driven_tests_ai.Common.Int.{ℤ, pos, negsuc}
use event_driven_tests_ai.Events.{Event, MemStore, new_mem_store, append, buffer, all, all_of, len}

module _ {ℓ} {P : Type ℓ} where
  -- The number of events in all buffers.
  abbrev pub count_all : Dict String (List (Event P)) → ℕ
  count_all [] = 0
  count_all ((name, buf) ∷ d) = length buf + count_all d

  -- Every buffer holds at most `cap` events.
  abbrev pub WithinCap : ℕ → Dict String (List (Event P)) → Type 0
  WithinCap cap [] = Unit
  WithinCap cap ((name, buf) ∷ d) = (length buf ≤ cap) × WithinCap cap d

  pub record IsValid (s : MemStore P) : Type 0 where
    pub cap_positive : 0 < s.cap_per_stream
    pub within : WithinCap s.cap_per_stream s.by_stream
    pub counted : s.total ≡ count_all s.by_stream

  count_all-insert :
      (k : String) (buf : List (Event P)) (d : Dict String (List (Event P)))
      → count_all (insert k buf d) + length (lookup_or k d []) ≡ count_all d + length buf
  unfolding insert lookup_or
  count_all-insert k buf [] = omega arith
  count_all-insert k buf ((j, w) ∷ d) = ground (arith, count_all-insert k buf d)

  insert-WithinCap :
      (cap : ℕ) (k : String) (buf : List (Event P)) (d : Dict String (List (Event P)))
      → length buf ≤ cap
      → WithinCap cap d
      → WithinCap cap (insert k buf d)
  unfolding insert
  insert-WithinCap cap k buf [] h hs = (h, tt)
  insert-WithinCap cap k buf ((j, w) ∷ d) h hs = ground (arith, insert-WithinCap cap k buf d h hs.1)

  pub length-lookup-le :
      (cap : ℕ) (k : String) (d : Dict String (List (Event P)))
      → WithinCap cap d
      → length (lookup_or k d []) ≤ cap
  unfolding lookup_or
  length-lookup-le cap k [] hs = omega arith
  length-lookup-le cap k ((j, w) ∷ d) hs = ground (arith, length-lookup-le cap k d hs.1)

  length-drop_one : (xs : List (Event P)) → length (drop 1 xs) ≡ length xs - 1
  length-drop_one [] = omega arith
  length-drop_one (x ∷ xs) = omega arith

  count-le :
      (k : String) (d : Dict String (List (Event P))) → length (lookup_or k d []) ≤ count_all d
  unfolding lookup_or
  count-le k [] = omega arith
  count-le k ((j, w) ∷ d) = ground (arith, count-le k d)

  pub new_mem_store-IsValid : (cap : ℤ) → IsValid (new_mem_store {P = P} cap)
  unfolding new_mem_store
  new_mem_store-IsValid (pos n) = ground arith
  new_mem_store-IsValid (negsuc n) = omega arith

  -- Appending an event to a valid store gives a valid store: no buffer passes the cap, and the
  -- running total is the number of events held.
  pub append-IsValid : (e : Event P) (s : MemStore P) → IsValid s → IsValid (append e s)
  unfolding append
  append-IsValid e s v = ground (
    arith,
    length-lookup-le s.cap_per_stream e.stream s.by_stream v.within,
    count-le e.stream s.by_stream,
    length-drop_one (buffer e.stream s),
    length-append (drop 1 (buffer e.stream s)) (e ∷ []),
    length-append (buffer e.stream s) (e ∷ []),
    count_all-insert e.stream (drop 1 (buffer e.stream s) ++ e ∷ []) s.by_stream,
    count_all-insert e.stream (buffer e.stream s ++ e ∷ []) s.by_stream,
    insert-WithinCap s.cap_per_stream e.stream (drop 1 (buffer e.stream s) ++ e ∷ []) s.by_stream,
    insert-WithinCap s.cap_per_stream e.stream (buffer e.stream s ++ e ∷ []) s.by_stream,
  )

  length-all_of : (d : Dict String (List (Event P))) → length (all_of d) ≡ count_all d
  unfolding all_of
  length-all_of [] = refl
  length-all_of ((name, buf) ∷ d) = omega (arith, length-append buf (all_of d), length-all_of d)

  -- In a valid store `Len` is the number of events that `All` returns.
  pub len-eq-length-all : (s : MemStore P) → IsValid s → len s ≡ length (all s)
  unfolding len all
  len-eq-length-all s v = omega (arith, v.counted, length-all_of s.by_stream)
