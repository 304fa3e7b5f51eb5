-- ===== src/Events/Retention.antt =====
-- `MemStore` against what it promises: each stream keeps the last events appended to it.
use event_driven_tests_ai.Common.{
  ℕ, ◌-◌, ◌≤◌, ◌<◌, String, List, [], ◌∷◌, ◌++◌, length, drop, arith, if◌then◌else◌, leb, ◌==◌,
  string_comparable, ◌≡◌, inl, inr, refl, sym, ap, ◌∙◌, length-append, length-drop, drop-append_le,
  drop-drop, eq_iff, Bool-cases, select, true, false, Bool,
}
use mathlib.Core.Path.{subst}
use mathlib.Core.List.{append_assoc, append-nil}
use event_driven_tests_ai.Common.Dict.{lookup_or, lookup_or-insert, lookup_or-insert_self}
use event_driven_tests_ai.Common.Int.{ℤ, non_positive, pos_part}
use event_driven_tests_ai.Events.{
  Event, MemStore, new_mem_store, append, buffer, query, default_cap_per_stream,
}
use event_driven_tests_ai.Events.Invariant.{
  IsValid, append-IsValid, new_mem_store-IsValid, length-lookup-le,
}

module _ {ℓ} {A : Type ℓ} where
  -- The last `n` items.
  unfoldable pub keep_last : ℕ → List A → List A
  keep_last n xs = drop (length xs - n) xs

  keep_last-append :
      (n : ℕ) (xs ys : List A) → keep_last n (keep_last n xs ++ ys) ≡ keep_last n (xs ++ ys)
  unfolding keep_last
  keep_last-append n xs ys = rw (← drop-append_le (length xs - n) xs ys (omega arith)) (
      drop-drop _ _ (xs ++ ys)
      ∙ ap (λ k. drop k (xs ++ ys))
          (omega (arith, length-append xs ys, length-drop (length xs - n) (xs ++ ys))))

  keep_last-le : (n : ℕ) (xs : List A) → length xs ≤ n → keep_last n xs ≡ xs
  unfolding keep_last
  keep_last-le n xs h = let e : length xs - n ≡ 0 = omega arith in rw e

  keep_last-full :
      (n : ℕ) (xs : List A) (x : A)
      → 0 < n
      → length xs ≡ n
      → keep_last n (xs ++ x ∷ []) ≡ drop 1 xs ++ x ∷ []
  unfolding keep_last
  keep_last-full n xs x p h =
      let e : length (xs ++ x ∷ []) - n ≡ 1 = omega (arith, length-append xs (x ∷ [])) in
      rw e (drop-append_le 1 xs (x ∷ []) (omega arith))

  -- The eviction of `append`, as keeping the last items.
  pub evict-eq-keep_last :
      (n : ℕ) (xs : List A) (x : A)
      → 0 < n
      → length xs ≤ n
      → (if leb n (length xs) then drop 1 xs else xs) ++ x ∷ [] ≡ keep_last n (xs ++ x ∷ [])
  evict-eq-keep_last n xs x p h = elim (Bool-cases (leb n (length xs))) [
    | inl full ↦ rw full (sym (keep_last-full n xs x p (ground arith)))
    | inr room ↦
        rw room (sym (keep_last-le n (xs ++ x ∷ []) (ground (arith, length-append xs (x ∷ [])))))
  ]

  pub keep_last-keep_last :
      (n : ℕ) (xs : List A) (x : A)
      → keep_last n (keep_last n xs ++ x ∷ []) ≡ keep_last n (xs ++ x ∷ [])
  keep_last-keep_last n xs x = keep_last-append n xs (x ∷ [])

abbrev pub effective_cap : ℤ → ℕ
effective_cap limit = if non_positive limit then default_cap_per_stream else pos_part limit

module _ {ℓ} {P : Type ℓ} where
  pub query-append_self :
      (e : Event P) (s : MemStore P)
      → IsValid s
      → query (append e s) e.stream ≡ keep_last s.cap_per_stream (query s e.stream ++ e ∷ [])
  unfolding query append
  query-append_self e s v = rw lookup_or-insert_self (
      evict-eq-keep_last s.cap_per_stream (buffer e.stream s) e v.cap_positive
        (length-lookup-le s.cap_per_stream e.stream s.by_stream v.within))

  pub query-append_at :
      (e : Event P) (s : MemStore P) (name : String)
      → IsValid s
      → (e.stream == name) ≡ true
      → query (append e s) name ≡ keep_last s.cap_per_stream (query s name ++ e ∷ [])
  query-append_at e s name v h =
      subst (λ n. query (append e s) n ≡ keep_last s.cap_per_stream (query s n ++ e ∷ []))
        ((eq_iff e.stream name).0 h) (query-append_self e s v)

  cap-append : (e : Event P) (s : MemStore P) → (append e s).cap_per_stream ≡ s.cap_per_stream
  unfolding append
  cap-append e s = refl

  pub query-append_ne :
      (e : Event P) (s : MemStore P) (name : String)
      → (e.stream == name) ≡ false
      → query (append e s) name ≡ query s name
  unfolding query append
  query-append_ne e s name h = simp (lookup_or-insert, h)

  -- A history of appends.
  unfoldable pub append_all : List (Event P) → MemStore P → MemStore P
  append_all [] s = s
  append_all (e ∷ es) s = append_all es (append e s)

  abbrev pub on_stream : String → Event P → Bool
  on_stream name e = e.stream == name

  retention_from :
      (limit : ℕ) (es xs : List (Event P)) (s : MemStore P) (name : String)
      → IsValid s
      → s.cap_per_stream ≡ limit
      → query s name ≡ keep_last limit xs
      → query (append_all es s) name ≡ keep_last limit (xs ++ select (on_stream name) es)
  unfolding append_all
  retention_from limit [] xs s name v c h = rw append-nil h
  retention_from limit (e ∷ es) xs s name v c h =
      let rest = λ (ys : List (Event P)). retention_from limit es ys (append e s) name in
      let v' = append-IsValid e s v in
      let c' = cap-append e s ∙ c in
      elim (Bool-cases (e.stream == name)) [
        | inl same ↦ rw same (
            rw append_assoc at (
              rest (xs ++ e ∷ []) v' c'
                (query-append_at e s name v same ∙ rw (h, c) (keep_last-keep_last limit xs e))))
        | inr other ↦ rw other (rest xs v' c' (query-append_ne e s name other ∙ h))
      ]

  -- After any history of appends to a new store, a query of a stream returns exactly the last
  -- events appended to that stream, as many as the cap allows, oldest first.
  pub query-append_all :
      (limit : ℤ) (es : List (Event P)) (name : String)
      → query (append_all es (new_mem_store limit)) name
        ≡ keep_last (effective_cap limit) (select (on_stream name) es)
  query-append_all limit es name =
      retention_from (effective_cap limit) es [] (new_mem_store limit) name
        (new_mem_store-IsValid limit) (unfold new_mem_store in refl)
        (unfold new_mem_store query lookup_or in
          sym (keep_last-le (effective_cap limit) [] (omega arith)))

  append_all-IsValid :
      (es : List (Event P)) (s : MemStore P) → IsValid s → IsValid (append_all es s)
  unfolding append_all
  append_all-IsValid [] s v = v
  append_all-IsValid (e ∷ es) s v = append_all-IsValid es (append e s) (append-IsValid e s v)
