-- ===== src/Checks/Operators/Streams.antt =====
-- What the operator on HTTP streams reads of a store.
use mathlib.Core.Path.{subst}
use mathlib.Core.List.{Permᴰ}
use mathlib.Core.List.Permᴰ.{trans}
use event_driven_tests_ai.Common.Perms.{blocks, blocks-Permᴰ, map-Permᴰ, select-Permᴰ}
use event_driven_tests_ai.Common.Text.{strip_prefix}
use event_driven_tests_ai.Common.{
  ascii, drop, leb, length, String, List, [], ◌∷◌, ◌++◌, ◌≡◌, refl, ap, ◌∙◌, sym, arith, map,
  select, if◌then◌else◌, ◌==◌, string_comparable, Bool, true, false, Option, none, some, All,
  All-append, Bool-cases, inl, inr, eq_iff,
}
use event_driven_tests_ai.Common.Dict.{eq_refl, Dict, lookup, insert, lookup_or, lookup-insert}
use event_driven_tests_ai.Common.Int.{ℤ}
use event_driven_tests_ai.Events.{
  Store, buffer, Event, MemStore, new_mem_store, append, query, streams, streams_of, all, all_of,
  reads,
}
use event_driven_tests_ai.Events.Retention.{append_all}
use event_driven_tests_ai.Checks.Operators.{
  event_to_map, events_of, http_events, is_http_stream, matches_path,
}
use event_driven_tests_ai.Checks.Glob.{glob_match}

-- The path of an event on an HTTP stream fits the pattern.
abbrev pub on_path : Option String → String → Bool
on_path none pattern = false
on_path (some path) pattern = glob_match (ascii pattern) (ascii path)

on_path-is_http_stream :
    (pattern : String) (o : Option String) → on_path o pattern ≡ matches_path pattern o
on_path-is_http_stream pattern none = refl
on_path-is_http_stream pattern (some path) = refl

module _ {P : Type 0} where
  -- Every event stands in the buffer of its stream, and each stream has one buffer.
  abbrev IsNamed : Dict String (List (Event P)) → Type 0
  IsNamed [] = Unit
  IsNamed ((name, buf) ∷ d) = All (λ e. e.stream ≡ name) buf × (lookup name d ≡ none) × IsNamed d

  lookup-insert_other :
      (j k : String) (v : List (Event P)) (d : Dict String (List (Event P)))
      → (k == j) ≡ false
      → lookup j d ≡ none
      → lookup j (insert k v d) ≡ none
  lookup-insert_other j k v d e h = lookup-insert k j v d ∙ rw e h

  IsNamed-insert :
      (k : String) (v : List (Event P)) (d : Dict String (List (Event P)))
      → All (λ e. e.stream ≡ k) v
      → IsNamed d
      → IsNamed (insert k v d)
  unfolding insert lookup
  IsNamed-insert k v [] h n = (h, refl, tt)
  IsNamed-insert k v ((j, w) ∷ d) h (a, b, c) = elim (Bool-cases (j == k)) [
    | inl same ↦ rw same (let e : j ≡ k = (eq_iff j k).0 same in (h, rw (← e) b, c))
    | inr other ↦ rw other (
      a,
      lookup-insert_other j k v d (ground (arith, eq_iff j k, eq_iff k j, other)) b,
      IsNamed-insert k v d h c,
    )
  ]

  -- The buffers of a list of entries are those that a dictionary has.
  abbrev Agree : Dict String (List (Event P)) → Dict String (List (Event P)) → Type 0
  Agree full [] = Unit
  Agree full ((name, buf) ∷ d) = (lookup_or name full [] ≡ buf) × Agree full d

  Agree-cons :
      (name : String) (buf : List (Event P)) (full d : Dict String (List (Event P)))
      → lookup name d ≡ none
      → Agree full d
      → Agree ((name, buf) ∷ full) d
  unfolding lookup_or lookup
  Agree-cons name buf full [] h a = tt
  Agree-cons name buf full ((j, w) ∷ d) h (a, rest) =
      let e : (name == j) ≡ false = ground (arith, h, eq_iff j name, eq_iff name j) in
      let k : lookup name d ≡ none = ground (arith, h, e, eq_iff j name, eq_iff name j) in
      (rw (e, lookup_or) a, Agree-cons name buf full d k rest)

  Agree-self : (d : Dict String (List (Event P))) → IsNamed d → Agree d d
  unfolding lookup_or lookup
  Agree-self [] n = tt
  Agree-self ((name, buf) ∷ d) (a, b, c) =
      (rw (eq_refl name, lookup_or) refl, Agree-cons name buf d d b (Agree-self d c))

  abbrev pub fits_event : (String → Bool) → Event P → Bool
  fits_event fits e = fits e.stream

  select-fit :
      (fits : String → Bool) (name : String) (buf rest : List (Event P))
      → All (λ e. e.stream ≡ name) buf
      → fits name ≡ true
      → select (fits_event fits) (buf ++ rest) ≡ buf ++ select (fits_event fits) rest
  select-fit fits name [] rest h k = refl
  select-fit fits name (e ∷ buf) rest (h, hs) k =
      let f : fits e.stream ≡ true = ap fits h ∙ k in rw (f, select-fit fits name buf rest hs k)

  select-misfit :
      (fits : String → Bool) (name : String) (buf rest : List (Event P))
      → All (λ e. e.stream ≡ name) buf
      → fits name ≡ false
      → select (fits_event fits) (buf ++ rest) ≡ select (fits_event fits) rest
  select-misfit fits name [] rest h k = refl
  select-misfit fits name (e ∷ buf) rest (h, hs) k =
      let f : fits e.stream ≡ false = ap fits h ∙ k in rw (f, select-misfit fits name buf rest hs k)

  events_of-select :
      (full : Dict String (List (Event P))) (fits : String → Bool)
      (d : Dict String (List (Event P)))
      → IsNamed d
      → Agree full d
      → events_of (λ name. lookup_or name full []) fits (streams_of d)
        ≡ select (fits_event fits) (all_of d)
  unfolding events_of streams_of all_of
  events_of-select full fits [] n a = refl
  events_of-select full fits ((name, buf) ∷ d) (a, b, c) (h, hs) = elim (Bool-cases (fits name)) [
    | inl fit ↦
        rw (h, fit, events_of-select full fits d c hs, select-fit fits name buf (all_of d) a fit)
    | inr misfit ↦
        rw (
          misfit,
          events_of-select full fits d c hs,
          select-misfit fits name buf (all_of d) a misfit,
        )
  ]

  lookup_or-IsNamed :
      (name : String) (d : Dict String (List (Event P)))
      → IsNamed d
      → All (λ e. e.stream ≡ name) (lookup_or name d [])
  unfolding lookup_or lookup
  lookup_or-IsNamed name [] n = tt
  lookup_or-IsNamed name ((j, w) ∷ d) (a, b, c) = elim (Bool-cases (j == name)) [
    | inl same ↦
        let e : j ≡ name = (eq_iff j name).0 same in
        let found : lookup_or name ((j, w) ∷ d) [] ≡ w = rw (same, lookup_or) refl in
        subst (λ l. All (λ f. f.stream ≡ name) l) (sym found) (rw (← e) a)
    | inr other ↦
        let passed : lookup_or name ((j, w) ∷ d) [] ≡ lookup_or name d [] =
          rw (other, lookup_or) refl in
        subst (λ l. All (λ f. f.stream ≡ name) l) (sym passed) (lookup_or-IsNamed name d c)
  ]

  All-kept :
      (b : Bool) (name : String) (buf : List (Event P))
      → All (λ e. e.stream ≡ name) buf
      → All (λ e. e.stream ≡ name) (if b then drop 1 buf else buf)
  All-kept true name [] h = tt
  All-kept true name (e ∷ buf) (h, hs) = hs
  All-kept false name buf h = h

  IsNamed-append :
      (e : Event P) (s : MemStore P) → IsNamed s.by_stream → IsNamed (append e s).by_stream
  unfolding append
  IsNamed-append e s n =
      IsNamed-insert e.stream _ s.by_stream
        (All-append (λ f. f.stream ≡ e.stream) _ (e ∷ [])
          (All-kept (leb s.cap_per_stream (length (buffer e.stream s))) e.stream (buffer e.stream s)
            (lookup_or-IsNamed e.stream s.by_stream n))
          (refl, tt))
        n

  IsNamed-append_all :
      (es : List (Event P)) (s : MemStore P)
      → IsNamed s.by_stream
      → IsNamed (append_all es s).by_stream
  unfolding append_all
  IsNamed-append_all [] s n = n
  IsNamed-append_all (e ∷ es) s n = IsNamed-append_all es (append e s) (IsNamed-append e s n)

  -- What is read of one stream.
  abbrev block : (String → List (Event P)) → (String → Bool) → String → List (Event P)
  block query fits name = if fits name then query name else []

  events_of-blocks :
      (query : String → List (Event P)) (fits : String → Bool) (names : List String)
      → events_of query fits names ≡ blocks (block query fits) names
  unfolding events_of
  events_of-blocks query fits [] = refl
  events_of-blocks query fits (name ∷ names) = elim (Bool-cases (fits name)) [
    | inl fit ↦ rw (fit, events_of-blocks query fits names)
    | inr misfit ↦ rw (misfit, events_of-blocks query fits names)
  ]

  -- A store whose streams are listed in the order of `names`.
  abbrev pub listing : List String → Store P → Store P
  listing names st = record st { streams = names }

  abbrev pub fits_pattern : String → Event P → Bool
  fits_pattern pattern e = on_path (strip_prefix "http:" e.stream) pattern

  select-fits :
      (pattern : String) (es : List (Event P))
      → select (fits_event (is_http_stream pattern)) es ≡ select (fits_pattern pattern) es
  unfolding is_http_stream
  select-fits pattern [] = refl
  select-fits pattern (e ∷ es) =
      rw (on_path-is_http_stream pattern (strip_prefix "http:" e.stream), select-fits pattern es)

  -- After any appends to a new store, and in whatever order the store lists its streams and its
  -- events: the operator on HTTP streams gives exactly those of all events of the store whose stream is
  -- `http:` and a path that the pattern fits, each as often as the store has it.
  pub http_events-append_all :
      (limit : ℤ) (es : List (Event P)) (pattern : String) (names : List String)
      (events : List (Event P))
      → Permᴰ names (streams (append_all es (new_mem_store limit)))
      → Permᴰ (all (append_all es (new_mem_store limit))) events
      → Permᴰ
          (http_events (listing names (reads (append_all es (new_mem_store limit)))) pattern)
          (map event_to_map (select (fits_pattern pattern) events))
  unfolding http_events reads query streams all
  http_events-append_all limit es pattern names events listed stored =
      let s = append_all es (new_mem_store limit) in
      let fits = is_http_stream pattern in
      let new : IsNamed (new_mem_store {P = P} limit).by_stream = unfold new_mem_store in tt in
      let n = IsNamed-append_all es (new_mem_store limit) new in
      let q : String → List (Event P) = λ name. lookup_or name s.by_stream [] in
      let same : events_of q fits (streams_of s.by_stream)
          ≡ select (fits_event fits) (all_of s.by_stream) =
        events_of-select s.by_stream fits s.by_stream n (Agree-self s.by_stream n) in
      let moved : Permᴰ (events_of q fits names) (events_of q fits (streams_of s.by_stream)) =
        rw (events_of-blocks q fits names, events_of-blocks q fits (streams_of s.by_stream))
          (blocks-Permᴰ (block q fits) names (streams_of s.by_stream) listed) in
      map-Permᴰ event_to_map _ _ (
        trans (subst (λ l. Permᴰ (events_of q fits names) l) (same ∙ select-fits pattern _) moved)
          (select-Permᴰ (fits_pattern pattern) _ _ stored))
