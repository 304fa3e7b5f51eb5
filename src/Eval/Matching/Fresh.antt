-- ===== src/Eval/Matching/Fresh.antt =====
-- Cursors are lengths, and a buffer at its cap does not get longer.
use event_driven_tests_ai.Common.{
  ℕ, ◌-◌, ◌≤◌, String, List, [], ◌∷◌, ◌++◌, if◌then◌else◌, ltb, string_comparable, ◌≡◌, refl, ap,
  ◌∙◌, arith, length, drop, Bool-cases, inl, inr, drop-append_le, drop-all_le, drop-drop, ◌+◌,
  length-append,
}
use mathlib.Core.List.{append-nil}
use event_driven_tests_ai.Common.Dict.{lookup_or-insert_self}
use event_driven_tests_ai.Events.{Event, MemStore, append, query}
use event_driven_tests_ai.Events.Invariant.{IsValid, length-lookup-le}
use event_driven_tests_ai.Events.Retention.{keep_last, query-append_self}
use event_driven_tests_ai.Eval.Matching.{snapshot_cursors, fresh_inputs_after}

module _ {P : Type 0} where
  fresh_inputs_after-one :
      (before after : String → List (Event P)) (name : String)
      → fresh_inputs_after after (name ∷ []) (snapshot_cursors before (name ∷ []))
        ≡ drop (length (before name)) (after name)
  unfolding fresh_inputs_after snapshot_cursors
  fresh_inputs_after-one before after name = rw (lookup_or-insert_self, append-nil) refl

  drop-keep_last :
      (n : ℕ) (xs : List (Event P)) (e : Event P)
      → length xs ≤ n
      → drop (length xs) (keep_last n (xs ++ e ∷ [])) ≡ (if ltb (length xs) n then e ∷ [] else [])
  unfolding keep_last
  drop-keep_last n xs e h = elim (Bool-cases (ltb (length xs) n)) [
    | inl room ↦
        let k : length (xs ++ e ∷ []) - n ≡ 0 = ground (arith, length-append xs (e ∷ []), room) in
        rw (room, k)
          (drop-append_le (length xs) xs (e ∷ []) (omega arith)
            ∙ ap (λ ys. ys ++ e ∷ []) (drop-all_le (length xs) xs (omega arith)))
    | inr full ↦
        let k : length (xs ++ e ∷ []) - n ≡ 1 =
          ground (arith, length-append xs (e ∷ []), full, h) in
        rw (full, k)
          (drop-drop (length xs) 1 (xs ++ e ∷ [])
            ∙ drop-all_le (1 + length xs) (xs ++ e ∷ []) (omega (arith, length-append xs (e ∷ []))))
  ]

  -- The inputs that count as new after an event was appended to their stream: the event, as long as
  -- the buffer of the stream was not full; when it was full, the event drops the oldest one, the
  -- length stays, and there are none.
  pub fresh_inputs_after-append :
      (e : Event P) (s : MemStore P)
      → IsValid s
      → fresh_inputs_after
          (query (append e s))
          (e.stream ∷ [])
          (snapshot_cursors (query s) (e.stream ∷ []))
        ≡ (if ltb (length (query s e.stream)) s.cap_per_stream then e ∷ [] else [])
  fresh_inputs_after-append e s v =
      fresh_inputs_after-one (query s) (query (append e s)) e.stream
      ∙ ap (drop (length (query s e.stream))) (query-append_self e s v)
      ∙ drop-keep_last s.cap_per_stream (query s e.stream) e
          (unfold query in length-lookup-le s.cap_per_stream e.stream s.by_stream v.within)
