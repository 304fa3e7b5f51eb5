-- ===== src/SchemaRegistry/Proto/Examples.antt =====
-- Two lengths of one byte before a payload.
use event_driven_tests_ai.Common.{ℕ, [], ◌∷◌, ◌≡◌, refl, arith, ◌*◌, leb, Bool}
use event_driven_tests_ai.SchemaRegistry.Proto.{
  Message, message, no_messages, more, nth, panics, found, resolve_message,
}
use event_driven_tests_ai.SchemaRegistry.Proto.Lengths.{resolve_message-short}

abbrev leaf : Message
leaf = message no_messages

abbrev can_make : ℕ → Bool
can_make n = leb n 1000

resolve_message-short_example :
    (resolve_message can_make leaf (more leaf no_messages) (1 ∷ 7 ∷ []) ≡ panics)
    × (resolve_message can_make leaf (more leaf no_messages) (2 ∷ 2 * 1 ∷ 7 ∷ [])
        ≡ found (nth 1 (more leaf (more leaf no_messages))) (7 ∷ []))
resolve_message-short_example =
    resolve_message-short can_make leaf (more leaf no_messages) 1 1 (7 ∷ []) (omega arith) refl
      (omega arith) refl
