-- ===== src/Orchestrator/Previous.antt =====
-- What a step remembers of an event for the next one, field by field.
use event_driven_tests_ai.Common.{
  String, [], ◌∷◌, ◌≡◌, refl, sym, ap, ◌∙◌, arith, if◌then◌else◌, ◌==◌, string_comparable, eq_iff,
  Bool-cases, inl, inr, Option, none, some, false,
}
use event_driven_tests_ai.Common.Dict.{Dict, lookup, insert, lookup-insert}
use event_driven_tests_ai.Orchestrator.{Payloads, put_all, previous_from_payload}

module _ {P : Type 0} where
  abbrev pub or_else : Option P → Option P → Option P
  or_else none o = o
  or_else (some v) o = some v

  -- The value of the last field of a name.
  abbrev pub last_value : String → Dict String P → Option P
  last_value name [] = none
  last_value name ((k, v) ∷ d) = or_else (last_value name d) (if k == name then some v else none)

  -- Of a payload that is an object the fields, and the key unless a field is called so; of any other
  -- the payload itself, as a field, and the key.
  abbrev pub remembered : Payloads P → String → P → String → Option P
  remembered ps key payload name =
      let key_field = if "key" == name then some (ps.of_text key) else none in
      if ps.is_object payload
      then or_else (last_value name (ps.object payload)) key_field
      else if "payload" == name
      then some payload
      else key_field

  abbrev IsUnique : Dict String P → Type 0
  IsUnique [] = Unit
  IsUnique ((k, v) ∷ d) = (lookup k d ≡ none) × IsUnique d

  lookup-insert_other :
      (j k : String) (v : P) (d : Dict String P)
      → (k == j) ≡ false
      → lookup j d ≡ none
      → lookup j (insert k v d) ≡ none
  lookup-insert_other j k v d e h = lookup-insert k j v d ∙ rw e h

  insert-IsUnique : (k : String) (v : P) (d : Dict String P) → IsUnique d → IsUnique (insert k v d)
  unfolding insert lookup
  insert-IsUnique k v [] u = (refl, tt)
  insert-IsUnique k v ((j, w) ∷ d) u = elim (Bool-cases (j == k)) [
    | inl same ↦ rw same (let e : j ≡ k = (eq_iff j k).0 same in (rw (← e) u.0, u.1))
    | inr other ↦ rw other (
      lookup-insert_other j k v d (ground (arith, eq_iff j k, eq_iff k j, other)) u.0,
      insert-IsUnique k v d u.1,
    )
  ]

  put_all-IsUnique : (d out : Dict String P) → IsUnique out → IsUnique (put_all d out)
  put_all-IsUnique [] out u = u
  put_all-IsUnique ((k, v) ∷ d) out u =
      put_all-IsUnique d (insert k v out) (insert-IsUnique k v out u)

  or_else_assoc : (a b c : Option P) → or_else a (or_else b c) ≡ or_else (or_else a b) c
  or_else_assoc none b c = refl
  or_else_assoc (some v) b c = refl

  or_else-none : (a : Option P) → or_else a none ≡ a
  or_else-none none = refl
  or_else-none (some v) = refl

  if-or_else :
      (k name : String) (v : P) (o : Option P)
      → (if k == name then some v else o) ≡ or_else (if k == name then some v else none) o
  if-or_else k name v o = elim (Bool-cases (k == name)) [ inl h ↦ rw h | inr h ↦ rw h ]

  lookup-put_all :
      (name : String) (d out : Dict String P)
      → lookup name (put_all d out) ≡ or_else (last_value name d) (lookup name out)
  lookup-put_all name [] out = refl
  lookup-put_all name ((k, v) ∷ d) out =
      lookup-put_all name d (insert k v out)
      ∙ ap (or_else (last_value name d)) (lookup-insert k name v out ∙ if-or_else k name v _)
      ∙ or_else_assoc (last_value name d) (if k == name then some v else none) (lookup name out)

  last_value-lookup :
      (name : String) (d : Dict String P) → IsUnique d → last_value name d ≡ lookup name d
  unfolding lookup
  last_value-lookup name [] u = refl
  last_value-lookup name ((k, v) ∷ d) u = elim (Bool-cases (k == name)) [
    | inl same ↦
        let e : lookup name d ≡ none = ap (λ n. lookup n d) (sym ((eq_iff k name).0 same)) ∙ u.0 in
        rw (last_value-lookup name d u.1, e, same)
    | inr other ↦ rw (last_value-lookup name d u.1, other) (or_else-none (lookup name d))
  ]

  lookup-key_field :
      (ps : Payloads P) (key name : String)
      → lookup name (("key", ps.of_text key) ∷ [])
        ≡ (if "key" == name then some (ps.of_text key) else none)
  unfolding lookup
  lookup-key_field ps key name = refl

  previous_from_payload-IsUnique :
      (ps : Payloads P) (key : String) (payload : P)
      → IsUnique (previous_from_payload ps key payload)
  unfolding previous_from_payload lookup
  previous_from_payload-IsUnique ps key payload = elim (Bool-cases (ps.is_object payload)) [
    | inl object ↦ rw object (put_all-IsUnique (ps.object payload) _ (refl, tt))
    | inr other ↦ rw other (insert-IsUnique "payload" payload _ (refl, tt))
  ]

  lookup-previous_from_payload :
      (ps : Payloads P) (key : String) (payload : P) (name : String)
      → lookup name (previous_from_payload ps key payload) ≡ remembered ps key payload name
  unfolding previous_from_payload
  lookup-previous_from_payload ps key payload name =
      let out : Dict String P = ("key", ps.of_text key) ∷ [] in
      elim (Bool-cases (ps.is_object payload)) [
        | inl object ↦ rw object (
            lookup-put_all name (ps.object payload) out
            ∙ ap (or_else (last_value name (ps.object payload))) (lookup-key_field ps key name))
        | inr other ↦ rw other (
            lookup-insert "payload" name payload out
            ∙ ap (λ o. if "payload" == name then some payload else o)
                (lookup-key_field ps key name))
      ]

  -- The fields that replace those of the step before.
  pub lookup-put_all-previous :
      (ps : Payloads P) (key : String) (payload : P) (name : String)
      → lookup name (put_all (previous_from_payload ps key payload) [])
        ≡ remembered ps key payload name
  lookup-put_all-previous ps key payload name =
      let p = previous_from_payload ps key payload in
      let nothing : or_else (last_value name p) (lookup name []) ≡ last_value name p =
        unfold lookup in or_else-none (last_value name p) in
      lookup-put_all name p []
      ∙ nothing
      ∙ last_value-lookup name p (previous_from_payload-IsUnique ps key payload)
      ∙ lookup-previous_from_payload ps key payload name
