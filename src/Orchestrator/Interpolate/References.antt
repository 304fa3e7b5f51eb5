-- ===== src/Orchestrator/Interpolate/References.antt =====
-- What a text with references to fields becomes: each is the value at its path, or stays.
use Prim.Native.String.{◌++◌ as str_append}
use Prim.Native.String.append.{nil, cons}
use Prim.Native.Char.{code}
use event_driven_tests_ai.Common.{
  String, List, [], ◌∷◌, ◌==◌, ◌&&◌, not, arith, ◌≡◌, refl, ap, ◌∙◌, if◌then◌else◌, map,
  string_comparable, nat_comparable, Bool, true, false, Option, none, some, All,
}
use event_driven_tests_ai.Common.Dict.{Dict, lookup}
use event_driven_tests_ai.Common.Text.{cut, split}
use event_driven_tests_ai.Orchestrator.{Payloads}
use event_driven_tests_ai.Orchestrator.Interpolate.{
  literal, descend, lookup_path, shown, referred, resolve, expand,
}
use event_driven_tests_ai.Orchestrator.Interpolate.Render.{
  Part, plain, reference, render, meaning, lacks, AreParts, expand-render,
}

-- A piece of a text: plain text, a path into the run or into the previous step, from its first word,
-- or the name of any other reference.
pub data Piece : Type 0 where
  words : String → Piece
  of_run : String → List String → Piece
  of_previous : String → List String → Piece
  unknown : String → Piece

abbrev pub dotted : String → List String → String
dotted p [] = p
dotted p (q ∷ qs) = str_append p (String.◌∷◌ "." (dotted q qs))

abbrev run_dot : String → String
run_dot t = String.◌∷◌ "r" (String.◌∷◌ "u" (String.◌∷◌ "n" (String.◌∷◌ "." t)))

abbrev previous_dot : String → String
previous_dot t = String.◌∷◌ "p" (
    String.◌∷◌ "r" (
      String.◌∷◌ "e" (
        String.◌∷◌ "v"
          (String.◌∷◌ "i" (String.◌∷◌ "o" (String.◌∷◌ "u" (String.◌∷◌ "s" (String.◌∷◌ "." t))))))))

-- The name between the braces.
abbrev pub part_of : Piece → Part
part_of (words t) = plain t
part_of (of_run p ps) = reference (run_dot (dotted p ps))
part_of (of_previous p ps) = reference (previous_dot (dotted p ps))
part_of (unknown name) = reference name

-- A name with no dot, or with another first word than run and previous.
abbrev pub is_unknown : Option (String × String) → Bool
is_unknown none = true
is_unknown (some (root, rest)) = not (root == "run") && not (root == "previous")

abbrev pub IsPiece : Piece → Type 0
IsPiece (words t) = Unit
IsPiece (of_run p ps) = All (λ q. lacks b'.' q ≡ true) (p ∷ ps)
IsPiece (of_previous p ps) = All (λ q. lacks b'.' q ≡ true) (p ∷ ps)
IsPiece (unknown name) = is_unknown (cut b'.' name) ≡ true

split-last : (p : String) → lacks b'.' p ≡ true → split b'.' p ≡ p ∷ []
unfolding split
split-last String.[] h = refl
split-last (String.◌∷◌ c p) h =
    let e : (code c == b'.') ≡ false = ground arith in
    let k : lacks b'.' p ≡ true = ground arith in rw (e, split-last p k)

split-first :
    (p t : String)
    → lacks b'.' p ≡ true
    → split b'.' (str_append p (String.◌∷◌ "." t)) ≡ p ∷ split b'.' t
unfolding split
split-first String.[] t h = rw (nil (String.◌∷◌ "." t))
split-first (String.◌∷◌ c p) t h =
    let e : (code c == b'.') ≡ false = ground arith in
    let k : lacks b'.' p ≡ true = ground arith in
    rw (cons c p (String.◌∷◌ "." t), e, split-first p t k)

split-dotted :
    (p : String) (ps : List String)
    → All (λ q. lacks b'.' q ≡ true) (p ∷ ps)
    → split b'.' (dotted p ps) ≡ p ∷ ps
split-dotted p [] h = split-last p h.0
split-dotted p (q ∷ qs) h =
    split-first p (dotted q qs) h.0 ∙ ap (λ l. p ∷ l) (split-dotted q qs h.1)

cut-run : (t : String) → cut b'.' (run_dot t) ≡ some ("run", t)
unfolding cut
cut-run t = refl

cut-previous : (t : String) → cut b'.' (previous_dot t) ≡ some ("previous", t)
unfolding cut
cut-previous t = refl

module _ {P : Type 0} (payloads : Payloads P) (show : P → String) where
  -- The value at the end of a path, from the value of its first word: each further word names a field
  -- of an object.
  abbrev pub walk : Option P → List String → Option P
  walk none ps = none
  walk (some v) [] = some v
  walk (some v) (p ∷ ps) =
      if payloads.is_object v then walk (lookup p (payloads.object v)) ps else none

  abbrev pub value_at : Dict String P → String → List String → Option P
  value_at bag p ps = walk (lookup p bag) ps

  -- A value is shown; a reference to nothing stays as it was written.
  abbrev pub shown_or_written : String → Option P → String
  shown_or_written name none = literal name
  shown_or_written name (some v) = show v

  abbrev pub piece_meaning : Dict String P → Dict String P → Piece → String
  piece_meaning run previous (words t) = t
  piece_meaning run previous (of_run p ps) =
      shown_or_written (run_dot (dotted p ps)) (value_at run p ps)
  piece_meaning run previous (of_previous p ps) =
      shown_or_written (previous_dot (dotted p ps)) (value_at previous p ps)
  piece_meaning run previous (unknown name) = literal name

  abbrev pub text_meaning : Dict String P → Dict String P → List Piece → String
  text_meaning run previous [] = ""
  text_meaning run previous (x ∷ xs) =
      str_append (piece_meaning run previous x) (text_meaning run previous xs)

  after-walk :
      (o : Option P) (ps : List String)
      → ((v : P) → descend payloads show ps v ≡ walk (some v) ps)
      → (elim o [ none ↦ none | some v ↦ descend payloads show ps v ]) ≡ walk o ps
  after-walk none ps h = refl
  after-walk (some v) ps h = h v

  descend-walk : (ps : List String) (v : P) → descend payloads show ps v ≡ walk (some v) ps
  unfolding descend
  descend-walk [] v = refl
  descend-walk (p ∷ ps) v =
      ap (λ o. if payloads.is_object v then o else none)
        (after-walk (lookup p (payloads.object v)) ps (descend-walk ps))

  lookup_path-value_at :
      (bag : Dict String P) (p : String) (ps : List String)
      → lookup_path payloads show bag (p ∷ ps) ≡ value_at bag p ps
  unfolding lookup_path
  lookup_path-value_at bag p ps = after-walk (lookup p bag) ps (descend-walk ps)

  shown-written :
      (name : String) (o : Option P) → shown payloads show name o ≡ shown_or_written name o
  shown-written name none = refl
  shown-written name (some v) = refl

  referred-unknown :
      (run previous : Dict String P) (name : String) (o : Option (String × String))
      → is_unknown o ≡ true
      → referred payloads show run previous name o ≡ literal name
  referred-unknown run previous name none h = refl
  referred-unknown run previous name (some (root, rest)) h = ground arith

  at_path :
      (bag : Dict String P) (name p : String) (ps : List String)
      → All (λ q. lacks b'.' q ≡ true) (p ∷ ps)
      → shown payloads show name (lookup_path payloads show bag (split b'.' (dotted p ps)))
        ≡ shown_or_written name (value_at bag p ps)
  at_path bag name p ps h =
      ap (λ l. shown payloads show name (lookup_path payloads show bag l)) (split-dotted p ps h)
      ∙ ap (shown payloads show name) (lookup_path-value_at bag p ps)
      ∙ shown-written name (value_at bag p ps)

  resolve-run :
      (run previous : Dict String P) (p : String) (ps : List String)
      → All (λ q. lacks b'.' q ≡ true) (p ∷ ps)
      → resolve payloads show run previous (run_dot (dotted p ps))
        ≡ shown_or_written (run_dot (dotted p ps)) (value_at run p ps)
  unfolding resolve
  resolve-run run previous p ps h =
      ap (referred payloads show run previous (run_dot (dotted p ps))) (cut-run (dotted p ps))
      ∙ at_path run (run_dot (dotted p ps)) p ps h

  resolve-previous :
      (run previous : Dict String P) (p : String) (ps : List String)
      → All (λ q. lacks b'.' q ≡ true) (p ∷ ps)
      → resolve payloads show run previous (previous_dot (dotted p ps))
        ≡ shown_or_written (previous_dot (dotted p ps)) (value_at previous p ps)
  unfolding resolve
  resolve-previous run previous p ps h =
      ap (referred payloads show run previous (previous_dot (dotted p ps)))
        (cut-previous (dotted p ps))
      ∙ at_path previous (previous_dot (dotted p ps)) p ps h

  resolve-unknown :
      (run previous : Dict String P) (name : String)
      → is_unknown (cut b'.' name) ≡ true
      → resolve payloads show run previous name ≡ literal name
  unfolding resolve
  resolve-unknown run previous name h = referred-unknown run previous name (cut b'.' name) h

  meaning-text_meaning :
      (run previous : Dict String P) (xs : List Piece)
      → All IsPiece xs
      → meaning (resolve payloads show run previous) (map part_of xs) ≡ text_meaning run previous xs
  meaning-text_meaning run previous [] h = refl
  meaning-text_meaning run previous (words t ∷ xs) h =
      ap (str_append t) (meaning-text_meaning run previous xs h.1)
  meaning-text_meaning run previous (of_run p ps ∷ xs) h =
      rw (resolve-run run previous p ps h.0, meaning-text_meaning run previous xs h.1)
  meaning-text_meaning run previous (of_previous p ps ∷ xs) h =
      rw (resolve-previous run previous p ps h.0, meaning-text_meaning run previous xs h.1)
  meaning-text_meaning run previous (unknown name ∷ xs) h =
      rw (resolve-unknown run previous name h.0, meaning-text_meaning run previous xs h.1)

  -- In a text of plain words with no dollar and references in braces, the words stay, and each
  -- reference is replaced: one whose first word is run by the value at the rest of its dotted path in
  -- the fields of the run, where each word but the last must name an object, and one whose first word
  -- is previous in the same way by a value of the step before. A reference to no value stays as it
  -- was written, and so does any other. No reference is empty or has a brace that closes, and no word
  -- of a path has a dot.
  pub expand-text_meaning :
      (run previous : Dict String P) (xs : List Piece)
      → All IsPiece xs
      → AreParts (map part_of xs)
      → expand payloads show run previous (render (map part_of xs)) ≡ text_meaning run previous xs
  expand-text_meaning run previous xs h k =
      expand-render payloads show run previous (map part_of xs) k
      ∙ meaning-text_meaning run previous xs h
