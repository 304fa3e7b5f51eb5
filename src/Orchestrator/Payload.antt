-- ===== src/Orchestrator/Payload.antt =====
-- Payloads on their way: the data aliases, and what a consumer reads of what a producer wrote.
use Prim.Native.String.{◌++◌ as str_append}
use Prim.Native.String.append.{nil, cons}
use package.text.Mathlib.TextLemmas.{append_assoc, append-nil}
use mathlib.Core.Bool.{true≢false}
use event_driven_tests_ai.Common.{
  Option-cases, and_false, ℕ, String, List, [], ◌∷◌, ◌≡◌, ◌≢◌, refl, ◌∙◌, ap, sym, arith, any, ◌==◌,
  string_comparable, nat_comparable, if◌then◌else◌, Option, none, some, Bool, true, false, inl, inr,
  eq_iff,
}
use event_driven_tests_ai.Common.Dict.{Dict}
use event_driven_tests_ai.Common.Text.{strip_prefix-append, cons_not_empty, cut}
use event_driven_tests_ai.Json.{Json, null, bool, int, num, text, arr, obj}
use event_driven_tests_ai.Orchestrator.{State}
use event_driven_tests_ai.Orchestrator.Interpolate.{resolve, literal}
use event_driven_tests_ai.Orchestrator.Interpolate.Render.{Part, reference, lacks, expand-render}
use event_driven_tests_ai.Orchestrator.Runner.{
  Library, Setup, Answer, refused, payloads, expand_in, strip_brace, data_alias, resolve_payload,
  encode_wire_value, decode_for_wire, decode_consumed_value, starts_zero,
}

append_brace_not_empty : (n : String) → (str_append n "}" == "") ≡ false
append_brace_not_empty String.[] = refl
append_brace_not_empty (String.◌∷◌ c n) = rw (cons c n "}") (cons_not_empty c (str_append n "}"))

strip_brace-close : (n : String) → strip_brace (str_append n "}") ≡ some n
unfolding strip_brace
strip_brace-close String.[] = refl
strip_brace-close (String.◌∷◌ c n) =
    rw (cons c n "}", append_brace_not_empty n, strip_brace-close n)

abbrev pub alias_text : String → String
alias_text name = str_append "${data." (str_append name "}")

data_alias-alias_text : (name : String) → data_alias (alias_text name) ≡ some name
unfolding data_alias
data_alias-alias_text name =
    rw (strip_prefix-append "${data." (str_append name "}")) (strip_brace-close name)

abbrev dotted : String → String
dotted r = String.◌∷◌ "d" (String.◌∷◌ "a" (String.◌∷◌ "t" (String.◌∷◌ "a" (String.◌∷◌ "." r))))

data-append : (r : String) → str_append "data." r ≡ dotted r
data-append r =
    cons "d" "ata." r
    ∙ ap (λ u. String.◌∷◌ "d" u)
        (cons "a" "ta." r
          ∙ ap (λ u. String.◌∷◌ "a" u)
              (cons "t" "a." r
                ∙ ap (λ u. String.◌∷◌ "t" u)
                    (cons "a" "." r
                      ∙ ap (λ u. String.◌∷◌ "a" u)
                          (cons "." "" r ∙ ap (λ u. String.◌∷◌ "." u) (nil r)))))

alias-eq-literal : (name : String) → alias_text name ≡ literal (str_append "data." name)
alias-eq-literal name =
    let r = str_append name "}" in
    cons "$" "{data." r
    ∙ ap (λ u. String.◌∷◌ "$" u)
        (cons "{" "data." r ∙ ap (λ u. String.◌∷◌ "{" u) (sym (append_assoc "data." name "}")))

dotted_not_empty : (r : String) → str_append "data." r ≢ ""
dotted_not_empty r e =
    let k : dotted r ≡ "" = sym (data-append r) ∙ e in
    let f : (dotted r == "") ≡ false =
      cons_not_empty "d" (String.◌∷◌ "a" (String.◌∷◌ "t" (String.◌∷◌ "a" (String.◌∷◌ "." r)))) in
    ground (arith, k, f, eq_iff (dotted r) "")

lacks-dotted : (r : String) → lacks b'}' r ≡ true → lacks b'}' (str_append "data." r) ≡ true
lacks-dotted r h = rw (data-append r) h

-- The value that a text writes, if there is one, and else the text.
abbrev pub or_text : {F : Type 0} → String → Option (Json F) → Json F
or_text t none = text t
or_text t (some v) = v

module _ {F : Type 0} (lib : Library F) (setup : Setup F) where
  resolve-dotted :
      (previous : Dict String (Json F)) (name : String)
      → resolve payloads lib.show setup.run previous (str_append "data." name)
        ≡ literal (str_append "data." name)
  unfolding resolve cut
  resolve-dotted previous name = rw (data-append name)

  alias-stays :
      (s : State (Json F)) (name : String)
      → lacks b'}' name ≡ true
      → expand_in lib setup s (alias_text name) ≡ alias_text name
  unfolding expand_in
  alias-stays s name h =
      let n = str_append "data." name in
      let parts : List Part = reference n ∷ [] in
      let e =
        expand-render payloads lib.show setup.run s.previous parts
          ((dotted_not_empty name, lacks-dotted name h), tt) in
      rw (alias-eq-literal name, ← append-nil (literal n)) (e ∙ rw (resolve-dotted s.previous name))

  -- A payload that names a data generator reaches that generator: interpolation leaves the alias as
  -- it is, whatever the run and the step before hold, and the payload is what the generator gives; a
  -- name that no generator has is an error.
  pub resolve_payload-alias :
      (s : State (Json F)) (name : String) (generated : Answer (Json F))
      → lacks b'}' name ≡ true
      → resolve_payload lib setup (expand_in lib setup s (alias_text name)) generated ≡ (
          if any (λ g. g == name) setup.generators then generated else refused "unknown data alias")
  unfolding resolve_payload
  resolve_payload-alias s name generated h = rw (alias-stays s name h, data_alias-alias_text name)

  decode-raw :
      (codec : List ℕ → Answer (Json F)) (v : List ℕ)
      → starts_zero lib setup v ≡ false
      → decode_for_wire lib setup codec v ≡ decode_consumed_value lib setup v
  unfolding decode_for_wire
  decode-raw codec v h = rw (and_false setup.has_codec (starts_zero lib setup v) h)

  abbrev pub is_text : Json F → Bool
  is_text (text t) = true
  is_text _ = false

  encode-json : (v : Json F) → is_text v ≡ false → encode_wire_value lib setup v ≡ lib.marshal v
  unfolding encode_wire_value
  encode-json null h = refl
  encode-json (bool b) h = refl
  encode-json (int i) h = refl
  encode-json (num x) h = refl
  encode-json (text t) h = elim (true≢false h) [ ]
  encode-json (arr vs) h = refl
  encode-json (obj fs) h = refl

  decode-encode_text :
      (codec : List ℕ → Answer (Json F)) (t : String)
      → lib.text_of (lib.bytes t) ≡ t
      → starts_zero lib setup (lib.bytes t) ≡ false
      → decode_for_wire lib setup codec (encode_wire_value lib setup (text t))
        ≡ or_text t (lib.unmarshal (lib.bytes t))
  unfolding encode_wire_value decode_consumed_value
  decode-encode_text codec t e h =
      decode-raw codec (lib.bytes t) h ∙ elim (Option-cases (lib.unmarshal (lib.bytes t))) [
        | inl plain ↦ rw plain (ap (λ u. text u) e)
        | inr (v, written) ↦ rw written
      ]

  -- A payload that is produced without a schema is consumed as it was, if it is no text; a text is
  -- consumed as it was if it is no JSON, and else as the value that it writes. JSON that is written
  -- must be read back, a text be read back from its bytes, and neither begin with a zero byte.
  pub decode-encode_wire_value :
      (codec : List ℕ → Answer (Json F)) (v : Json F) (t : String)
      → is_text v ≡ false
      → lib.unmarshal (lib.marshal v) ≡ some v
      → starts_zero lib setup (lib.marshal v) ≡ false
      → lib.text_of (lib.bytes t) ≡ t
      → starts_zero lib setup (lib.bytes t) ≡ false
      → (decode_for_wire lib setup codec (encode_wire_value lib setup v) ≡ v)
        × (decode_for_wire lib setup codec (encode_wire_value lib setup (text t))
            ≡ or_text t (lib.unmarshal (lib.bytes t)))
  unfolding decode_consumed_value
  decode-encode_wire_value codec v t n read start e h = (
    rw (encode-json v n) (decode-raw codec (lib.marshal v) start ∙ rw read),
    decode-encode_text codec t e h,
  )
