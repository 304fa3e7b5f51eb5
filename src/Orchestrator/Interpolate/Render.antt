-- ===== src/Orchestrator/Interpolate/Render.antt =====
-- Which texts `expand` gives for a text that is written from plain parts and references.
use Prim.Native.String.{◌++◌ as str_append}
use Prim.Native.String.append.{nil, cons}
use Prim.Native.Char.{Char, code}
use text.Mathlib.TextLemmas.{append_assoc}
use mathlib.Core.Bool.{true≢false}
use event_driven_tests_ai.Common.{
  eq_iff, ℕ, suc, String, List, [], ◌∷◌, ◌==◌, ◌&&◌, not, arith, ◌≡◌, ◌≢◌, refl, ap, sym, ◌∙◌,
  string_comparable, nat_comparable, Bool, true, false, some, Bool-cases, inl, inr,
}
use event_driven_tests_ai.Common.Dict.{Dict}
use event_driven_tests_ai.Orchestrator.{Payloads}
use event_driven_tests_ai.Orchestrator.Interpolate.{
  text_length, braced, brace_name, shell_name, expand_from, has_reference, literal, resolve, expand,
}

pub data Part : Type 0 where
  plain : String → Part
  reference : String → Part

abbrev pub written : Part → String
written (plain t) = t
written (reference name) = literal name

abbrev pub render : List Part → String
render [] = ""
render (p ∷ ps) = str_append (written p) (render ps)

-- The text with each reference replaced.
abbrev pub meaning : (String → String) → List Part → String
meaning f [] = ""
meaning f (plain t ∷ ps) = str_append t (meaning f ps)
meaning f (reference name ∷ ps) = str_append (f name) (meaning f ps)

abbrev pub lacks : ℕ → String → Bool
lacks n String.[] = true
lacks n (String.◌∷◌ c s) = not (code c == n) && lacks n s

-- A plain part has no dollar; a reference has a name, without a brace that closes.
abbrev pub IsPart : Part → Type 0
IsPart (plain t) = lacks b'$' t ≡ true
IsPart (reference name) = (name ≢ "") × (lacks b'}' name ≡ true)

abbrev pub AreParts : List Part → Type 0
AreParts [] = Unit
AreParts (p ∷ ps) = IsPart p × AreParts ps

module _ (f : String → String) where
  expand_from-plain :
      (t r : String)
      → lacks b'$' t ≡ true
      → expand_from f 0 (str_append t r) ≡ str_append t (expand_from f 0 r)
  unfolding expand_from
  expand_from-plain String.[] r h = rw (nil r, nil (expand_from f 0 r))
  expand_from-plain (String.◌∷◌ c t) r h =
      let e : (code c == b'$') ≡ false = ground arith in
      let k : lacks b'$' t ≡ true = ground arith in
      rw (cons c t r, cons c t (expand_from f 0 r), e)
        (ap (λ u. String.◌∷◌ c u) (expand_from-plain t r k))

  expand_from-skip :
      (n : String) (c : Char) (r : String)
      → expand_from f (suc (text_length n)) (str_append n (String.◌∷◌ c r)) ≡ expand_from f 0 r
  unfolding expand_from
  expand_from-skip String.[] c r = rw (nil (String.◌∷◌ c r))
  expand_from-skip (String.◌∷◌ d n) c r = rw (cons d n (String.◌∷◌ c r)) (expand_from-skip n c r)

pub close : (r : String) → str_append "}" r ≡ String.◌∷◌ "}" r
close r = cons "}" "" r ∙ ap (λ u. String.◌∷◌ "}" u) (nil r)

pub open_brace :
    (n r : String)
    → str_append (literal n) r ≡ String.◌∷◌ "$" (String.◌∷◌ "{" (str_append n (String.◌∷◌ "}" r)))
open_brace n r =
    cons "$" _ r
    ∙ ap (λ u. String.◌∷◌ "$" u)
        (cons "{" _ r
          ∙ ap (λ u. String.◌∷◌ "{" u) (append_assoc n "}" r ∙ ap (str_append n) (close r)))

pub brace_name-append :
    (n r : String) → lacks b'}' n ≡ true → brace_name (str_append n (String.◌∷◌ "}" r)) ≡ some n
unfolding brace_name
brace_name-append String.[] r h = rw (nil (String.◌∷◌ "}" r))
brace_name-append (String.◌∷◌ c n) r h =
    let e : (code c == b'}') ≡ false = ground arith in
    let k : lacks b'}' n ≡ true = ground arith in
    rw (cons c n (String.◌∷◌ "}" r), e, brace_name-append n r k)

has_reference-append :
    (t r : String) → has_reference (str_append t r) ≡ false → has_reference r ≡ false
unfolding has_reference
has_reference-append String.[] r h = rw (nil r) at h
has_reference-append (String.◌∷◌ c t) r h =
    let k : has_reference (String.◌∷◌ c (str_append t r)) ≡ false = rw (cons c t r) at h in
    has_reference-append t r (ground (arith, k))

not_empty : (n : String) → n ≢ "" → (n == "") ≡ false
not_empty n h = ground (arith, h, eq_iff n "")

braced-some : (n : String) → n ≢ "" → braced (some n) ≡ (n, suc (suc (text_length n)))
braced-some n h = rw (not_empty n h)

module _ (f : String → String) where
  expand_from-reference :
      (n r : String)
      → n ≢ ""
      → lacks b'}' n ≡ true
      → expand_from f 0 (str_append (literal n) r) ≡ str_append (f n) (expand_from f 0 r)
  unfolding expand_from shell_name
  expand_from-reference n r h k =
      rw (open_brace n r, brace_name-append n r k, braced-some n h, not_empty n h)
        (ap (str_append (f n)) (expand_from-skip f n "}" r))

  pub expand_from-render :
      (ps : List Part) → AreParts ps → expand_from f 0 (render ps) ≡ meaning f ps
  expand_from-render [] h = unfold expand_from in refl
  expand_from-render (plain t ∷ ps) h =
      expand_from-plain f t (render ps) h.0 ∙ ap (str_append t) (expand_from-render ps h.1)
  expand_from-render (reference n ∷ ps) h =
      expand_from-reference n (render ps) h.0.0 h.0.1
      ∙ ap (str_append (f n)) (expand_from-render ps h.1)

  -- With no reference among the parts there is nothing to replace.
  meaning-no_reference :
      (ps : List Part) → has_reference (render ps) ≡ false → meaning f ps ≡ render ps
  unfolding has_reference
  meaning-no_reference [] h = refl
  meaning-no_reference (plain t ∷ ps) h =
      ap (str_append t) (meaning-no_reference ps (has_reference-append t (render ps) h))
  meaning-no_reference (reference n ∷ ps) h =
      let k : has_reference
            (String.◌∷◌ "$" (String.◌∷◌ "{" (str_append n (String.◌∷◌ "}" (render ps)))))
          ≡ false =
        rw (open_brace n (render ps)) at h in
      elim (true≢false k) [ ]

module _ {P : Type 0} (payloads : Payloads P) (show : P → String)
    (run previous : Dict String P) where
  -- In a text that is written from plain parts with no dollar and references `${name}`, the plain
  -- parts stay and each reference is replaced: by the value at its path, if its first word is run or
  -- previous and there is one, and else by itself.
  pub expand-render :
      (ps : List Part)
      → AreParts ps
      → expand payloads show run previous (render ps)
        ≡ meaning (resolve payloads show run previous) ps
  unfolding expand
  expand-render ps h = elim (Bool-cases (has_reference (render ps))) [
    | inl there ↦ rw there (expand_from-render (resolve payloads show run previous) ps h)
    | inr absent ↦
        rw absent (sym (meaning-no_reference (resolve payloads show run previous) ps absent))
  ]
