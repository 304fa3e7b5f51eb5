-- ===== src/Orchestrator/Interpolate/Bare.antt =====
-- A dollar that opens no reference, in a text that has one.
use Prim.Native.String.{◌++◌ as str_append}
use Prim.Native.String.append.{nil, cons}
use Prim.Native.Char.{Char, code}
use event_driven_tests_ai.Common.{
  suc, String, List, ◌==◌, ◌&&◌, arith, ◌≡◌, refl, ap, ◌∙◌, string_comparable, nat_comparable, Bool,
  true, false, none,
}
use event_driven_tests_ai.Common.Dict.{Dict}
use event_driven_tests_ai.Common.Text.{cut, cons_not_empty}
use event_driven_tests_ai.Orchestrator.{Payloads}
use event_driven_tests_ai.Orchestrator.Interpolate.{
  text_length, shell_name, expand_from, has_reference, literal, resolve, expand, is_word, is_digit,
  word_prefix, is_special,
}
use event_driven_tests_ai.Orchestrator.Interpolate.Render.{
  Part, AreParts, render, meaning, expand_from-render,
}

abbrev pub all_word : String → Bool
all_word String.[] = true
all_word (String.◌∷◌ c s) = is_word c && all_word s

-- A word, as a shell has it: letters, digits and underscores, the first of them no digit.
abbrev pub IsWord : Char → String → Type 0
IsWord c s = (is_word c ≡ true) × (is_digit c ≡ false) × (all_word s ≡ true)

word_prefix-append :
    (n r : String) → all_word n ≡ true → word_prefix (str_append n (String.◌∷◌ " " r)) ≡ n
unfolding word_prefix
word_prefix-append String.[] r h = rw (nil (String.◌∷◌ " " r))
word_prefix-append (String.◌∷◌ c n) r h =
    let e : is_word c ≡ true = ground arith in
    let k : all_word n ≡ true = ground arith in
    rw (cons c n (String.◌∷◌ " " r), e) (ap (λ u. String.◌∷◌ c u) (word_prefix-append n r k))

word-no_special : (c : Char) → is_word c ≡ true → is_digit c ≡ false → is_special c ≡ false
word-no_special c h k = ground (arith, h, k)

word-no_brace : (c : Char) → is_word c ≡ true → (code c == b'{') ≡ false
word-no_brace c h = ground (arith, h)

cut-word : (n : String) → all_word n ≡ true → cut b'.' n ≡ none
unfolding cut
cut-word String.[] h = refl
cut-word (String.◌∷◌ c n) h =
    let e : (code c == b'.') ≡ false = ground arith in
    let k : all_word n ≡ true = ground arith in rw (e, cut-word n k)

skip-word :
    (f : String → String) (n r : String)
    → expand_from f (text_length n) (str_append n r) ≡ expand_from f 0 r
unfolding expand_from
skip-word f String.[] r = rw (nil r)
skip-word f (String.◌∷◌ c n) r = rw (cons c n r) (skip-word f n r)

shell_name-word :
    (c : Char) (s r : String)
    → IsWord c s
    → shell_name (String.◌∷◌ c (str_append s (String.◌∷◌ " " r)))
      ≡ (String.◌∷◌ c s, suc (text_length s))
unfolding shell_name word_prefix
shell_name-word c s r (w, d, all) =
    rw (word-no_brace c w, word-no_special c w d, w, word_prefix-append s r all)

has_reference-cons :
    (c : Char) (r : String) → has_reference r ≡ true → has_reference (String.◌∷◌ c r) ≡ true
unfolding has_reference
has_reference-cons c r h = ground (arith, h)

has_reference-append :
    (t r : String) → has_reference r ≡ true → has_reference (str_append t r) ≡ true
has_reference-append String.[] r h = rw (nil r) h
has_reference-append (String.◌∷◌ c t) r h =
    rw (cons c t r) (has_reference-cons c (str_append t r) (has_reference-append t r h))

module _ (f : String → String) (c : Char) (s r : String) (w : IsWord c s) where
  expand_from-word :
      expand_from f 0 (String.◌∷◌ "$" (String.◌∷◌ c (str_append s (String.◌∷◌ " " r))))
      ≡ str_append (f (String.◌∷◌ c s)) (String.◌∷◌ " " (expand_from f 0 r))
  unfolding expand_from
  expand_from-word =
      rw (shell_name-word c s r w, cons_not_empty c s)
        (ap (str_append (f (String.◌∷◌ c s))) (skip-word f s (String.◌∷◌ " " r)))

module _ {P : Type 0} (payloads : Payloads P) (show : P → String)
    (run previous : Dict String P) where
  resolve-word :
      (c : Char) (s : String)
      → IsWord c s
      → resolve payloads show run previous (String.◌∷◌ c s) ≡ literal (String.◌∷◌ c s)
  unfolding resolve
  resolve-word c s (w, d, all) = rw (cut-word (String.◌∷◌ c s) (rw w all))

  -- In a text that has a reference somewhere, a word after a bare dollar is given braces: what was
  -- `$word` comes out as `${word}`, so a text is not passed through as it was written.
  pub expand-bare :
      (c : Char) (s : String) (ps : List Part)
      → IsWord c s
      → AreParts ps
      → has_reference (render ps) ≡ true
      → expand payloads show run previous
          (String.◌∷◌ "$" (String.◌∷◌ c (str_append s (String.◌∷◌ " " (render ps)))))
        ≡ str_append
            (literal (String.◌∷◌ c s))
            (String.◌∷◌ " " (meaning (resolve payloads show run previous) ps))
  unfolding expand
  expand-bare c s ps w h there =
      let f = resolve payloads show run previous in
      let whole : String =
        String.◌∷◌ "$" (String.◌∷◌ c (str_append s (String.◌∷◌ " " (render ps)))) in
      let e : has_reference whole ≡ true = has_reference-cons "$" _ (
        has_reference-cons c _
          (has_reference-append s _ (has_reference-cons " " (render ps) there))) in
      rw e
        (expand_from-word f c s (render ps) w ∙ rw (resolve-word c s w, expand_from-render f ps h))
