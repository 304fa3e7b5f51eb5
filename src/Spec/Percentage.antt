-- ===== src/Spec/Percentage.antt =====
-- Percentage of pkg/scenario/percentage.go: a fraction that is written as a number or in percent.
use event_driven_tests_ai.Common.{
  String, if◌then◌else◌, ◌==◌, ◌||◌, string_comparable, nat_comparable, ◌≡◌, ◌∙◌, sym, ap, arith,
  Bool-cases, inl, inr, false, Option, none, some,
}
use event_driven_tests_ai.Common.Text.{trim_space}
use Prim.Native.Char.{Char, code}
use event_driven_tests_ai.Eval.{Floats}

abbrev longer : Char → Option String → Option String
longer c none = none
longer c (some s) = some (String.◌∷◌ c s)

-- A text without the percent sign at its end, if it has one.
unfoldable pub without_percent : String → Option String
without_percent String.[] = none
without_percent (String.◌∷◌ c s) =
    let rest = longer c (without_percent s) in
    if s == "" then (if code c == b'%' then some "" else none) else rest

module _ {F : Type 0} (fl : Floats F) where
  -- `bounded`: a value between 0 and 1 is kept.
  unfoldable pub bounded : F → Option F
  bounded v = if fl.less v (fl.of_int 0) || fl.less (fl.of_int 1) v then none else some v

  abbrev bounded_number : Option F → Option F
  bounded_number none = none
  bounded_number (some v) = bounded v

  abbrev bounded_percent : Option F → Option F
  bounded_percent none = none
  bounded_percent (some v) = bounded (fl.div v (fl.of_int 100))

  abbrev fraction : String → Option String → Option F
  fraction s none = bounded_number (fl.parse s)
  fraction s (some raw) = bounded_percent (fl.parse (trim_space raw))

  -- `UnmarshalYAML`, on the text of the node; none is an error.
  unfoldable pub parse_percentage : String → Option F
  unfolding without_percent bounded trim_space
  parse_percentage text =
      let s = trim_space text in
      if s == "" then some (fl.of_int 0) else fraction s (without_percent s)

  -- The comparisons do not place the value outside of 0 and 1.
  pub record IsFraction (v : F) : Type 0 where
    pub not_below : fl.less v (fl.of_int 0) ≡ false
    pub not_above : fl.less (fl.of_int 1) v ≡ false

  bounded-IsFraction : (u v : F) → bounded u ≡ some v → IsFraction v
  unfolding bounded
  bounded-IsFraction u v h =
      let low : fl.less u (fl.of_int 0) ≡ false = ground arith in
      let high : fl.less (fl.of_int 1) u ≡ false = ground arith in
      let e : u ≡ v = ground arith in
      record {
        not_below = ap (λ x. fl.less x (fl.of_int 0)) (sym e) ∙ low;
        not_above = ap (fl.less (fl.of_int 1)) (sym e) ∙ high;
      }

  bounded_number-IsFraction : (o : Option F) (v : F) → bounded_number o ≡ some v → IsFraction v
  bounded_number-IsFraction none v h = let bad : ⊥ = ground arith in elim bad [ ]
  bounded_number-IsFraction (some u) v h = bounded-IsFraction u v h

  bounded_percent-IsFraction : (o : Option F) (v : F) → bounded_percent o ≡ some v → IsFraction v
  bounded_percent-IsFraction none v h = let bad : ⊥ = ground arith in elim bad [ ]
  bounded_percent-IsFraction (some u) v h = bounded-IsFraction (fl.div u (fl.of_int 100)) v h

  fraction-IsFraction :
      (s : String) (o : Option String) (v : F) → fraction s o ≡ some v → IsFraction v
  fraction-IsFraction s none v h = bounded_number-IsFraction (fl.parse s) v h
  fraction-IsFraction s (some raw) v h = bounded_percent-IsFraction (fl.parse (trim_space raw)) v h

  -- Whatever text a rate is read from, as a number or in percent: a value that is accepted is placed
  -- neither below 0 nor above 1 by the comparisons, if they do not place 0 below itself or above 1.
  pub parse_percentage-IsFraction :
      (t : String) (v : F)
      → fl.less (fl.of_int 0) (fl.of_int 0) ≡ false
      → fl.less (fl.of_int 1) (fl.of_int 0) ≡ false
      → parse_percentage t ≡ some v
      → IsFraction v
  unfolding parse_percentage
  parse_percentage-IsFraction t v low high h = elim (Bool-cases (trim_space t == "")) [
    | inl blank ↦
        let e : fl.of_int 0 ≡ v = ground arith in
        record {
          not_below = ap (λ x. fl.less x (fl.of_int 0)) (sym e) ∙ low;
          not_above = ap (fl.less (fl.of_int 1)) (sym e) ∙ high;
        }
    | inr written ↦
        fraction-IsFraction (trim_space t) (without_percent (trim_space t)) v
          (sym (simp (written)) ∙ h)
  ]
