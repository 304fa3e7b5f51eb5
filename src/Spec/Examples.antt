-- ===== src/Spec/Examples.antt =====
-- A rate in percent, with natural numbers of hundredths in place of floats.
use event_driven_tests_ai.Common.{
  ℕ, ltb, nat_beq, ◌+◌, ◌-◌, ◌*◌, ◌/◌, if◌then◌else◌, ◌==◌, string_comparable, ◌≡◌, refl, none,
  some,
}
use event_driven_tests_ai.Common.Text.{trim_space}
use event_driven_tests_ai.Eval.{Floats}
use event_driven_tests_ai.Spec.Percentage.{
  parse_percentage, without_percent, bounded, IsFraction, parse_percentage-IsFraction,
}

-- Only the number 50 can be read; it counts in hundredths, and 100 stands for itself.
abbrev hundredths : Floats ℕ
hundredths = record {
  nan = 0;
  of_int = λ n. if nat_beq n 100 then 100 else n * 100;
  add = λ a b. a + b;
  sub = λ a b. a - b;
  mul = λ a b. a * b;
  div = λ a b. a * 100 / b;
  less = ltb;
  equal = nat_beq;
  floor = λ n. n / 100;
  ceil = λ n. n / 100;
  parse = λ s. if s == "50" then some 50 else none;
  to_lower = λ s. s;
}

half : parse_percentage hundredths "50%" ≡ some 50
unfolding parse_percentage without_percent bounded trim_space
half = refl

parse_percentage-IsFraction_example : IsFraction hundredths 50
parse_percentage-IsFraction_example = parse_percentage-IsFraction hundredths "50%" 50 refl refl half
