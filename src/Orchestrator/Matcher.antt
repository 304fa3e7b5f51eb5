-- ===== src/Orchestrator/Matcher.antt =====
-- pkg/orchestrator/match.go: a record matches if one of the rules does.
use event_driven_tests_ai.Common.{
  String, List, [], ◌∷◌, ◌==◌, not, string_comparable, Bool, true, false, Option, none, some,
  select,
}
use event_driven_tests_ai.Common.Dict.{Dict}
use event_driven_tests_ai.Common.Text.{trim_space}
use event_driven_tests_ai.Spec.{MatchRule}

-- What the program of a rule gives: a Boolean, another value, or an error.
pub data RuleAnswer : Type 0 where
  answer : Bool → RuleAnswer
  not_bool : RuleAnswer
  eval_error : String → RuleAnswer

-- `compile` gives the text of the error, if a rule does not compile; `eval` runs a rule on a payload
-- with the fields of the previous step. The fields of the run stay the same in all its steps, and
-- so are part of `eval`.
pub record Cel (P : Type 0) : Type 0 where
  pub compile : String → Option String
  pub eval : String → P → Dict String P → RuleAnswer

-- No rules make a matcher that is nil.
pub data Compiled : Type 0 where
  no_matcher : Compiled
  matcher : List MatchRule → Compiled
  compile_error : String → Compiled

abbrev has_text : MatchRule → Bool
has_text r = not (trim_space r.key == "")

unfoldable pub filter_non_empty : List MatchRule → List MatchRule
filter_non_empty rs = select has_text rs

pub data Matched : Type 0 where
  matched : Bool → Matched
  match_error : String → Matched

module _ {P : Type 0} (cel : Cel P) where
  abbrev first_error : List MatchRule → Option String
  first_error [] = none
  first_error (r ∷ rs) =
      let later = first_error rs in elim (cel.compile r.key) [ none ↦ later | some e ↦ some e ]

  abbrev compiled : List MatchRule → Option String → Compiled
  compiled rs (some e) = compile_error e
  compiled [] none = no_matcher
  compiled (r ∷ rs) none = matcher (r ∷ rs)

  unfoldable pub compile_matcher : List MatchRule → Compiled
  unfolding filter_non_empty
  compile_matcher rules = let rs = filter_non_empty rules in compiled rs (first_error rs)

  abbrev judged : RuleAnswer → Matched → Matched
  judged (answer true) later = matched true
  judged (answer false) later = later
  judged not_bool later = match_error "match rule did not return bool"
  judged (eval_error e) later = match_error e

  unfoldable pub matches : List MatchRule → P → Dict String P → Matched
  matches [] payload previous = matched false
  matches (r ∷ rs) payload previous =
      judged (cel.eval r.key payload previous) (matches rs payload previous)
