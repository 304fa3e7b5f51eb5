-- ===== src/Eval/Words.antt =====
-- parseMinSamples of pkg/eval/executor.go, with what it uses of `strings` and `strconv`.
use event_driven_tests_ai.Common.{
  true, nat_comparable, ℕ, String, List, [], ◌∷◌, if◌then◌else◌, ◌==◌, ◌||◌, string_comparable,
  Bool, Option, none, some,
}
use event_driven_tests_ai.Common.Int.{ℤ, pos, negsuc}
use event_driven_tests_ai.Common.Text.{is_space, trim_space}
use event_driven_tests_ai.Common.Numerals.{atoi}
use event_driven_tests_ai.Eval.{Floats}

abbrev pub word : String → List String → List String
word w ws = if w == "" then ws else w ∷ ws

-- The word that a text begins with, and the words after it.
pub split_words : String → String × List String
split_words String.[] = (String.[], [])
split_words (String.◌∷◌ c s) =
    let (w, ws) = split_words s in
    if is_space c then (String.[], word w ws) else ((String.◌∷◌ c w), ws)

-- `strings.Fields`
unfoldable pub fields : String → List String
unfolding split_words
fields s = let (w, ws) = split_words s in word w ws

abbrev pub unit_counts : List String → Bool
unit_counts [] = true
unit_counts (u ∷ us) = u == "runs" || u == "samples" || u == "run" || u == "sample"

abbrev pub least : Option ℤ → List String → ℕ
least none units = 0
least (some (negsuc n)) units = 0
least (some (pos n)) units = if unit_counts units then n else 0

abbrev pub from_fields : List String → ℕ
from_fields [] = 0
from_fields (n ∷ units) = least (atoi n) units

unfoldable pub parse_min_samples : {F : Type 0} → Floats F → String → ℕ
unfolding fields
parse_min_samples fl over = from_fields (fields (trim_space (fl.to_lower over)))
