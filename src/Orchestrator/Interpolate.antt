-- ===== src/Orchestrator/Interpolate.antt =====
-- pkg/orchestrator/interpolate.go: references to fields of the run and of the previous step inside
-- a text, with what it uses of `os.Expand`. A text is a sequence of characters: all that this code
-- looks for is ASCII.
use Prim.Native.String.{◌++◌ as str_append}
use Prim.Native.Char.{Char, code}
use event_driven_tests_ai.Common.{
  ℕ, zero, suc, ◌+◌, String, List, [], ◌∷◌, if◌then◌else◌, ◌==◌, ◌&&◌, ◌||◌, not, leb,
  string_comparable, nat_comparable, Bool, true, false, Option, none, some,
}
use event_driven_tests_ai.Common.Dict.{Dict, lookup}
use event_driven_tests_ai.Common.Text.{cut, split}
use event_driven_tests_ai.Orchestrator.{Payloads}
pub mod Render
pub mod Bare
pub mod References

abbrev pub text_length : String → ℕ
text_length String.[] = 0
text_length (String.◌∷◌ c s) = suc (text_length s)

abbrev pub is_digit : Char → Bool
is_digit c = leb b'0' (code c) && leb (code c) b'9'

-- `isAlphaNum` of os.Expand.
abbrev pub is_word : Char → Bool
is_word c =
    code c == b'_'
    || is_digit c
    || leb b'a' (code c) && leb (code c) b'z'
    || leb b'A' (code c) && leb (code c) b'Z'

-- `isShellSpecialVar` of os.Expand.
abbrev pub is_special : Char → Bool
is_special c =
    let n = code c in
    n == b'*'
    || n == b'#'
    || n == b'$'
    || n == b'@'
    || n == b'!'
    || n == b'?'
    || n == b'-'
    || is_digit c

abbrev prepend : Char → Option String → Option String
prepend c none = none
prepend c (some s) = some (String.◌∷◌ c s)

-- What stands before the next brace that closes.
unfoldable pub brace_name : String → Option String
brace_name String.[] = none
brace_name (String.◌∷◌ c s) = if code c == b'}' then some "" else prepend c (brace_name s)

unfoldable pub word_prefix : String → String
word_prefix String.[] = ""
word_prefix (String.◌∷◌ c s) = if is_word c then String.◌∷◌ c (word_prefix s) else ""

abbrev pub braced : Option String → String × ℕ
braced none = ("", 1)
braced (some name) = if name == "" then ("", 2) else (name, suc (suc (text_length name)))

-- `getShellName` of os.Expand: the name after a dollar, and how many characters it takes.
unfoldable pub shell_name : String → String × ℕ
shell_name String.[] = ("", 0)
shell_name (String.◌∷◌ c s) =
    if code c == b'{'
    then braced (brace_name s)
    else if is_special c
    then (String.◌∷◌ c "", 1)
    else (word_prefix (String.◌∷◌ c s), text_length (word_prefix (String.◌∷◌ c s)))

-- A dollar with no name stays; a reference that is not well formed is left out.
abbrev pub replaced : (String → String) → String → ℕ → String
replaced f name w = if name == "" then (if w == 0 then "$" else "") else f name

abbrev pub is_empty_text : String → Bool
is_empty_text String.[] = true
is_empty_text (String.◌∷◌ c s) = false

-- `os.Expand`; the first number counts the characters to leave out, those of a reference.
unfoldable pub expand_from : (String → String) → ℕ → String → String
expand_from f k String.[] = ""
expand_from f (suc k) (String.◌∷◌ c s) = expand_from f k s
expand_from f zero (String.◌∷◌ c s) =
    let (name, w) = shell_name s in
    let after_reference = str_append (replaced f name w) (expand_from f w s) in
    let after_character = String.◌∷◌ c (expand_from f zero s) in
    if code c == b'$' && not (is_empty_text s) then after_reference else after_character

abbrev pub starts_brace : String → Bool
starts_brace String.[] = false
starts_brace (String.◌∷◌ c s) = code c == b'{'

-- `strings.Contains(s, "${")`
unfoldable pub has_reference : String → Bool
has_reference String.[] = false
has_reference (String.◌∷◌ c s) = code c == b'$' && starts_brace s || has_reference s

abbrev pub literal : String → String
literal key = String.◌∷◌ "$" (String.◌∷◌ "{" (str_append key "}"))

-- `show` is `fmt.Sprint`.
module _ {P : Type 0} (ps : Payloads P) (show : P → String) where
  -- The rest of a dotted path, from a value.
  unfoldable pub descend : List String → P → Option P
  descend [] cur = some cur
  descend (p ∷ parts) cur =
      if ps.is_object cur
      then elim (lookup p (ps.object cur)) [ none ↦ none | some v ↦ descend parts v ]
      else none

  -- `lookup`: the bag is a map, so the first part is looked up in it.
  unfoldable pub lookup_path : Dict String P → List String → Option P
  unfolding descend
  lookup_path bag [] = none
  lookup_path bag (p ∷ parts) = elim (lookup p bag) [ none ↦ none | some v ↦ descend parts v ]

  abbrev pub shown : String → Option P → String
  shown key none = literal key
  shown key (some v) = show v

  abbrev pub referred : Dict String P → Dict String P → String → Option (String × String) → String
  referred run previous key none = literal key
  referred run previous key (some (root, rest)) =
      if root == "run"
      then shown key (lookup_path run (split b'.' rest))
      else if root == "previous"
      then shown key (lookup_path previous (split b'.' rest))
      else literal key

  -- The text for one reference.
  unfoldable pub resolve : Dict String P → Dict String P → String → String
  unfolding lookup_path
  resolve run previous key = referred run previous key (cut b'.' key)

  unfoldable pub expand : Dict String P → Dict String P → String → String
  expand run previous s = if has_reference s then expand_from (resolve run previous) 0 s else s
