-- ===== src/Common/Text.antt =====
-- What the program uses of Go's `strings` on native texts.
use Prim.Native.String.{String, ◌++◌ as str_append}
use Prim.Native.Char.{Char, code}
use event_driven_tests_ai.Common.Tests.{◌==◌, nat_comparable, string_comparable, leb, if◌then◌else◌}
use Prim.Native.String.append.{nil, cons}
use mathlib.Core.Path.{◌≡◌, ap, ◌∙◌}
use mathlib.Core.Bool.{false, Bool, ◌&&◌, ◌||◌}
use mathlib.Core.Option.{Option, none, some}
use mathlib.Core.List.{List, [], ◌∷◌}
use Prim.Native.Nat.{ℕ}
use text.Mathlib.Text.{is_eq}
use Prim.Native.String.compare.{cons-nil}
use native.Mathlib.Omega.{arith}

-- `unicode.IsSpace`
abbrev pub is_space : Char → Bool
is_space c =
    let n = code c in
    leb 9 n && leb n 13
    || n == 32
    || n == 133
    || n == 160
    || n == 5760
    || leb 8192 n && leb n 8202
    || n == 8232
    || n == 8233
    || n == 8239
    || n == 8287
    || n == 12288

pub trim_left : String → String
trim_left String.[] = String.[]
trim_left (String.◌∷◌ c s) = if is_space c then trim_left s else (String.◌∷◌ c s)

pub trim_right : String → String
trim_right String.[] = String.[]
trim_right (String.◌∷◌ c s) =
    let rest = trim_right s in if rest == "" && is_space c then String.[] else (String.◌∷◌ c rest)

-- `strings.TrimSpace`
unfoldable pub trim_space : String → String
unfolding trim_left trim_right
trim_space s = trim_left (trim_right s)

-- `s[len(prefix):]` where `strings.HasPrefix(s, prefix)`
unfoldable pub strip_prefix : String → String → Option String
strip_prefix String.[] s = some s
strip_prefix (String.◌∷◌ c p) String.[] = none
strip_prefix (String.◌∷◌ c p) (String.◌∷◌ d s) =
    let rest = strip_prefix p s in if code c == code d then rest else none

pub strip_prefix-append : (p s : String) → strip_prefix p (str_append p s) ≡ some s
unfolding strip_prefix
strip_prefix-append String.[] s = ap (λ t. strip_prefix String.[] t) (nil s)
strip_prefix-append (String.◌∷◌ c p) s =
    ap (λ t. strip_prefix (String.◌∷◌ c p) t) (cons c p s) ∙ ground (arith, strip_prefix-append p s)

-- A text with a character is not empty.
pub cons_not_empty : (c : Char) (s : String) → ((String.◌∷◌ c s) == "") ≡ false
cons_not_empty c s = ap is_eq (cons-nil c s)

abbrev pub cut_before : Char → Option (String × String) → Option (String × String)
cut_before c none = none
cut_before c (some (before, after)) = some (String.◌∷◌ c before, after)

-- `strings.Cut` at a separator of one character.
unfoldable pub cut : ℕ → String → Option (String × String)
cut sep String.[] = none
cut sep (String.◌∷◌ c s) = if code c == sep then some (String.[], s) else cut_before c (cut sep s)

abbrev pub first_longer : Char → List String → List String
first_longer c [] = (String.◌∷◌ c String.[]) ∷ []
first_longer c (x ∷ xs) = (String.◌∷◌ c x) ∷ xs

-- `strings.Split` at a separator of one character.
unfoldable pub split : ℕ → String → List String
split sep String.[] = String.[] ∷ []
split sep (String.◌∷◌ c s) =
    if code c == sep then String.[] ∷ split sep s else first_longer c (split sep s)
