-- ===== src/Cli/Host.antt =====
-- expandHostEnv and isEnvName of cmd/edt/run.go: references to variables of the host inside the text
-- of a scenario. All that the scanner looks for is ASCII, so a text is a sequence of characters.
use Prim.Native.String.{◌++◌ as str_append}
use Prim.Native.String.append.{nil, cons}
use Prim.Native.Char.{Char, code}
use mathlib.Core.Bool.{true≢false}
use event_driven_tests_ai.Common.{
  ℕ, zero, suc, String, List, [], ◌∷◌, if◌then◌else◌, ◌==◌, ◌&&◌, ◌||◌, not, leb, nat_comparable,
  Bool, true, false, Option, none, some, ◌≡◌, refl, ap, ◌∙◌, arith,
}
use event_driven_tests_ai.Orchestrator.Interpolate.{
  text_length, is_digit, is_empty_text, starts_brace, brace_name, literal,
}
use event_driven_tests_ai.Orchestrator.Interpolate.Render.{
  Part, plain, reference, render, meaning, lacks, open_brace, brace_name-append,
}

abbrev starts_name : Char → Bool
starts_name c = code c == b'_' || leb b'A' (code c) && leb (code c) b'Z'

abbrev continues_name : String → Bool
continues_name String.[] = true
continues_name (String.◌∷◌ c s) = (starts_name c || is_digit c) && continues_name s

-- `isEnvName`
unfoldable pub is_env_name : String → Bool
is_env_name String.[] = false
is_env_name (String.◌∷◌ c s) = starts_name c && continues_name s

-- What stands between the brace at the start and the next one that closes.
abbrev host_name : String → Option String
host_name String.[] = none
host_name (String.◌∷◌ c s) = brace_name s

module _ (getenv : String → String) where
  -- The text for a reference: only a name that may be a variable's is replaced.
  abbrev pub host_value : String → String
  host_value name = if is_env_name name then getenv name else literal name

  -- A brace that is not closed ends the scan, with the rest as it is.
  abbrev host_text : Option String → String → String → String
  host_text none as_it_is rest = as_it_is
  host_text (some name) as_it_is rest = str_append (host_value name) rest

  abbrev host_width : Option String → ℕ
  host_width none = 0
  host_width (some name) = suc (suc (text_length name))

  -- The scan; the number counts the characters to leave out, those of a reference.
  unfoldable pub expand_host : ℕ → String → String
  expand_host k String.[] = ""
  expand_host (suc k) (String.◌∷◌ c s) = expand_host k s
  expand_host zero (String.◌∷◌ c s) =
      let after_reference = expand_host (host_width (host_name s)) s in
      let after_character = String.◌∷◌ c (expand_host zero s) in
      if code c == b'$' && starts_brace s
      then host_text (host_name s) (String.◌∷◌ c s) after_reference
      else after_character

  unfoldable pub expand_host_env : String → String
  expand_host_env s = expand_host zero s

-- What the name of a variable may be: not empty, made of capitals, digits and underscores, with no
-- digit at the start.
abbrev is_name_char : Char → Bool
is_name_char c =
    leb 65 (code c) && leb (code c) 90 || leb 48 (code c) && leb (code c) 57 || code c == 95

abbrev pub all_name_chars : String → Bool
all_name_chars String.[] = true
all_name_chars (String.◌∷◌ c s) = is_name_char c && all_name_chars s

abbrev starts_digit : String → Bool
starts_digit String.[] = false
starts_digit (String.◌∷◌ c s) = leb 48 (code c) && leb (code c) 57

abbrev pub is_variable : String → Bool
is_variable name = not (is_empty_text name) && not (starts_digit name) && all_name_chars name

-- The text for a reference to a host variable, or what stands there for any other.
abbrev pub host_meaning : (String → String) → String → String
host_meaning getenv name = if is_variable name then getenv name else literal name

continues_name-all : (s : String) → continues_name s ≡ all_name_chars s
continues_name-all String.[] = refl
continues_name-all (String.◌∷◌ c s) = ground (arith, continues_name-all s)

is_env_name-is_variable : (name : String) → is_env_name name ≡ is_variable name
unfolding is_env_name
is_env_name-is_variable String.[] = refl
is_env_name-is_variable (String.◌∷◌ c s) = ground (arith, continues_name-all s)

host_value-host_meaning :
    (getenv : String → String) (name : String) → host_value getenv name ≡ host_meaning getenv name
host_value-host_meaning getenv name = rw (is_env_name-is_variable name)

-- A text with no brace after a dollar, and with no dollar at its end.
abbrev pub is_inert : String → Bool
is_inert String.[] = true
is_inert (String.◌∷◌ c s) =
    (not (code c == b'$') || not (is_empty_text s) && not (starts_brace s)) && is_inert s

abbrev pub IsHostPart : Part → Type 0
IsHostPart (plain t) = is_inert t ≡ true
IsHostPart (reference name) = lacks b'}' name ≡ true

abbrev pub AreHostParts : List Part → Type 0
AreHostParts [] = Unit
AreHostParts (p ∷ ps) = IsHostPart p × AreHostParts ps

starts_brace-append :
    (s r : String)
    → (not (is_empty_text s) && not (starts_brace s)) ≡ true
    → starts_brace (str_append s r) ≡ false
starts_brace-append String.[] r h = elim (true≢false (ap not h)) [ ]
starts_brace-append (String.◌∷◌ c s) r h = rw (cons c s r) (ground arith)

module _ (getenv : String → String) where
  expand_host-plain :
      (t r : String)
      → is_inert t ≡ true
      → expand_host getenv 0 (str_append t r) ≡ str_append t (expand_host getenv 0 r)
  unfolding expand_host
  expand_host-plain String.[] r h = rw (nil r, nil (expand_host getenv 0 r))
  expand_host-plain (String.◌∷◌ c t) r h =
      let k : is_inert t ≡ true = ground arith in
      let e : (code c == b'$' && starts_brace (str_append t r)) ≡ false =
        ground (arith, starts_brace-append t r) in
      rw (cons c t r, cons c t (expand_host getenv 0 r), e)
        (ap (λ u. String.◌∷◌ c u) (expand_host-plain t r k))

  expand_host-skip :
      (n : String) (c : Char) (r : String)
      → expand_host getenv (suc (text_length n)) (str_append n (String.◌∷◌ c r))
        ≡ expand_host getenv 0 r
  unfolding expand_host
  expand_host-skip String.[] c r = rw (nil (String.◌∷◌ c r))
  expand_host-skip (String.◌∷◌ d n) c r = rw (cons d n (String.◌∷◌ c r)) (expand_host-skip n c r)

  expand_host-reference :
      (n r : String)
      → lacks b'}' n ≡ true
      → expand_host getenv 0 (str_append (literal n) r)
        ≡ str_append (host_value getenv n) (expand_host getenv 0 r)
  unfolding expand_host
  expand_host-reference n r k =
      rw (open_brace n r, brace_name-append n r k)
        (ap (str_append (host_value getenv n)) (expand_host-skip n "}" r))

  -- A text is expanded part by part: text with no brace after a dollar and no dollar at its end, a
  -- bare `$NAME` included, stays as it is; `${name}` is replaced by the variable of the host when the
  -- name is not empty, is made of capitals, digits and underscores and does not start with a digit,
  -- and else stays. No name has a brace that closes.
  pub expand_host_env-render :
      (ps : List Part)
      → AreHostParts ps
      → expand_host_env getenv (render ps) ≡ meaning (host_meaning getenv) ps
  unfolding expand_host_env
  expand_host_env-render [] h = unfold expand_host in refl
  expand_host_env-render (plain t ∷ ps) h =
      expand_host-plain t (render ps) h.0 ∙ ap (str_append t) (expand_host_env-render ps h.1)
  expand_host_env-render (reference n ∷ ps) h =
      expand_host-reference n (render ps) h.0
      ∙ ap (λ v. str_append v (expand_host getenv 0 (render ps))) (host_value-host_meaning getenv n)
      ∙ ap (str_append (host_meaning getenv n)) (expand_host_env-render ps h.1)
