-- ===== src/Orchestrator/Expectation.antt =====
-- CheckExpectation of pkg/httpc/client.go: whether an HTTP answer is what a step expects. Where it is
-- not, the code says why; here only that counts.
use event_driven_tests_ai.Common.{
  String, List, [], ◌∷◌, if◌then◌else◌, ◌==◌, ◌&&◌, ◌||◌, string_comparable, nat_comparable, Bool,
  true, false, Option, none, some, ℕ, nat_beq,
}
use event_driven_tests_ai.Common.Dict.{Dict, lookup_or}
use event_driven_tests_ai.Common.Int.{ℤ, pos, negsuc}
use event_driven_tests_ai.Json.{
  Json, Items, Fields, text, arr, obj, nil, item, end, field, get, to_float,
}
use event_driven_tests_ai.Spec.{HttpExpect}
use event_driven_tests_ai.Orchestrator.Runner.{Library}

pub record Response (F : Type 0) : Type 0 where
  pub status : ℤ
  pub headers : Dict String String
  pub body : Json F
  pub latency_ms : ℕ

abbrev pub equal_int : ℤ → ℤ → Bool
equal_int (pos m) (pos n) = nat_beq m n
equal_int (negsuc m) (negsuc n) = nat_beq m n
equal_int _ _ = false

abbrev is_zero_int : ℤ → Bool
is_zero_int (pos n) = nat_beq n 0
is_zero_int (negsuc n) = false

abbrev equal_bytes : List ℕ → List ℕ → Bool
equal_bytes [] [] = true
equal_bytes (x ∷ xs) (y ∷ ys) = nat_beq x y && equal_bytes xs ys
equal_bytes _ _ = false

unfoldable pub is_matcher_op : String → Bool
is_matcher_op op =
    op == "in" || op == "regex" || op == "gt" || op == "lt" || op == "gte" || op == "lte"

module _ {F : Type 0} (lib : Library F) where
  -- `equalAny` of httpc: both values are written as JSON.
  unfoldable pub equal_json : Json F → Json F → Bool
  equal_json a b = equal_bytes (lib.marshal a) (lib.marshal b)

  abbrev any_item : Json F → Items F → Bool
  unfolding equal_json
  any_item got nil = false
  any_item got (item v vs) = equal_json got v || any_item got vs

  abbrev in_list : Json F → Json F → Bool
  unfolding any_item
  in_list got (arr vs) = any_item got vs
  in_list got _ = false

  abbrev regex_matches : Json F → Option (String → Bool) → Bool
  regex_matches got none = false
  regex_matches got (some re) = re (lib.show got)

  abbrev fits_regex : Json F → Json F → Bool
  fits_regex got (text pattern) = regex_matches got (lib.compile_regex pattern)
  fits_regex got _ = false

  abbrev ordered : String → F → F → Bool
  ordered op g a =
      if op == "gt"
      then lib.numbers.less a g
      else if op == "gte"
      then lib.numbers.less a g || lib.numbers.equal g a
      else if op == "lt"
      then lib.numbers.less g a
      else lib.numbers.less g a || lib.numbers.equal g a

  abbrev compared : String → Option F → Option F → Bool
  compared op (some g) (some a) = ordered op g a
  compared op _ _ = false

  unfoldable pub apply_matcher : String → Json F → Json F → Bool
  unfolding in_list
  apply_matcher op arg got =
      if op == "in"
      then in_list got arg
      else if op == "regex"
      then fits_regex got arg
      else compared op (to_float lib.numbers got) (to_float lib.numbers arg)

  -- An object of one field is a matcher if its key is an operator, and a literal if it is `$literal`.
  unfoldable pub match_value : Json F → Json F → Bool
  unfolding equal_json apply_matcher is_matcher_op
  match_value got (obj (field k v end)) =
      if k == "$literal"
      then equal_json got v
      else if is_matcher_op k
      then apply_matcher k v got
      else equal_json got (obj (field k v end))
  match_value got want = equal_json got want

  -- A field that the body lacks reads as null.
  abbrev match_fields : Fields F → Dict String (Json F) → Bool
  unfolding match_value
  match_fields got [] = true
  match_fields got ((k, want) ∷ d) = match_value (get k got) want && match_fields got d

  abbrev match_body : Json F → Dict String (Json F) → Bool
  unfolding match_fields
  match_body got [] = true
  match_body (obj got) ((k, want) ∷ d) = match_fields got ((k, want) ∷ d)
  match_body got ((k, want) ∷ d) = false

  abbrev match_headers : Dict String String → Dict String String → Bool
  match_headers got [] = true
  match_headers got ((k, want) ∷ d) = lookup_or k got "" == want && match_headers got d

  unfoldable pub fulfilled : Option (HttpExpect (Json F)) → Response F → Bool
  unfolding match_body
  fulfilled none r = true
  fulfilled (some e) r =
      (is_zero_int e.status || equal_int r.status e.status)
      && match_headers r.headers e.headers
      && match_body r.body e.body
