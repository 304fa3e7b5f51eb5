-- ===== src/Checks/Operators.antt =====
-- The operators of pkg/checks/operators.go that read streams and reduce lists, on the values that CEL
-- hands over. The other two, globMatch and latency, are in Glob and Latency.
use event_driven_tests_ai.Common.{
  ℕ, suc, String, List, [], ◌∷◌, ◌++◌, if◌then◌else◌, ltb, Bool, true, false, Option, none, some,
  length, map, ascii,
}
use event_driven_tests_ai.Common.Int.{ℤ, pos, non_positive, pos_part}
use event_driven_tests_ai.Common.Text.{strip_prefix}
use event_driven_tests_ai.Common.Dict.{Dict}
use event_driven_tests_ai.Events.{
  Event, Store, Time, Direction, produced, produced_failed, consumed, http_call, agent_out,
}
use event_driven_tests_ai.Eval.{Floats}
use event_driven_tests_ai.Eval.Aggregate.{percentile}
use event_driven_tests_ai.Checks.Glob.{glob_match}
pub mod Streams
mod Examples

-- What `eventToMap` shows of an event.
pub record EventView (P : Type 0) : Type 0 where
  pub stream : String
  pub key : String
  pub ts : Time
  pub headers : Dict String String
  pub payload : P
  pub direction : String

abbrev pub direction_text : Direction → String
direction_text produced = "produced"
direction_text produced_failed = "produced_failed"
direction_text consumed = "consumed"
direction_text http_call = "http"
direction_text agent_out = "agent_out"

abbrev pub event_to_map : {P : Type 0} → Event P → EventView P
event_to_map e = record {
  stream = e.stream;
  key = e.key;
  ts = e.ts;
  headers = e.headers;
  payload = e.payload;
  direction = direction_text e.direction;
}

abbrev pub matches_path : String → Option String → Bool
matches_path pattern none = false
matches_path pattern (some path) = glob_match (ascii pattern) (ascii path)

-- Whether a stream is one of HTTP calls whose path fits the pattern.
unfoldable pub is_http_stream : String → String → Bool
is_http_stream pattern name = matches_path pattern (strip_prefix "http:" name)

module _ {P : Type 0} where
  unfoldable pub stream_events : Store P → String → List (EventView P)
  stream_events store name = map event_to_map (store.query name)

  -- The events of the streams that fit, one stream after another.
  unfoldable pub events_of :
      (String → List (Event P)) → (String → Bool) → List String → List (Event P)
  events_of query fits [] = []
  events_of query fits (name ∷ names) =
      let rest = events_of query fits names in if fits name then query name ++ rest else rest

  unfoldable pub http_events : Store P → String → List (EventView P)
  unfolding events_of
  http_events store pattern =
      map event_to_map (events_of store.query (is_http_stream pattern) store.streams)

-- A value of a CEL list, as Go has it.
pub data Item (F : Type 0) : Type 0 where
  number : F → Item F
  integer : ℤ → Item F
  span : ℤ → Item F
  truth : Bool → Item F
  other_item : Item F

-- The converted list, or the index of the first item that is of no use.
pub data Converted (A : Type 0) : Type 0 where
  all_good : List A → Converted A
  bad_element : ℕ → Converted A

-- What an operator gives: a value, or an error of CEL.
pub data Given (A : Type 0) : Type 0 where
  given : A → Given A
  cel_error : Given A

abbrev one_more : {A : Type 0} → Option A → ℕ → Converted A → Converted A
one_more none i rest = bad_element i
one_more (some x) i (all_good xs) = all_good (x ∷ xs)
one_more (some x) i (bad_element j) = bad_element j

unfoldable pub convert : {A B : Type 0} → (A → Option B) → ℕ → List A → Converted B
convert f i [] = all_good []
convert f i (x ∷ xs) = one_more (f x) i (convert f (suc i) xs)

abbrev pub to_duration : {F : Type 0} → Item F → Option ℤ
to_duration (span d) = some d
to_duration (integer n) = some n
to_duration _ = none

abbrev pub to_bool : {F : Type 0} → Item F → Option Bool
to_bool (truth b) = some b
to_bool _ = none

abbrev pub clamp : ℤ → ℕ
clamp p = if non_positive p then 0 else if ltb 100 (pos_part p) then 100 else pos_part p

abbrev pub count_true : List Bool → ℕ
count_true [] = 0
count_true (b ∷ bs) = if b then suc (count_true bs) else count_true bs

-- `of_integer` and `truncate` are the conversions between int64 and float64.
module _ {F : Type 0} (fl : Floats F) (of_integer : ℤ → F) (truncate : F → ℤ) where
  abbrev pub to_float : Item F → Option F
  to_float (number x) = some x
  to_float (integer n) = some (of_integer n)
  to_float _ = none

  abbrev percentile_given : Converted F → ℤ → Given F
  percentile_given (bad_element i) p = cel_error
  percentile_given (all_good []) p = cel_error
  percentile_given (all_good (x ∷ xs)) p = given (percentile fl (x ∷ xs) (clamp p))

  unfoldable pub percentile_double : List (Item F) → ℤ → Given F
  unfolding convert
  percentile_double items p = percentile_given (convert to_float 0 items) p

  abbrev durations_given : Converted ℤ → ℤ → Given ℤ
  durations_given (bad_element i) p = cel_error
  durations_given (all_good []) p = cel_error
  durations_given (all_good (d ∷ ds)) p =
      given (truncate (percentile fl (map of_integer (d ∷ ds)) (clamp p)))

  unfoldable pub percentile_duration : List (Item F) → ℤ → Given ℤ
  unfolding convert
  percentile_duration items p = durations_given (convert to_duration 0 items) p

  abbrev rate_given : Converted Bool → Given F
  rate_given (bad_element i) = cel_error
  rate_given (all_good []) = given (of_integer (pos 0))
  rate_given (all_good (b ∷ bs)) =
      given (fl.div (fl.of_int (count_true (b ∷ bs))) (fl.of_int (length (b ∷ bs))))

  unfoldable pub rate : List (Item F) → Given F
  unfolding convert
  rate items = rate_given (convert to_bool 0 items)

-- `before`
unfoldable pub before : Time → Time → Bool
before a b = ltb a b
