-- ===== src/Orchestrator/Runner.antt =====
-- What the steps of pkg/orchestrator/run.go share: the runner's parts, the libraries that it calls,
-- and payloads on their way to the wire and back.
use Prim.Native.Char.{Char, code}
use event_driven_tests_ai.Common.{
  ℕ, ◌/◌, String, List, [], ◌∷◌, if◌then◌else◌, ◌==◌, ◌&&◌, ◌||◌, not, string_comparable,
  nat_comparable, Bool, false, Option, none, some, length, take, any,
}
use event_driven_tests_ai.Common.Dict.{Dict}
use event_driven_tests_ai.Common.Text.{trim_space, strip_prefix}
use event_driven_tests_ai.Json.{Numbers, Json, text, fields, is_object}
use event_driven_tests_ai.Orchestrator.{State, other_error, StepResult, failed, Payloads}
use event_driven_tests_ai.Orchestrator.Matcher.{Cel}
use event_driven_tests_ai.Orchestrator.Interpolate.{expand}

-- `show` is `fmt.Sprint`, `marshal` and `unmarshal` are those of encoding/json, `bytes` and `text_of`
-- convert between texts and bytes, `draw` is the n-th number of the random generator that is seeded
-- by a step's name, and `parse_duration` is `time.ParseDuration`, with 0 for a negative duration.
pub record Library (F : Type 0) : Type 0 where
  pub numbers : Numbers F
  pub show : Json F → String
  pub marshal : Json F → List ℕ
  pub unmarshal : List ℕ → Option (Json F)
  pub bytes : String → List ℕ
  pub text_of : List ℕ → String
  pub parse_duration : String → Option ℕ
  pub draw : String → ℕ → F
  pub compile_regex : String → Option (String → Bool)
  pub cel : Cel (Json F)

-- A `Runner`, but for its state: which clients and connectors are there, the names of the data
-- generators, and the fields of the run.
pub record Setup (F : Type 0) : Type 0 where
  pub has_kafka : Bool
  pub has_http : Bool
  pub has_web_socket : Bool
  pub has_sse : Bool
  pub has_grpc : Bool
  pub has_codec : Bool
  pub http_connector : Bool
  pub web_socket_connector : Bool
  pub grpc_connector : Bool
  pub generators : List String
  pub run : Dict String (Json F)

-- What a call gives: a value, or the text of an error.
pub data Answer (A : Type 0) : Type 0 where
  answered : A → Answer A
  refused : String → Answer A

abbrev pub payloads : {F : Type 0} → Payloads (Json F)
payloads = record { object = fields; is_object = is_object; of_text = text }

abbrev pub or_fail : {A B : Type 0} → Answer A → (A → StepResult × B) → B → StepResult × B
or_fail (answered a) go_on s = go_on a
or_fail (refused e) go_on s = (failed (other_error e), s)

abbrev longer : Char → Option String → Option String
longer c none = none
longer c (some s) = some (String.◌∷◌ c s)

-- A text without the brace at its end, if it has one.
unfoldable pub strip_brace : String → Option String
strip_brace String.[] = none
strip_brace (String.◌∷◌ c s) =
    let rest = longer c (strip_brace s) in
    if s == "" then (if code c == b'}' then some "" else none) else rest

abbrev pub data_alias_of : Option String → Option String
unfolding strip_brace
data_alias_of none = none
data_alias_of (some rest) = strip_brace rest

-- The alias in "${data.<alias>}"
unfoldable pub data_alias : String → Option String
unfolding data_alias_of
data_alias spec = data_alias_of (strip_prefix "${data." spec)

abbrev starts_json : String → Bool
starts_json String.[] = false
starts_json (String.◌∷◌ c s) = code c == b'{' || code c == b'['

unfoldable pub looks_like_json : String → Bool
looks_like_json s = starts_json (trim_space s)

-- `corruptValue`: the first half, and a byte where there is none.
unfoldable pub corrupt_value : List ℕ → List ℕ
corrupt_value [] = 255 ∷ []
corrupt_value (b ∷ v) = take (length (b ∷ v) / 2) (b ∷ v)

module _ {F : Type 0} (lib : Library F) (setup : Setup F) where
  -- `r.interp.expand`
  unfoldable pub expand_in : State (Json F) → String → String
  expand_in s t = expand payloads lib.show setup.run s.previous t

  abbrev parsed_or_text : String → Option (Json F) → Json F
  parsed_or_text spec none = text spec
  parsed_or_text spec (some v) = v

  abbrev resolved : Option String → String → Answer (Json F) → Answer (Json F)
  resolved (some name) spec generated =
      if any (λ g. g == name) setup.generators then generated else refused "unknown data alias"
  resolved none spec generated = answered (
      if looks_like_json spec
      then parsed_or_text spec (lib.unmarshal (lib.bytes spec))
      else text spec)

  -- `resolvePayload`, where `generated` is what the generator would give now.
  unfoldable pub resolve_payload : String → Answer (Json F) → Answer (Json F)
  resolve_payload spec generated = resolved (data_alias spec) spec generated

  -- A text travels as it is, all else as JSON.
  unfoldable pub encode_wire_value : Json F → List ℕ
  encode_wire_value (text t) = lib.bytes t
  encode_wire_value v = lib.marshal v

  -- `codec` is what the codec would give.
  unfoldable pub encode_for_wire :
      (String → Json F → Answer (List ℕ)) → String → Json F → Answer (List ℕ)
  unfolding encode_wire_value
  encode_for_wire codec subject payload =
      if not (subject == "") && setup.has_codec
      then codec subject payload
      else answered (encode_wire_value payload)

  abbrev json_or_text : List ℕ → Option (Json F) → Json F
  json_or_text v none = text (lib.text_of v)
  json_or_text v (some p) = p

  unfoldable pub decode_consumed_value : List ℕ → Json F
  decode_consumed_value v = json_or_text v (lib.unmarshal v)

  abbrev pub starts_zero : List ℕ → Bool
  starts_zero [] = false
  starts_zero (b ∷ v) = b == 0

  abbrev pub decoded_or : Answer (Json F) → Json F → Json F
  decoded_or (answered p) other = p
  decoded_or (refused e) other = other

  -- `decodeForWire`: a record that begins with a zero goes to the codec first.
  unfoldable pub decode_for_wire : (List ℕ → Answer (Json F)) → List ℕ → Json F
  unfolding decode_consumed_value
  decode_for_wire codec v =
      if setup.has_codec && starts_zero v
      then decoded_or (codec v) (decode_consumed_value v)
      else decode_consumed_value v
