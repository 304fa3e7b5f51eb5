-- ===== src/Api/Scenarios.antt =====
-- pkg/controlplane/api/scenarios.go: uploading and reading scenarios. The body of an upload is read
-- as the code reads it; `scenario.Parse`, `scenario.ValidateYAML` and `json` are parameters.
use Prim.Native.String.{◌++◌ as str_append}
use Prim.Native.Char.{code}
use event_driven_tests_ai.Common.{
  ℕ, ◌-◌, String, List, [], map, if◌then◌else◌, ◌==◌, string_comparable, nat_comparable, Bool,
  false, Option, none, some,
}
use event_driven_tests_ai.Events.{Time}
use event_driven_tests_ai.Storage.{Labels, Result, ok, err, Scenario, CheckSample}
use event_driven_tests_ai.Storage.Interface.{Storage}
use event_driven_tests_ai.Api.{
  Reply, reply, failure, storage_failure, internal_failure, Decoded, decoded, malformed, status_ok,
  status_created, status_bad_request,
}

-- The parsers that the handlers call: a document of type `D`, or the text of the error.
pub record Parsers (D : Type 0) : Type 0 where
  pub parse : String → Decoded D
  pub validate_yaml : String → Option String
  pub metadata_name : D → String
  pub metadata_labels : D → Labels
  -- `json.Unmarshal` into `scenarioRequest`: its `yaml` field
  pub unmarshal_yaml : String → Decoded String

pub record ScenarioResponse (D : Type 0) : Type 0 where
  pub name : String
  pub version : ℕ
  pub yaml : String
  pub parsed : Option D
  pub labels : Labels
  pub created_at : Time
  pub updated_at : Time

-- A dry run answers with the name only.
pub data CreateResponse (D : Type 0) : Type 0 where
  dry_run : String → CreateResponse D
  saved : ScenarioResponse D → CreateResponse D

abbrev begins_with_brace : String → Bool
begins_with_brace String.[] = false
begins_with_brace (String.◌∷◌ c s) = code c == b'{'

module _ {D : Type 0} (p : Parsers D) where
  abbrev unwrapped : String → Decoded String → String
  unwrapped body (malformed e) = body
  unwrapped body (decoded yaml) = if yaml == "" then body else yaml

  unfoldable pub read_scenario_payload : String → Decoded String
  read_scenario_payload body =
      if body == ""
      then malformed "empty request body"
      else if begins_with_brace body
      then decoded (unwrapped body (p.unmarshal_yaml body))
      else decoded body

  abbrev parsed_of : Decoded D → Option D
  parsed_of (malformed e) = none
  parsed_of (decoded d) = some d

  abbrev pub to_scenario_response : Scenario → ScenarioResponse D
  to_scenario_response sc = record {
    name = sc.name;
    version = sc.version;
    yaml = sc.yaml;
    parsed = parsed_of (p.parse sc.yaml);
    labels = sc.labels;
    created_at = sc.created_at;
    updated_at = sc.updated_at;
  }

  -- A document that parses and validates, or the text of the refusal.
  abbrev pub accepted : String → Decoded D → Option String → Decoded (String × D)
  accepted yaml (malformed e) v = malformed (str_append "invalid scenario: " e)
  accepted yaml (decoded d) (some e) = malformed (str_append "schema validation: " e)
  accepted yaml (decoded d) none = decoded (yaml, d)

  abbrev pub read_document : Decoded String → Decoded (String × D)
  read_document (malformed e) = malformed e
  read_document (decoded yaml) = accepted yaml (p.parse yaml) (p.validate_yaml yaml)

  module _ {F S : Type 0} (storage : Storage F S) where
    abbrev create_reply : Result Scenario × S → Reply (CreateResponse D) × S
    create_reply (err e, s) = (internal_failure e, s)
    create_reply (ok sc, s) = (reply status_created (saved (to_scenario_response sc)), s)

    abbrev pub create_from : Bool → Decoded (String × D) → S → Reply (CreateResponse D) × S
    create_from dry (malformed e) s = (failure status_bad_request e, s)
    create_from dry (decoded (yaml, d)) s =
        if p.metadata_name d == ""
        then (failure status_bad_request "metadata.name is required", s)
        else if dry
        then (reply status_ok (dry_run (p.metadata_name d)), s)
        else create_reply (storage.upsert_scenario (p.metadata_name d) yaml (p.metadata_labels d) s)

    -- `dry` is whether the query has `dry_run=1`.
    unfoldable pub create_scenario : Bool → String → S → Reply (CreateResponse D) × S
    unfolding read_scenario_payload
    create_scenario dry body s = create_from dry (read_document (read_scenario_payload body)) s

    abbrev update_reply : Result Scenario × S → Reply (ScenarioResponse D) × S
    update_reply (err e, s) = (internal_failure e, s)
    update_reply (ok sc, s) = (reply status_ok (to_scenario_response sc), s)

    abbrev pub update_from : String → Decoded (String × D) → S → Reply (ScenarioResponse D) × S
    update_from name (malformed e) s = (failure status_bad_request e, s)
    update_from name (decoded (yaml, d)) s = update_reply (storage.upsert_scenario name yaml [] s)

    unfoldable pub update_scenario : String → String → S → Reply (ScenarioResponse D) × S
    unfolding read_scenario_payload
    update_scenario name body s = update_from name (read_document (read_scenario_payload body)) s

    abbrev get_reply : Result Scenario → Reply (ScenarioResponse D)
    get_reply (err e) = storage_failure e
    get_reply (ok sc) = reply status_ok (to_scenario_response sc)

    unfoldable pub get_scenario : String → S → Reply (ScenarioResponse D)
    get_scenario name s = get_reply (storage.get_scenario name s)

    abbrev list_reply : Result (List Scenario) → Reply (List (ScenarioResponse D))
    list_reply (err e) = internal_failure e
    list_reply (ok scs) = reply status_ok (map to_scenario_response scs)

    unfoldable pub list_scenarios : S → Reply (List (ScenarioResponse D))
    list_scenarios s = list_reply (storage.list_scenarios s)

-- An hour, in nanoseconds.
abbrev pub hour : ℕ
hour = 3600000000000

abbrev window_of : Decoded ℕ → ℕ
window_of (malformed e) = hour
window_of (decoded d) = if d == 0 then hour else d

abbrev since_of : Decoded Time → ℕ → Time → Time
since_of (malformed e) window now = now - window
since_of (decoded t) window now = t

-- `computeSince`: `parse_time` and `parse_duration` are those of `time`, on the query's `since` and
-- `window`. A window that is no duration, or not a positive one, counts as an hour, so a negative one
-- may be decoded to zero.
unfoldable pub compute_since :
    (String → Decoded Time) → (String → Decoded ℕ) → String → String → Time → Time
compute_since parse_time parse_duration since window now =
    let w = if window == "" then hour else window_of (parse_duration window) in
    if since == "" then now - w else since_of (parse_time since) w now

pub record ScenarioState : Type 0 where
  pub scenario : String
  pub since : Time
  pub samples : List CheckSample

abbrev state_reply : String → Time → Result (List CheckSample) → Reply ScenarioState
state_reply name since (err e) = internal_failure e
state_reply name since (ok xs) =
    reply status_ok (record { scenario = name; since = since; samples = xs })

unfoldable pub scenario_state :
    {F S : Type 0} → Storage F S → String → Time → S → Reply ScenarioState
scenario_state storage name since s =
    state_reply name since (storage.load_check_samples_since name since s)
