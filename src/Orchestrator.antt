-- ===== src/Orchestrator.antt =====
-- pkg/orchestrator: running the steps of a scenario against connectors. A connector is what it
-- delivers during the step, in order; a payload is of a type `P`, and the CEL engine is a parameter.
pub mod Interpolate
pub mod Matcher
pub mod Runner
pub mod Receive
pub mod Consume
pub mod Produce
pub mod Expectation
pub mod Calls
pub mod Run
pub mod Payload
pub mod Growth
pub mod Answering
pub mod Delivery
pub mod Previous
pub mod Passing
pub mod Watch
mod Examples
pub mod Trials
pub mod Runs
use event_driven_tests_ai.Common.{ℕ, List, String, Bool, [], ◌∷◌, if◌then◌else◌, string_comparable}
use event_driven_tests_ai.Common.Dict.{Dict, insert}
use event_driven_tests_ai.Events.{MemStore}

-- A record that is handed to the Kafka client; its value is bytes.
pub record WireRecord : Type 0 where
  pub topic : String
  pub key : String
  pub value : List ℕ

-- What a step changes: the events, the fields of the previous step, and the records that were
-- handed to the Kafka client, in their order.
pub record State (P : Type 0) : Type 0 where
  pub store : MemStore P
  pub previous : Dict String P
  pub sent : List WireRecord

-- Why a step failed.
pub data StepError : Type 0 where
  cancelled : StepError
  timed_out : StepError
  other_error : String → StepError

pub data StepResult : Type 0 where
  passed : StepResult
  failed : StepError → StepResult

-- A payload that is a JSON object has fields; a text is a payload too.
pub record Payloads (P : Type 0) : Type 0 where
  pub object : P → Dict String P
  pub is_object : P → Bool
  pub of_text : String → P

abbrev pub put_all : {P : Type 0} → Dict String P → Dict String P → Dict String P
put_all [] out = out
put_all ((k, v) ∷ d) out = put_all d (insert k v out)

unfoldable pub previous_from_payload : {P : Type 0} → Payloads P → String → P → Dict String P
previous_from_payload ps key payload =
    let out = ("key", ps.of_text key) ∷ [] in
    if ps.is_object payload then put_all (ps.object payload) out else insert "payload" payload out

-- `recordPrevious` replaces all fields of the step before.
unfoldable pub record_previous : {P : Type 0} → Dict String P → State P → State P
record_previous p s = record s { previous = put_all p [] }
