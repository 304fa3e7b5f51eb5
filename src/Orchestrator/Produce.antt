-- ===== src/Orchestrator/Produce.antt =====
-- runProduce of pkg/orchestrator/run.go, with the rate and the injected failures.
use event_driven_tests_ai.Common.{
  ◌++◌, ℕ, zero, suc, ◌/◌, String, List, [], ◌∷◌, if◌then◌else◌, ◌==◌, ◌&&◌, ◌||◌, not, ltb,
  string_comparable, nat_comparable, Bool, Option, none, some, length, nat_beq,
}
use event_driven_tests_ai.Common.Dict.{lookup}
use event_driven_tests_ai.Common.Int.{ℤ, pos, negsuc, non_positive, pos_part}
use event_driven_tests_ai.Common.Text.{cut, trim_space}
use event_driven_tests_ai.Common.Numerals.{atoi}
use event_driven_tests_ai.Json.{Json, int, text, object, fields}
use event_driven_tests_ai.Events.{Event, Time, produced, produced_failed, append}
use event_driven_tests_ai.Spec.{ProduceStep}
use event_driven_tests_ai.Orchestrator.{
  WireRecord, State, cancelled, other_error, StepResult, passed, failed, previous_from_payload,
  record_previous,
}
use event_driven_tests_ai.Orchestrator.Runner.{
  Library, Setup, Answer, or_fail, payloads, expand_in, resolve_payload, encode_for_wire,
  corrupt_value,
}

-- What one round of the loop meets: a cancellation, what the generator and the codec would give,
-- whether the broker takes a record, and the time. The client's `Produce` returns the key it was
-- given, also with an error.
pub record Attempt (F : Type 0) : Type 0 where
  pub cancelled_before : Bool
  pub generated : Answer (Json F)
  pub codec : String → Json F → Answer (List ℕ)
  pub broker_fails : Bool
  pub at : Time
  pub cancelled_pausing : Bool

abbrev per_unit : ℕ → String → Option ℕ
per_unit n unit =
    if unit == "s" then some (1000000000 / n) else if unit == "ms" then some (1000000 / n) else none

abbrev rate_of : Option ℤ → String → Option ℕ
rate_of none unit = none
rate_of (some (negsuc n)) unit = none
rate_of (some (pos n)) unit = if nat_beq n 0 then none else per_unit n unit

abbrev rate_parts : Option (String × String) → Option ℕ
rate_parts none = none
rate_parts (some (n, unit)) = rate_of (atoi (trim_space n)) (trim_space unit)

-- `parseRate`: the pause between two records in nanoseconds.
unfoldable pub parse_rate : String → Option ℕ
parse_rate s = if s == "" then some 0 else rate_parts (cut b'/' s)

unfoldable pub valid_produce_fail_mode : String → Bool
valid_produce_fail_mode mode =
    mode == "" || mode == "timeout" || mode == "broker_not_available" || mode == "schema_violation"

abbrev pub non_empty_or : String → String → String
non_empty_or s fallback = if s == "" then fallback else s

-- A count that is not positive stands for 1.
abbrev pub effective_count : ℤ → ℕ
effective_count c = if non_positive c then 1 else pos_part c

module _ {F : Type 0} (lib : Library F) (setup : Setup F) where
  abbrev shown_or_empty : Option (Json F) → String
  shown_or_empty none = ""
  shown_or_empty (some v) = lib.show v

  -- A record with no key takes the order id of its payload.
  abbrev pub key_of : String → Json F → String
  key_of key payload = if key == "" then shown_or_empty (lookup "orderId" (fields payload)) else key

  abbrev pub rate_hits : ProduceStep F → F → Bool
  rate_hits p x =
      lib.numbers.less (lib.numbers.of_int (pos 0)) p.fail_rate && lib.numbers.less x p.fail_rate

  abbrev pub original : String → Json F → List ℕ → Json F
  original mode payload value =
      if mode == "schema_violation"
      then object (("corrupted_bytes_len", int (pos (length (corrupt_value value)))) ∷ [])
      else payload

  abbrev pub injected_event : ProduceStep F → String → Json F → List ℕ → Time → Event (Json F)
  injected_event p key payload value at =
      let mode = non_empty_or p.fail_mode "timeout" in
      record {
        stream = p.topic;
        key = key;
        ts = at;
        headers = [];
        payload =
            object
              (("injected_failure", text mode) ∷ ("original", original mode payload value) ∷ []);
        direction = produced_failed;
      }

  abbrev pub sent_event : ProduceStep F → String → Json F → Bool → Time → Event (Json F)
  sent_event p key payload fails at = record {
    stream = p.topic;
    key = key;
    ts = at;
    headers = [];
    payload = payload;
    direction = if fails then produced_failed else produced;
  }

  -- What an injected failure hands to the client: a damaged value, or nothing.
  abbrev pub injected_records : ProduceStep F → String → List ℕ → List WireRecord
  injected_records p key value =
      if non_empty_or p.fail_mode "timeout" == "schema_violation"
      then record { topic = p.topic; key = key; value = corrupt_value value } ∷ []
      else []

  -- One record: an injected failure is remembered as an event only; otherwise the record is sent,
  -- and remembered for the next step whether the broker took it or not.
  abbrev pub deliver :
      ProduceStep F → F → Attempt F → String → Json F → List ℕ → State (Json F) → State (Json F)
  unfolding record_previous previous_from_payload
  deliver p x a key payload value s =
      if rate_hits p x
      then record s {
        store = append (injected_event p key payload value a.at) s.store;
        sent = s.sent ++ injected_records p key value;
      }
      else record_previous (previous_from_payload payloads key payload) (record s {
        store = append (sent_event p key payload a.broker_fails a.at) s.store;
        sent = s.sent ++ record { topic = p.topic; key = key; value = value } ∷ [];
      })

  abbrev pub with_value :
      ProduceStep F
      → F
      → Attempt F
      → (State (Json F) → StepResult × State (Json F))
      → State (Json F)
      → Json F
      → List ℕ
      → StepResult × State (Json F)
  with_value p x a go_on s payload value =
      go_on (deliver p x a (key_of (expand_in lib setup s p.key) payload) payload value s)

  abbrev pub with_payload :
      ProduceStep F
      → F
      → Attempt F
      → (State (Json F) → StepResult × State (Json F))
      → State (Json F)
      → Json F
      → StepResult × State (Json F)
  with_payload p x a go_on s payload =
      or_fail (encode_for_wire lib setup a.codec p.schema_subject payload)
        (with_value p x a go_on s payload) s

  abbrev pub attempt :
      ProduceStep F
      → F
      → Attempt F
      → (State (Json F) → StepResult × State (Json F))
      → State (Json F)
      → StepResult × State (Json F)
  attempt p x a go_on s =
      or_fail (resolve_payload lib setup (expand_in lib setup s p.payload) a.generated)
        (with_payload p x a go_on s) s

  -- The rounds that are left, from round `i` on; `tick` is the pause after each but the last.
  unfoldable pub produce :
      ProduceStep F
      → String
      → (ℕ → Attempt F)
      → ℕ
      → ℕ
      → ℕ
      → State (Json F)
      → StepResult × State (Json F)
  produce p name attempts tick zero i s = (passed, s)
  produce p name attempts tick (suc k) i s =
      let a = attempts i in
      if a.cancelled_before
      then (failed cancelled, s)
      else attempt p (lib.draw name i) a
          (λ s'.
            if ltb 0 tick && ltb 0 k && a.cancelled_pausing
            then (failed cancelled, s')
            else produce p name attempts tick k (suc i) s')
          s

  abbrev pub at_rate :
      Option ℕ
      → ProduceStep F
      → String
      → (ℕ → Attempt F)
      → State (Json F)
      → StepResult × State (Json F)
  at_rate none p name attempts s = (failed (other_error "rate"), s)
  at_rate (some tick) p name attempts s = produce p name attempts tick (effective_count p.count) 0 s

  unfoldable pub run_produce :
      ProduceStep F → String → (ℕ → Attempt F) → State (Json F) → StepResult × State (Json F)
  unfolding produce
  run_produce p name attempts s =
      if not setup.has_kafka
      then (failed (other_error "produce: no kafka client configured"), s)
      else if not (valid_produce_fail_mode p.fail_mode)
      then (failed (other_error "produce.fail_mode"), s)
      else at_rate (parse_rate p.rate) p name attempts s
