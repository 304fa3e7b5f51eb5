-- ===== src/Orchestrator/Consume.antt =====
-- runConsume of pkg/orchestrator/run.go. The subscriber delivers records to the
-- callback until the callback stops it or its context ends.
use event_driven_tests_ai.Common.{
  ℕ, suc, String, List, [], ◌∷◌, if◌then◌else◌, ◌==◌, ◌&&◌, not, string_comparable, ltb, Bool, true,
  false, Option, none, some,
}
use event_driven_tests_ai.Common.Dict.{Dict}
use event_driven_tests_ai.Events.{Event, Time, append, consumed}
use event_driven_tests_ai.Spec.{SlowMode, ConsumeStep}
use event_driven_tests_ai.Orchestrator.{
  State, StepError, cancelled, timed_out, other_error, StepResult, passed, failed, Payloads,
  previous_from_payload, record_previous,
}
use event_driven_tests_ai.Orchestrator.Matcher.{
  Cel, Compiled, no_matcher, matcher, compile_error, Matched, matched, match_error, matches,
  compile_matcher,
}
use event_driven_tests_ai.Orchestrator.Receive.{due_every}

-- What `Kafka.Consume` returns when the callback did not stop it.
pub data Ending : Type 0 where
  deadline_exceeded : Ending
  context_cancelled : Ending
  port_error : String → Ending
  no_error : Ending

-- A record with its decoded payload, and how a pause after it is interrupted, if it is.
pub record Delivery (P : Type 0) : Type 0 where
  pub topic : String
  pub key : String
  pub headers : Dict String String
  pub at : Time
  pub payload : P
  pub interrupted : Option StepError

abbrev pub ended : Ending → StepResult
ended deadline_exceeded = failed timed_out
ended context_cancelled = failed cancelled
ended (port_error e) = failed (other_error e)
ended no_error = passed

-- With no rules the first record satisfies the step.
abbrev pub satisfied : {P : Type 0} → Cel P → Compiled → P → State P → Matched
satisfied cel no_matcher payload s = matched true
satisfied cel (matcher rules) payload s = matches cel rules payload s.previous
satisfied cel (compile_error e) payload s = match_error e

module _ {P : Type 0} (cel : Cel P) (ps : Payloads P) (m : Compiled)
    (slow : Option (SlowMode × ℕ)) where
  abbrev pub consumed_event : Delivery P → Event P
  consumed_event d = record {
    stream = d.topic;
    key = d.key;
    ts = d.at;
    headers = d.headers;
    payload = d.payload;
    direction = consumed;
  }

  abbrev pub interruption : Option StepError → StepResult × State P → State P → StepResult × State P
  interruption none rest s = rest
  interruption (some e) rest s = (failed e, s)

  abbrev pub pausing : Option (SlowMode × ℕ) → ℕ → Bool
  pausing none n = false
  pausing (some (mode, pause_for)) n = due_every mode.pause_every n && ltb 0 pause_for

  abbrev pub after_record :
      Matched → Delivery P → ℕ → StepResult × State P → State P → StepResult × State P
  after_record (match_error e) d n rest s = (failed (other_error e), s)
  after_record (matched true) d n rest s =
      (passed, record_previous (previous_from_payload ps d.key d.payload) s)
  after_record (matched false) d n rest s =
      if pausing slow n then interruption d.interrupted rest s else rest

  unfoldable pub consume : String → List (Delivery P) → Ending → ℕ → State P → StepResult × State P
  consume topic [] end n s = (ended end, s)
  consume topic (d ∷ ds) end n s =
      let s' = record s { store = append (consumed_event d) s.store } in
      if not (d.topic == topic)
      then consume topic ds end n s
      else after_record (satisfied cel m d.payload s') d (suc n) (consume topic ds end (suc n) s')
          s'

module _ {P : Type 0} (cel : Cel P) (ps : Payloads P) (parse_duration : String → Option ℕ) where
  abbrev active_slow_mode : Option SlowMode → Option SlowMode
  active_slow_mode none = none
  active_slow_mode (some mode) = if due_every mode.pause_every 0 then some mode else none

  abbrev slow_of : Option SlowMode → Option ℕ → Option (Option (SlowMode × ℕ))
  slow_of none d = some none
  slow_of (some mode) none = none
  slow_of (some mode) (some d) = some (some (mode, d))

  abbrev pause_text : Option SlowMode → String
  pause_text none = ""
  pause_text (some mode) = mode.pause_for

  abbrev bad_timeout : String → Bool
  bad_timeout t = elim (parse_duration t) [ none ↦ not (t == "") | some d ↦ false ]

  abbrev pub with_slow_mode :
      Compiled
      → Option (Option (SlowMode × ℕ))
      → String
      → List (Delivery P)
      → Ending
      → State P
      → StepResult × State P
  with_slow_mode (compile_error e) slow topic ds end s = (failed (other_error e), s)
  with_slow_mode no_matcher none topic ds end s = (failed (other_error "slow_mode.pause_for"), s)
  with_slow_mode no_matcher (some slow) topic ds end s =
      consume cel ps no_matcher slow topic ds end 0 s
  with_slow_mode (matcher rules) none topic ds end s =
      (failed (other_error "slow_mode.pause_for"), s)
  with_slow_mode (matcher rules) (some slow) topic ds end s =
      consume cel ps (matcher rules) slow topic ds end 0 s

  -- `expand` is the interpolation, `has_kafka` whether a client is configured.
  unfoldable pub run_consume :
      (String → String)
      → Bool
      → ConsumeStep
      → List (Delivery P)
      → Ending
      → State P
      → StepResult × State P
  unfolding compile_matcher
  run_consume expand has_kafka c ds end s =
      let slow = active_slow_mode c.slow_mode in
      if not has_kafka
      then (failed (other_error "consume: no kafka client configured"), s)
      else if bad_timeout c.timeout
      then (failed (other_error "invalid timeout"), s)
      else with_slow_mode (compile_matcher cel c.matching)
          (slow_of slow (parse_duration (pause_text slow))) (expand c.topic) ds end s
