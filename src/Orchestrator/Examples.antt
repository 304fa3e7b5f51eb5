-- ===== src/Orchestrator/Examples.antt =====
-- Steps that listen for one event.
use event_driven_tests_ai.Common.{
  ℕ, String, List, [], ◌∷◌, ◌≢◌, refl, arith, true, false, none, some, nat_beq, string_comparable,
}
use event_driven_tests_ai.Common.Int.{pos}
use event_driven_tests_ai.Common.Text.{trim_space}
use event_driven_tests_ai.Events.{new_mem_store}
use event_driven_tests_ai.Spec.{MatchRule, ConsumeStep}
use event_driven_tests_ai.Orchestrator.{State, Payloads}
use event_driven_tests_ai.Orchestrator.Matcher.{Cel, compile_matcher, filter_non_empty, answer}
use event_driven_tests_ai.Orchestrator.Receive.{Round, Listen}
use event_driven_tests_ai.Orchestrator.Consume.{Delivery, deadline_exceeded, no_error, run_consume}
use event_driven_tests_ai.Orchestrator.Passing.{IsConsumed, run_consume-IsConsumed}

-- Every rule asks for the payload 7.
abbrev cel : Cel ℕ
cel = record { compile = λ r. none; eval = λ r payload before. answer (nat_beq payload 7) }

abbrev payloads : Payloads ℕ
payloads = record { object = λ p. []; is_object = λ p. false; of_text = λ t. 0 }

abbrev rules : List MatchRule
rules = record { key = "payload == 7" } ∷ []

abbrev state : State ℕ
state = record { store = new_mem_store (pos 5); previous = ("key", 1) ∷ []; sent = [] }

abbrev round : ℕ → Round ℕ
round payload = record {
  cancelled_before = false;
  expired_before = false;
  arrival = some ("id", payload);
  cancelled_after = false;
  expired_after = false;
  at = 3;
  remaining = 9;
  cancelled_pausing = false;
}

abbrev listen : Listen ℕ
listen = record { stream = "sse:/x"; count = pos 0; slow_mode = none; parse_duration = λ t. none }

abbrev delivery : String → ℕ → Delivery ℕ
delivery topic payload = record {
  topic = topic;
  key = "k";
  headers = [];
  at = 3;
  payload = payload;
  interrupted = none;
}

ends_late : deadline_exceeded ≢ no_error
ends_late = λ e. ground (arith, e)

abbrev step : ConsumeStep
step = record { topic = "t"; group = ""; timeout = ""; matching = rules; slow_mode = none }

run_consume-IsConsumed_example :
    IsConsumed cel payloads rules "t"
      (delivery "u" 7 ∷ delivery "t" 3 ∷ delivery "t" 7 ∷ [])
      (("key", 1) ∷ [])
      (run_consume cel payloads
        (λ t. none)
        (λ t. t)
        true
        step
        (delivery "u" 7 ∷ delivery "t" 3 ∷ delivery "t" 7 ∷ [])
        deadline_exceeded
        state)
unfolding compile_matcher filter_non_empty trim_space
run_consume-IsConsumed_example =
    run_consume-IsConsumed cel payloads (λ t. none) (λ t. t) true step
      (delivery "u" 7 ∷ delivery "t" 3 ∷ delivery "t" 7 ∷ []) deadline_exceeded state rules refl
      ends_late
