-- ===== src/Eval/Rounds/Examples.antt =====
-- Two iterations of an agent that answers one question each.
use event_driven_tests_ai.Common.{
  ℕ, nat_beq, ltb, ◌+◌, ◌-◌, ◌*◌, ◌/◌, String, List, [], ◌∷◌, refl, string_comparable, true, false,
  none, some,
}
use event_driven_tests_ai.Common.Int.{pos}
use event_driven_tests_ai.Json.{Json, obj, end, field, int}
use event_driven_tests_ai.Events.{Event, consumed}
use event_driven_tests_ai.Eval.{Floats, Score, Eval}
use event_driven_tests_ai.Eval.Executor.{new_executor}
use event_driven_tests_ai.Eval.Matching.{Poll}
use event_driven_tests_ai.Eval.Rounds.{Agent, as_map, Blobs, Pair, Round, run_iterations}
use event_driven_tests_ai.Eval.Rounds.Scoring.{
  IsUndisturbed, IsEvaluated, run_iterations-IsEvaluated,
}

abbrev floats : Floats ℕ
floats = record {
  nan = 0;
  of_int = λ n. n;
  add = λ a b. a + b;
  sub = λ a b. a - b;
  mul = λ a b. a * b;
  div = λ a b. a / b;
  less = ltb;
  equal = nat_beq;
  floor = λ n. n;
  ceil = λ n. n;
  parse = λ s. none;
  to_lower = λ s. s;
}

abbrev blobs : Blobs ℕ
blobs = record {
  unmarshal = λ t. none;
  preview = λ t. t;
  bytes = λ t. 0;
  fingerprint = λ t. "sha256:";
}

abbrev agent : Agent
agent = record { consumes = "questions" ∷ []; produces = "answers" ∷ [] }

abbrev event : String → Event (Json ℕ)
event stream = record {
  stream = stream;
  key = "k";
  ts = 3;
  headers = [];
  payload = obj (field "id" (int (pos 7)) end);
  direction = consumed;
}

abbrev store : String → List (Event (Json ℕ))
store stream = event stream ∷ []

abbrev poll : Poll (Json ℕ)
poll = record { cancelled = false; query = store; expired = true; cancelled_waiting = false }

abbrev round : Round (Json ℕ)
round = record {
  cancelled_before = false;
  before = λ stream. [];
  reseed_error = none;
  after = store;
  polls = λ n. poll ∷ [];
}

abbrev good : Eval → Pair ℕ → Score ℕ
good ev p = record { value = 5; failed = false }

abbrev quality : Eval
quality = record { name = "quality"; expr = ""; has_judge = true; threshold = none }

rounds-IsUndisturbed : IsUndisturbed floats blobs good (quality ∷ []) "shop" (λ i. round)
rounds-IsUndisturbed = record {
  runs_on = λ i. refl;
  seeded = λ i. refl;
  served = λ i n. ((refl, refl), tt);
}

run_iterations-IsEvaluated_example :
    IsEvaluated floats blobs good
      (quality ∷ [])
      "shop"
      ((field "id" (int (pos 7)) end, 0) ∷ (field "id" (int (pos 7)) end, 1) ∷ [])
      (new_executor ℕ)
      (run_iterations floats blobs good
        (quality ∷ [])
        "shop"
        (some agent)
        true
        (λ i. round)
        (pos 2)
        (new_executor ℕ))
unfolding as_map
run_iterations-IsEvaluated_example =
    run_iterations-IsEvaluated floats blobs good (quality ∷ []) "shop" ("questions" ∷ []) "answers"
      [] (λ i. round) (λ i stream. store stream) (pos 2) (new_executor ℕ) rounds-IsUndisturbed
      (λ i stream. refl)
