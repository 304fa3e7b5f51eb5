-- ===== src/Eval/Examples.antt =====
-- The eval harness run on a few scores and events.
use event_driven_tests_ai.Common.{
  ℕ, nat_comparable, nat_beq, ◌+◌, ◌-◌, ◌*◌, ◌/◌, String, List, [], ◌∷◌, ◌≡◌, refl, if◌then◌else◌,
  ◌==◌, string_comparable, true, false, select, none, some, ltb, length,
}
use event_driven_tests_ai.Common.Int.{pos}
use event_driven_tests_ai.Common.Text.{trim_space}
use event_driven_tests_ai.Events.{Event, consumed, MemStore, new_mem_store, append, query}
use event_driven_tests_ai.Events.Invariant.{new_mem_store-IsValid, append-IsValid}
use event_driven_tests_ai.Eval.{Floats, Eval}
use event_driven_tests_ai.Common.Numerals.{atoi}
use event_driven_tests_ai.Eval.Words.{parse_min_samples, fields}
use event_driven_tests_ai.Eval.Executor.{new_executor, finalize_one}
use event_driven_tests_ai.Eval.Verdict.{
  Scored, of_eval, bad, record_all, suffices, finalize_one-record_all,
}
use event_driven_tests_ai.Eval.Matching.{Poll, match_all, fresh_inputs_after, snapshot_cursors}
use event_driven_tests_ai.Eval.Matching.Distinct.{IsDistinct, match_all-IsDistinct}
use event_driven_tests_ai.Eval.Matching.Fresh.{fresh_inputs_after-append}

-- Natural numbers in place of floats.
abbrev floats : Floats ℕ
floats = record {
  nan = 0;
  of_int = λ n. n;
  add = λ a b. a + b;
  sub = λ a b. a - b;
  mul = λ a b. a * b;
  div = λ a b. a / b;
  less = ltb;
  equal = nat_beq;
  floor = λ n. n;
  ceil = λ n. n;
  parse = λ s. if s == "4" then some 4 else none;
  to_lower = λ s. s;
}

abbrev quality : Eval
quality = record {
  name = "quality";
  expr = "";
  has_judge = true;
  threshold = some (record { aggregate = "min"; value = ">= 4"; over = "2 runs" });
}

abbrev scores : List (Scored ℕ)
scores =
    (quality, record { value = 5; failed = false })
    ∷ (quality, record { value = 0; failed = true })
    ∷ (quality, record { value = 4; failed = false })
    ∷ []

finalize_one-record_all_example :
    let own = select (of_eval "quality") scores in
    let r = finalize_one floats (record_all floats scores (new_executor ℕ)) quality in
    (r.passed ≡ suffices floats quality.threshold own) × (r.errors ≡ bad own)
finalize_one-record_all_example = finalize_one-record_all floats quality scores

two_runs : parse_min_samples floats "2 runs" ≡ 2
unfolding parse_min_samples fields atoi trim_space
two_runs = refl

abbrev event : String → ℕ → Event ℕ
event key ts = record {
  stream = "out";
  key = key;
  ts = ts;
  headers = [];
  payload = ts;
  direction = consumed;
}

abbrev poll : Poll ℕ
poll = record {
  cancelled = false;
  query = λ name. event "k" 1 ∷ event "k" 2 ∷ [];
  expired = true;
  cancelled_waiting = false;
}

match_all-IsDistinct_example :
    IsDistinct
      (match_all (("k", poll ∷ []) ∷ ("k", poll ∷ []) ∷ ("k", poll ∷ []) ∷ []) ("out" ∷ []) [] [])
match_all-IsDistinct_example =
    match_all-IsDistinct (("k", poll ∷ []) ∷ ("k", poll ∷ []) ∷ ("k", poll ∷ []) ∷ []) ("out" ∷ [])
      [] []

abbrev one_place : MemStore ℕ
one_place = append (event "k" 1) (new_mem_store (pos 1))

fresh_inputs_after-append_example :
    fresh_inputs_after
      (query (append (event "k" 2) one_place))
      ("out" ∷ [])
      (snapshot_cursors (query one_place) ("out" ∷ []))
    ≡ (if ltb (length (query one_place "out")) one_place.cap_per_stream
        then event "k" 2 ∷ []
        else [])
fresh_inputs_after-append_example =
    fresh_inputs_after-append (event "k" 2) one_place
      (append-IsValid (event "k" 1) (new_mem_store (pos 1)) (new_mem_store-IsValid (pos 1)))
