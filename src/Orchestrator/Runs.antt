-- ===== src/Orchestrator/Runs.antt =====
-- Whole runs, watches and loops on a small library.
use event_driven_tests_ai.Common.{
  ℕ, String, List, [], ◌∷◌, ◌≡◌, refl, false, Option, none, some, select, ltb, if◌then◌else◌, ◌==◌,
  string_comparable,
}
use event_driven_tests_ai.Common.Int.{ℤ, pos}
use event_driven_tests_ai.Checks.Result.{Check, Outcome, value, bool}
use event_driven_tests_ai.Report.{Report}
use event_driven_tests_ai.Events.Retention.{keep_last, effective_cap, on_stream}
use event_driven_tests_ai.Orchestrator.Watch.{WatchConfig, defaults, emit_watch_snapshot}
use event_driven_tests_ai.Orchestrator.Watch.Snapshot.{IsSnapshot, emit_watch_snapshot-IsSnapshot}
use event_driven_tests_ai.Orchestrator.Interpolate.{expand, has_reference}
use event_driven_tests_ai.Json.{Json, text}
use event_driven_tests_ai.Events.{Store, Event, consumed, append, reads, new_mem_store, query}
use event_driven_tests_ai.Spec.{ProduceStep, HttpStep, Step}
use event_driven_tests_ai.Orchestrator.Trials.{library, setup, state}
use event_driven_tests_ai.Orchestrator.Runner.{
  refused, expand_in, resolve_payload, encode_for_wire, encode_wire_value, data_alias,
  looks_like_json,
}
use event_driven_tests_ai.Common.Text.{strip_prefix, trim_space}
use event_driven_tests_ai.Orchestrator.Produce.{Attempt, parse_rate, run_produce}
use event_driven_tests_ai.Orchestrator.Consume.{no_error}
use event_driven_tests_ai.Orchestrator.Calls.{
  run_http, expanded_http, http_hits, valid_http_fail_mode,
}
use event_driven_tests_ai.Orchestrator.Delivery.{IsUnhindered, IsDelivered, run_produce-IsDelivered}
use event_driven_tests_ai.Orchestrator.Answering.{IsCalled, run_http-IsCalled}
use event_driven_tests_ai.Orchestrator.Run.{World, run}
use event_driven_tests_ai.Orchestrator.Growth.Running.{IsRun, query-run}

abbrev attempt : Attempt ℕ
attempt = record {
  cancelled_before = false;
  generated = refused "not asked";
  codec = λ subject payload. refused "no codec";
  broker_fails = false;
  at = 3;
  cancelled_pausing = false;
}

abbrev orders : ProduceStep ℕ
orders = record {
  topic = "orders";
  payload = "hello";
  key = "k";
  rate = "";
  count = pos 2;
  fail_rate = 0;
  fail_mode = "";
  schema_subject = "";
}

orders-IsUnhindered : IsUnhindered library setup orders (λ i. attempt)
unfolding expand_in expand has_reference resolve_payload encode_for_wire data_alias strip_prefix
    looks_like_json trim_space
orders-IsUnhindered = record {
  runs_on = λ i. refl;
  waits = λ i. refl;
  resolves = λ i t. (text "hello", refl);
  encodes = λ i payload. (encode_wire_value library setup payload, refl);
}

run_produce-IsDelivered_example :
    IsDelivered library setup "orders" 2 state
      (run_produce library setup orders "place" (λ i. attempt) state)
unfolding parse_rate
run_produce-IsDelivered_example =
    run_produce-IsDelivered library setup orders "place" (λ i. attempt) 0 state refl refl refl
      orders-IsUnhindered

abbrev ask : HttpStep ℕ (Json ℕ)
ask = record {
  method = "GET";
  path = "/orders/${previous.orderId}";
  headers = [];
  body = "";
  expect = none;
  fail_rate = 0;
  fail_mode = "http_5xx";
}

run_http-IsCalled_example :
    IsCalled library setup
      (expanded_http library setup state ask)
      (http_hits library setup ask "ask")
      (refused "connection refused")
      state
      (run_http library setup ask "ask" (λ h. refused "connection refused") 4 state)
unfolding valid_http_fail_mode
run_http-IsCalled_example =
    run_http-IsCalled library setup ask "ask" (λ h. refused "connection refused") 4 state refl refl

abbrev pub world : World ℕ
world = record {
  attempts = λ i. attempt;
  deliveries = [];
  ending = no_error;
  call = λ h. refused "connection refused";
  invoke = λ r. refused "no server";
  opened = refused "no server";
  generated = refused "not asked";
  frame_sent = λ v. refused "closed";
  rounds = [];
  at = 4;
  cancelled_sleeping = false;
}

abbrev pub step : Step ℕ (Json ℕ)
step = record {
  name = "place";
  produce = some orders;
  consume = none;
  http = none;
  web_socket = none;
  sse = none;
  grpc = none;
  sleep = "";
}

query-run_example :
    (es : List (Event (Json ℕ))) × IsRun library setup
      ((step, world) ∷ (step, world) ∷ [])
      state
      es
      (run library setup ((step, world) ∷ (step, world) ∷ []) state)
    × ((name : String)
        → query (run library setup ((step, world) ∷ (step, world) ∷ []) state).1.store name
          ≡ keep_last (effective_cap (pos 5)) (select (on_stream name) es))
query-run_example = query-run library setup (pos 5) ((step, world) ∷ (step, world) ∷ []) state refl

-- A check holds over a view with an event.
abbrev some_event : Store ℕ → String → Outcome ℕ
some_event store e = value (bool (ltb 0 store.len))

abbrev window_text : String → Option ℤ
window_text t = if t == "10ns" then some (pos 10) else none

abbrev recent : Check
recent = record { name = "recent"; expr = "some"; window = "10ns"; severity = "" }

abbrev event : Event ℕ
event = record {
  stream = "orders";
  key = "k";
  ts = 5;
  headers = [];
  payload = 7;
  direction = consumed;
}

abbrev one_event : Store ℕ
one_event = reads (append event (new_mem_store (pos 5)))

abbrev watch_config : WatchConfig
watch_config =
    defaults (record { loop_interval = pos 0; eval_interval = pos 0; default_window = pos 0 })

emit_watch_snapshot-IsSnapshot_example :
    (r : Report ℕ) × (emit_watch_snapshot
        (λ store. some (some_event store))
        window_text
        "shop"
        ""
        "1"
        one_event
        100
        (recent ∷ [])
        watch_config
      ≡ some r)
    × IsSnapshot some_event window_text one_event 100 (recent ∷ []) watch_config r
emit_watch_snapshot-IsSnapshot_example =
    emit_watch_snapshot-IsSnapshot some_event window_text "shop" "" "1" one_event 100 (recent ∷ [])
      watch_config
