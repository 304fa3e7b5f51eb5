-- ===== src/Orchestrator/Calls.antt =====
-- runHTTP of pkg/orchestrator/run.go and runGRPC of grpc.go: the steps that make one call.
use Prim.Native.String.{◌++◌ as str_append}
use event_driven_tests_ai.Common.{
  String, [], ◌∷◌, if◌then◌else◌, ◌==◌, ◌&&◌, ◌||◌, not, string_comparable, Bool, true, Option,
  none, some, ℕ,
}
use event_driven_tests_ai.Common.Dict.{Dict}
use event_driven_tests_ai.Common.Int.{ℤ, pos}
use event_driven_tests_ai.Json.{Json, Fields, int, text, object, obj, get, has_field}
use event_driven_tests_ai.Json.Equal.{equal_any}
use event_driven_tests_ai.Events.{Event, Time, consumed, produced_failed, http_call, append}
use event_driven_tests_ai.Spec.{HttpStep, GrpcStep, GrpcExpect}
use event_driven_tests_ai.Orchestrator.{
  State, other_error, StepResult, passed, failed, previous_from_payload, record_previous,
}
use event_driven_tests_ai.Orchestrator.Runner.{
  Library, Setup, Answer, answered, refused, payloads, expand_in,
}
use event_driven_tests_ai.Orchestrator.Produce.{non_empty_or}
use event_driven_tests_ai.Orchestrator.Expectation.{Response, fulfilled, equal_int}

unfoldable pub valid_http_fail_mode : String → Bool
valid_http_fail_mode mode =
    mode == ""
    || mode == "timeout"
    || mode == "http_5xx"
    || mode == "5xx"
    || mode == "http_4xx"
    || mode == "4xx"

unfoldable pub injected_http_status : String → ℕ
injected_http_status mode =
    if mode == "http_5xx" || mode == "5xx"
    then 503
    else if mode == "http_4xx" || mode == "4xx"
    then 429
    else 0

-- `GRPCResponse`
pub record GrpcReply (F : Type 0) : Type 0 where
  pub code : ℤ
  pub message : String
  pub body : Fields F

module _ {F : Type 0} (lib : Library F) where
  abbrev match_fields : Fields F → Dict String (Json F) → Bool
  match_fields got [] = true
  match_fields got ((k, want) ∷ d) =
      has_field k got && equal_any lib.numbers (get k got) want && match_fields got d

  -- `checkGRPCExpect`: here only whether there is an error.
  unfoldable pub grpc_fulfilled : Option (GrpcExpect (Json F)) → GrpcReply F → Bool
  grpc_fulfilled none r = true
  grpc_fulfilled (some e) r = equal_int r.code e.code && match_fields r.body e.body

module _ {F : Type 0} (lib : Library F) (setup : Setup F) where
  abbrev expand_headers : State (Json F) → Dict String String → Dict String String
  expand_headers s [] = []
  expand_headers s ((k, v) ∷ d) = (k, expand_in lib setup s v) ∷ expand_headers s d

  -- The step that is sent.
  unfoldable pub expanded_http : State (Json F) → HttpStep F (Json F) → HttpStep F (Json F)
  expanded_http s h = record h {
    path = expand_in lib setup s h.path;
    body = expand_in lib setup s h.body;
    headers = expand_headers s h.headers;
  }

  abbrev pub http_event : String → Json F → Time → Event (Json F)
  http_event path payload at = record {
    stream = str_append "http:" path;
    key = "";
    ts = at;
    headers = [];
    payload = payload;
    direction = http_call;
  }

  abbrev pub injected_payload : String → Json F
  unfolding injected_http_status
  injected_payload mode =
      object
        (("injected_failure", text mode) ∷ ("status", int (pos (injected_http_status mode))) ∷ [])

  abbrev pub response_payload : Response F → Json F
  response_payload r =
      object
        (("status", int r.status) ∷ ("body", r.body) ∷ ("latency_ms", int (pos r.latency_ms)) ∷ [])

  abbrev with_event : Event (Json F) → State (Json F) → State (Json F)
  with_event e s = record s { store = append e s.store }

  -- An error of the call is an event, and no error of the step.
  abbrev pub after_call :
      HttpStep F (Json F)
      → Time
      → State (Json F)
      → Answer (Response F)
      → StepResult × State (Json F)
  after_call h at s (refused e) =
      (passed, with_event (http_event h.path (object (("error", text e) ∷ [])) at) s)
  after_call h at s (answered r) =
      let s' = with_event (http_event h.path (response_payload r) at) s in
      if fulfilled lib h.expect r
      then (passed, record_previous (("status", int r.status) ∷ ("body", r.body) ∷ []) s')
      else (failed (other_error "http expect"), s')

  abbrev pub http_hits : HttpStep F (Json F) → String → Bool
  http_hits h name =
      lib.numbers.less (lib.numbers.of_int (pos 0)) h.fail_rate
      && lib.numbers.less (lib.draw name 0) h.fail_rate

  -- `call` answers the step that is sent.
  unfoldable pub run_http :
      HttpStep F (Json F)
      → String
      → (HttpStep F (Json F) → Answer (Response F))
      → Time
      → State (Json F)
      → StepResult × State (Json F)
  unfolding expanded_http
  run_http h name call at s =
      let sent = expanded_http s h in
      if not setup.has_http
      then (failed (other_error "http: no http client configured"), s)
      else if not (valid_http_fail_mode h.fail_mode)
      then (failed (other_error "http.fail_mode"), s)
      else if http_hits h name
      then (
        passed,
        with_event (http_event sent.path (injected_payload (non_empty_or h.fail_mode "timeout")) at)
            s,
      )
      else after_call sent at s (call sent)

  abbrev pub grpc_event : String → GrpcReply F → Time → Event (Json F)
  grpc_event method r at = record {
    stream = str_append "grpc:" method;
    key = "";
    ts = at;
    headers = [];
    payload =
        object (("code", int r.code) ∷ ("message", text r.message) ∷ ("body", obj r.body) ∷ []);
    direction = if equal_int r.code (pos 0) then consumed else produced_failed;
  }

  abbrev pub after_invoke :
      GrpcStep (Json F) → Time → State (Json F) → Answer (GrpcReply F) → StepResult × State (Json F)
  after_invoke g at s (refused e) = (failed (other_error e), s)
  after_invoke g at s (answered r) =
      let s' =
        record_previous (previous_from_payload payloads "" (obj r.body))
          (with_event (grpc_event g.method r at) s) in
      if grpc_fulfilled lib g.expect r then (passed, s') else (failed (other_error "grpc"), s')

  -- `invoke` answers the request that is sent.
  unfoldable pub run_grpc :
      GrpcStep (Json F)
      → (String → Answer (GrpcReply F))
      → Time
      → State (Json F)
      → StepResult × State (Json F)
  run_grpc g invoke at s =
      if not setup.has_grpc
      then (failed (other_error "grpc: no client configured"), s)
      else if g.method == ""
      then (failed (other_error "grpc: missing method"), s)
      else if not setup.grpc_connector
      then (failed (other_error "grpc: scenario.connectors.grpc is required"), s)
      else after_invoke g at s (invoke (expand_in lib setup s g.request))
