-- ===== src/Orchestrator/Run.antt =====
-- Run and runStep of pkg/orchestrator/run.go, with the opening of the sessions in websocket.go and
-- sse.go: a scenario's steps in their order, up to the first that fails.
use Prim.Native.String.{◌++◌ as str_append}
use event_driven_tests_ai.Common.{
  ℕ, String, List, [], ◌∷◌, if◌then◌else◌, ◌==◌, not, string_comparable, Bool, Option, none, some,
}
use event_driven_tests_ai.Json.{Json}
use event_driven_tests_ai.Events.{Time}
use event_driven_tests_ai.Spec.{Step, WebSocketStep, SseStep}
use event_driven_tests_ai.Orchestrator.{State, cancelled, other_error, StepResult, passed, failed}
use event_driven_tests_ai.Orchestrator.Matcher.{Compiled, compile_error, compile_matcher}
use event_driven_tests_ai.Orchestrator.Receive.{Round, Listen, receive}
use event_driven_tests_ai.Orchestrator.Consume.{Delivery, Ending, run_consume}
use event_driven_tests_ai.Orchestrator.Runner.{
  Library, Setup, Answer, or_fail, payloads, expand_in, resolve_payload,
}
use event_driven_tests_ai.Orchestrator.Produce.{Attempt, run_produce}
use event_driven_tests_ai.Orchestrator.Expectation.{Response}
use event_driven_tests_ai.Orchestrator.Calls.{GrpcReply, run_http, run_grpc}
use event_driven_tests_ai.Spec.{HttpStep}

-- What the outside does while one step runs; each step reads the part that it needs.
pub record World (F : Type 0) : Type 0 where
  pub attempts : ℕ → Attempt F
  pub deliveries : List (Delivery (Json F))
  pub ending : Ending
  pub call : HttpStep F (Json F) → Answer (Response F)
  pub invoke : String → Answer (GrpcReply F)
  -- the opening of a session, with the answer to the first frame
  pub opened : Answer (Unit {0})
  pub generated : Answer (Json F)
  pub frame_sent : Json F → Answer (Unit {0})
  pub rounds : List (Round (Json F))
  pub at : Time
  pub cancelled_sleeping : Bool

-- The case of a `switch` on a pointer that is not nil, and the cases after it.
abbrev pub choose : {A B : Type 0} → Option A → (A → B) → B → B
choose none f others = others
choose (some a) f others = f a

module _ {F : Type 0} (lib : Library F) (setup : Setup F) where
  abbrev pub listening :
      Listen (Json F)
      → Compiled
      → List (Round (Json F))
      → State (Json F)
      → StepResult × State (Json F)
  listening step (compile_error e) rounds s = (failed (other_error e), s)
  listening step m rounds s = receive lib.cel payloads step m rounds 0 s

  abbrev pub web_socket_listen : WebSocketStep → Listen (Json F)
  web_socket_listen w = record {
    stream = str_append "ws:" w.path;
    count = w.count;
    slow_mode = w.slow_mode;
    parse_duration = lib.parse_duration;
  }

  abbrev pub sse_listen : SseStep → Listen (Json F)
  sse_listen e = record {
    stream = str_append "sse:" e.path;
    count = e.count;
    slow_mode = e.slow_mode;
    parse_duration = lib.parse_duration;
  }

  -- The first frame, if the step has one.
  abbrev pub send_first :
      WebSocketStep
      → World F
      → StepResult × State (Json F)
      → State (Json F)
      → StepResult × State (Json F)
  send_first w world go_on s =
      if w.send == ""
      then go_on
      else or_fail (resolve_payload lib setup (expand_in lib setup s w.send) world.generated)
          (λ payload. or_fail (world.frame_sent payload) (λ u. go_on) s) s

  unfoldable pub run_web_socket :
      WebSocketStep → World F → State (Json F) → StepResult × State (Json F)
  run_web_socket w world s =
      if not setup.has_web_socket
      then (failed (other_error "websocket: no client configured"), s)
      else if w.path == ""
      then (failed (other_error "websocket: missing path"), s)
      else if not setup.web_socket_connector
      then (failed (other_error "websocket: scenario.connectors.websocket is required"), s)
      else or_fail world.opened
          (λ u.
            send_first w world
              (listening (web_socket_listen w) (compile_matcher lib.cel w.matching) world.rounds s)
              s)
          s

  unfoldable pub run_sse : SseStep → World F → State (Json F) → StepResult × State (Json F)
  run_sse e world s =
      if not setup.has_sse
      then (failed (other_error "sse: no client configured"), s)
      else if e.path == ""
      then (failed (other_error "sse: missing path"), s)
      else if not setup.http_connector
      then (failed (other_error "sse: scenario.connectors.http is required"), s)
      else or_fail world.opened
          (λ u. listening (sse_listen e) (compile_matcher lib.cel e.matching) world.rounds s) s

  abbrev pub slept : Option ℕ → Bool → State (Json F) → StepResult × State (Json F)
  slept none stopped s = (failed (other_error "invalid sleep"), s)
  slept (some d) stopped s = if stopped then (failed cancelled, s) else (passed, s)

  unfoldable pub run_sleep : String → World F → State (Json F) → StepResult × State (Json F)
  run_sleep t world s =
      if t == ""
      then (failed (other_error "no action declared"), s)
      else slept (lib.parse_duration t) world.cancelled_sleeping s

  -- The first action that is there.
  unfoldable pub run_step : Step F (Json F) → World F → State (Json F) → StepResult × State (Json F)
  run_step st w s =
      choose st.produce (λ p. run_produce lib setup p st.name w.attempts s)
        (choose st.consume
          (λ c.
            run_consume lib.cel payloads lib.parse_duration (expand_in lib setup s) setup.has_kafka
              c w.deliveries w.ending s)
          (choose st.http (λ h. run_http lib setup h st.name w.call w.at s)
            (choose st.web_socket (λ x. run_web_socket x w s)
              (choose st.sse (λ e. run_sse e w s)
                (choose st.grpc (λ g. run_grpc lib setup g w.invoke w.at s)
                  (run_sleep st.sleep w s))))))

  abbrev pub on_pass :
      StepResult × State (Json F)
      → (State (Json F) → StepResult × State (Json F))
      → StepResult × State (Json F)
  on_pass (passed, s) go_on = go_on s
  on_pass (failed e, s) go_on = (failed e, s)

  -- Each step with what the outside does while it runs.
  unfoldable pub run :
      List (Step F (Json F) × World F) → State (Json F) → StepResult × State (Json F)
  run [] s = (passed, s)
  run ((st, w) ∷ steps) s = on_pass (run_step st w s) (run steps)
