-- ===== src/Orchestrator/Growth/Running.antt =====
-- A whole run only appends to the event store, and what that leaves of each stream.
use Prim.Native.String.{◌++◌ as str_append}
use event_driven_tests_ai.Common.{
  All, ◌++◌, refl, Bool, ◌==◌, string_comparable, ℕ, String, List, [], ◌∷◌, ◌≡◌, ◌∙◌, ap, Option,
  none, some, select,
}
use event_driven_tests_ai.Common.Int.{ℤ}
use event_driven_tests_ai.Json.{Json}
use event_driven_tests_ai.Events.{Event, new_mem_store, query}
use event_driven_tests_ai.Events.Retention.{
  append_all, query-append_all, keep_last, effective_cap, on_stream,
}
use event_driven_tests_ai.Spec.{Step, WebSocketStep, SseStep}
use event_driven_tests_ai.Orchestrator.{State, StepError, StepResult, passed, failed}
use event_driven_tests_ai.Orchestrator.Matcher.{
  Compiled, no_matcher, matcher, compile_error, compile_matcher,
}
use event_driven_tests_ai.Orchestrator.Receive.{Round, Listen}
use event_driven_tests_ai.Orchestrator.Runner.{Library, Setup, payloads, expand_in, resolve_payload}
use event_driven_tests_ai.Orchestrator.Run.{
  World, listening, web_socket_listen, sse_listen, send_first, run_web_socket, run_sse, slept,
  run_sleep, choose, run_step, on_pass, run,
}
use event_driven_tests_ai.Orchestrator.Growth.{
  grown_to, unmoved, Grown, if-Grown, or_fail-Grown, append_all-append,
}
use event_driven_tests_ai.Orchestrator.Growth.Listening.{receive-Grown, run_consume-Grown}
use event_driven_tests_ai.Orchestrator.Growth.Calling.{
  run_produce-Grown, run_http-Grown, run_grpc-Grown,
}

module _ {F : Type 0} (lib : Library F) (setup : Setup F) where
  listening-Grown :
      (step : Listen (Json F)) (m : Compiled) (rounds : List (Round (Json F))) (s : State (Json F))
      → Grown step.stream s (listening lib setup step m rounds s)
  listening-Grown step (compile_error e) rounds s = unmoved s _
  listening-Grown step no_matcher rounds s =
      receive-Grown lib.cel payloads no_matcher step rounds 0 s
  listening-Grown step (matcher rules) rounds s =
      receive-Grown lib.cel payloads (matcher rules) step rounds 0 s

  send_first-Grown :
      {name : String} (w : WebSocketStep) (world : World F) (go_on : StepResult × State (Json F))
      (s : State (Json F))
      → Grown name s go_on
      → Grown name s (send_first lib setup w world go_on s)
  send_first-Grown w world go_on s g = if-Grown s _ go_on _ g (
      or_fail-Grown (resolve_payload lib setup (expand_in lib setup s w.send) world.generated) _ s
        λ payload. or_fail-Grown (world.frame_sent payload) _ s (λ u. g))

  run_web_socket-Grown :
      (w : WebSocketStep) (world : World F) (s : State (Json F))
      → Grown (str_append "ws:" w.path) s (run_web_socket lib setup w world s)
  unfolding run_web_socket
  run_web_socket-Grown w world s =
      let opened-Grown = or_fail-Grown world.opened _ s λ u. send_first-Grown w world _ s (
        listening-Grown (web_socket_listen lib setup w) (compile_matcher lib.cel w.matching)
          world.rounds s) in
      search (if-Grown, unmoved, opened-Grown)

  run_sse-Grown :
      (e : SseStep) (world : World F) (s : State (Json F))
      → Grown (str_append "sse:" e.path) s (run_sse lib setup e world s)
  unfolding run_sse
  run_sse-Grown e world s =
      let opened-Grown = or_fail-Grown world.opened _ s λ u.
        listening-Grown (sse_listen lib setup e) (compile_matcher lib.cel e.matching) world.rounds
          s in
      search (if-Grown, unmoved, opened-Grown)

  slept-Grown :
      {name : String} (d : Option ℕ) (stopped : Bool) (s : State (Json F))
      → Grown name s (slept lib setup d stopped s)
  slept-Grown none stopped s = unmoved s _
  slept-Grown (some d) stopped s = if-Grown s stopped _ _ (unmoved s _) (unmoved s _)

  run_sleep-Grown :
      {name : String} (t : String) (world : World F) (s : State (Json F))
      → Grown name s (run_sleep lib setup t world s)
  unfolding run_sleep
  run_sleep-Grown t world s =
      if-Grown s (t == "") _ (slept lib setup (lib.parse_duration t) world.cancelled_sleeping s)
        (unmoved s _) (slept-Grown (lib.parse_duration t) world.cancelled_sleeping s)

  choose-Grown :
      {A : Type 0} (s : State (Json F)) (o : Option A) (f : A → StepResult × State (Json F))
      (others : StepResult × State (Json F)) (stream : A → String) (other_stream : String)
      → ((a : A) → Grown (stream a) s (f a))
      → Grown other_stream s others
      → Grown (choose o stream other_stream) s (choose o f others)
  choose-Grown s none f others n m g h = h
  choose-Grown s (some a) f others n m g h = g a

  -- The stream of the events of a step, by its first action; a pause has none.
  abbrev pub stream_of : Step F (Json F) → State (Json F) → String
  stream_of st s =
      choose st.produce (λ p. p.topic)
        (choose st.consume (λ c. expand_in lib setup s c.topic)
          (choose st.http (λ h. str_append "http:" (expand_in lib setup s h.path))
            (choose st.web_socket (λ x. str_append "ws:" x.path)
              (choose st.sse (λ e. str_append "sse:" e.path)
                (choose st.grpc (λ g. str_append "grpc:" g.method) "")))))

  pub run_step-Grown :
      (st : Step F (Json F)) (w : World F) (s : State (Json F))
      → Grown (stream_of st s) s (run_step lib setup st w s)
  unfolding run_step
  run_step-Grown st w s =
      choose-Grown s st.produce _ _ _ _ (λ p. run_produce-Grown lib setup p st.name w.attempts s)
        (choose-Grown s st.consume _ _ _ _
          (λ c.
            run_consume-Grown lib.cel payloads lib.parse_duration (expand_in lib setup s)
              setup.has_kafka c w.deliveries w.ending s)
          (choose-Grown s st.http _ _ _ _ (λ h. run_http-Grown lib setup h st.name w.call w.at s)
            (choose-Grown s st.web_socket _ _ _ _ (λ x. run_web_socket-Grown x w s)
              (choose-Grown s st.sse _ _ _ _ (λ e. run_sse-Grown e w s)
                (choose-Grown s st.grpc _ _ _ _ (λ g. run_grpc-Grown lib setup g w.invoke w.at s)
                  (run_sleep-Grown st.sleep w s))))))

  -- A step ends with `x`, and appended these events, all on its stream.
  pub record IsStep (st : Step F (Json F)) (w : World F) (s : State (Json F))
      (es : List (Event (Json F))) (x : StepResult × State (Json F)) : Type 0 where
    pub ends : run_step lib setup st w s ≡ x
    pub only_stream : All (λ e. e.stream ≡ stream_of st s) es
    pub grown : x.1.store ≡ append_all es s.store

  -- A run of steps from a state, with the events that it appends: the steps are taken in their order,
  -- each from the state that the one before left, up to the first that fails, which is the last.
  pub data IsRun
      : List (Step F (Json F) × World F)
        → State (Json F)
        → List (Event (Json F))
        → StepResult × State (Json F)
        → Type 0 where
    done : (s : State (Json F)) → IsRun [] s [] (passed, s)
    next :
        (st : Step F (Json F)) (w : World F) (steps : List (Step F (Json F) × World F))
        (s t : State (Json F)) (es fs : List (Event (Json F))) (x : StepResult × State (Json F))
        → IsStep st w s es (passed, t)
        → IsRun steps t fs x
        → IsRun ((st, w) ∷ steps) s (es ++ fs) x
    last :
        (st : Step F (Json F)) (w : World F) (steps : List (Step F (Json F) × World F))
        (s t : State (Json F)) (es : List (Event (Json F))) (e : StepError)
        → IsStep st w s es (failed e, t)
        → IsRun ((st, w) ∷ steps) s es (failed e, t)

  record Traced (steps : List (Step F (Json F) × World F)) (s : State (Json F))
      (x : StepResult × State (Json F)) : Type 0 where
    events : List (Event (Json F))
    trace : IsRun steps s events x
    grown : x.1.store ≡ append_all events s.store

  on_pass-Traced :
      (st : Step F (Json F)) (w : World F) (steps : List (Step F (Json F) × World F))
      (s : State (Json F)) (x : StepResult × State (Json F))
      → run_step lib setup st w s ≡ x
      → Grown (stream_of st s) s x
      → ((t : State (Json F)) → Traced steps t (run lib setup steps t))
      → Traced ((st, w) ∷ steps) s (on_pass lib setup x (run lib setup steps))
  on_pass-Traced st w steps s _ e (grown_to passed t g) h =
      let rest = h t in
      let one : IsStep st w s g.events (passed, t) = record {
        ends = e;
        only_stream = g.on_stream;
        grown = g.grown;
      } in
      record {
        events = g.events ++ rest.events;
        trace = next st w steps s t g.events rest.events (run lib setup steps t) one rest.trace;
        grown = rest.grown ∙ rw (append_all-append g.events rest.events s.store, ← g.grown);
      }
  on_pass-Traced st w steps s _ e (grown_to (failed x) t g) h = record {
    events = g.events;
    trace =
        last st w steps s t g.events x
          (record { ends = e; only_stream = g.on_stream; grown = g.grown });
    grown = g.grown;
  }

  run-Traced :
      (steps : List (Step F (Json F) × World F)) (s : State (Json F))
      → Traced steps s (run lib setup steps s)
  unfolding run
  run-Traced [] s = unfold append_all in record { events = []; trace = done s; grown = refl }
  run-Traced ((st, w) ∷ steps) s =
      on_pass-Traced st w steps s (run_step lib setup st w s) refl (run_step-Grown st w s)
        (run-Traced steps)

  -- Whatever the steps of a run are, and whatever the outside does while they run: the run takes its
  -- steps in their order, each from the state that the one before left, up to the first that fails,
  -- with whose error it ends. The events that it appends are those of the steps that it took, in
  -- their order, and each step appends only to its own stream. If the run began with a new store, a
  -- query of a stream afterwards gives the last of these events on it, as many as the cap allows,
  -- oldest first.
  pub query-run :
      (limit : ℤ) (steps : List (Step F (Json F) × World F)) (s : State (Json F))
      → s.store ≡ new_mem_store limit
      → (es : List (Event (Json F))) × IsRun steps s es (run lib setup steps s)
        × ((name : String)
            → query (run lib setup steps s).1.store name
              ≡ keep_last (effective_cap limit) (select (on_stream name) es))
  query-run limit steps s new =
      let g = run-Traced steps s in
      (
        g.events,
        g.trace,
        λ name.
            ap (λ m. query m name) (g.grown ∙ ap (append_all g.events) new)
            ∙ query-append_all limit g.events name,
      )
