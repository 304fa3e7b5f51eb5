-- ===== src/Orchestrator/Growth/Calling.antt =====
-- The steps that produce records or make a call only append to the event store.
use Prim.Native.String.{◌++◌ as str_append}
use event_driven_tests_ai.Common.{
  refl, ltb, ◌&&◌, Bool-cases, inl, inr, ℕ, zero, suc, String, List, Option, none, some,
}
use event_driven_tests_ai.Json.{Json}
use event_driven_tests_ai.Events.{Event, append, Time}
use event_driven_tests_ai.Spec.{ProduceStep, HttpStep, GrpcStep}
use event_driven_tests_ai.Orchestrator.{
  State, StepResult, passed, failed, cancelled, record_previous, previous_from_payload,
}
use event_driven_tests_ai.Orchestrator.Runner.{
  Library, Setup, Answer, answered, refused, encode_for_wire, resolve_payload, expand_in,
}
use event_driven_tests_ai.Orchestrator.Produce.{
  Attempt, deliver, key_of, attempt, produce, run_produce, injected_event, sent_event, rate_hits,
  at_rate, effective_count,
}
use event_driven_tests_ai.Orchestrator.Expectation.{Response}
use event_driven_tests_ai.Orchestrator.Calls.{
  GrpcReply, after_call, run_http, after_invoke, run_grpc,
}
use event_driven_tests_ai.Orchestrator.Growth.{
  Grows, grown_to, unmoved, Grows-append, Grown, if-Grown, or_fail-Grown, after-Grown,
}

module _ {F : Type 0} (lib : Library F) (setup : Setup F) where
  deliver-Grows :
      (p : ProduceStep F) (x : F) (a : Attempt F) (key : String) (payload : Json F) (value : List ℕ)
      (s : State (Json F))
      → Grows p.topic s.store (deliver lib setup p x a key payload value s).store
  unfolding record_previous previous_from_payload
  deliver-Grows p x a key payload value s = elim (Bool-cases (rate_hits lib setup p x)) [
    | inl hit ↦
        rw hit (Grows-append (injected_event lib setup p key payload value a.at) s.store refl)
    | inr miss ↦
        rw miss (Grows-append (sent_event lib setup p key payload a.broker_fails a.at) s.store refl)
  ]

  attempt-Grown :
      (p : ProduceStep F) (x : F) (a : Attempt F)
      (go_on : State (Json F) → StepResult × State (Json F)) (s : State (Json F))
      → ((t : State (Json F)) → Grown p.topic t (go_on t))
      → Grown p.topic s (attempt lib setup p x a go_on s)
  attempt-Grown p x a go_on s g =
      or_fail-Grown (resolve_payload lib setup (expand_in lib setup s p.payload) a.generated) _ s
        λ payload.
          or_fail-Grown (encode_for_wire lib setup a.codec p.schema_subject payload) _ s λ value.
            let t =
              deliver lib setup p x a (key_of lib setup (expand_in lib setup s p.key) payload)
                payload value s in
            after-Grown s t (go_on t) (deliver-Grows p x a _ payload value s) (g t)

  pub produce-Grown :
      (p : ProduceStep F) (name : String) (attempts : ℕ → Attempt F) (tick k i : ℕ)
      (s : State (Json F))
      → Grown p.topic s (produce lib setup p name attempts tick k i s)
  unfolding produce
  produce-Grown p name attempts tick zero i s = unmoved s passed
  produce-Grown p name attempts tick (suc k) i s =
      if-Grown s (attempts i).cancelled_before _ _ (unmoved s _) (
        attempt-Grown p (lib.draw name i) (attempts i) _ s λ t.
          if-Grown t (ltb 0 tick && ltb 0 k && (attempts i).cancelled_pausing) (failed cancelled, t)
            _ (unmoved t _) (produce-Grown p name attempts tick k (suc i) t))

  at_rate-Grown :
      (tick : Option ℕ) (p : ProduceStep F) (name : String) (attempts : ℕ → Attempt F)
      (s : State (Json F))
      → Grown p.topic s (at_rate lib setup tick p name attempts s)
  at_rate-Grown none p name attempts s = unmoved s _
  at_rate-Grown (some tick) p name attempts s =
      produce-Grown p name attempts tick (effective_count p.count) 0 s

  pub run_produce-Grown :
      (p : ProduceStep F) (name : String) (attempts : ℕ → Attempt F) (s : State (Json F))
      → Grown p.topic s (run_produce lib setup p name attempts s)
  unfolding run_produce
  run_produce-Grown p name attempts s = search (if-Grown, unmoved, at_rate-Grown)

  with_event-Grown :
      (e : Event (Json F)) (s : State (Json F))
      → Grown e.stream s (passed, record s { store = append e s.store })
  with_event-Grown e s = grown_to passed _ (Grows-append e s.store refl)

  after_call-Grown :
      (h : HttpStep F (Json F)) (at : Time) (s : State (Json F)) (a : Answer (Response F))
      → Grown (str_append "http:" h.path) s (after_call lib setup h at s a)
  unfolding record_previous
  after_call-Grown h at s (refused e) = grown_to passed _ (Grows-append _ s.store refl)
  after_call-Grown h at s (answered r) =
      if-Grown s _ _ _ (grown_to passed _ (Grows-append _ s.store refl))
        (grown_to (failed _) _ (Grows-append _ s.store refl))

  pub run_http-Grown :
      (h : HttpStep F (Json F)) (name : String) (call : HttpStep F (Json F) → Answer (Response F))
      (at : Time) (s : State (Json F))
      → Grown
          (str_append "http:" (expand_in lib setup s h.path))
          s
          (run_http lib setup h name call at s)
  unfolding run_http
  run_http-Grown h name call at s = search (if-Grown, unmoved, with_event-Grown, after_call-Grown)

  after_invoke-Grown :
      (g : GrpcStep (Json F)) (at : Time) (s : State (Json F)) (a : Answer (GrpcReply F))
      → Grown (str_append "grpc:" g.method) s (after_invoke lib setup g at s a)
  unfolding record_previous
  after_invoke-Grown g at s (refused e) = unmoved s _
  after_invoke-Grown g at s (answered r) =
      if-Grown s _ _ _ (grown_to passed _ (Grows-append _ s.store refl))
        (grown_to (failed _) _ (Grows-append _ s.store refl))

  pub run_grpc-Grown :
      (g : GrpcStep (Json F)) (invoke : String → Answer (GrpcReply F)) (at : Time)
      (s : State (Json F))
      → Grown (str_append "grpc:" g.method) s (run_grpc lib setup g invoke at s)
  unfolding run_grpc
  run_grpc-Grown g invoke at s = search (if-Grown, unmoved, after_invoke-Grown)
