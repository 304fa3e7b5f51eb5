-- ===== src/Orchestrator/Answering.antt =====
-- When an HTTP step passes, and what it leaves.
use Prim.Native.String.{◌++◌ as str_append}
use event_driven_tests_ai.Common.{
  String, [], ◌∷◌, ◌≡◌, refl, Bool, true, false, if◌then◌else◌, Bool-cases, inl, inr,
}
use event_driven_tests_ai.Common.Dict.{Dict}
use event_driven_tests_ai.Json.{Json, int}
use event_driven_tests_ai.Events.{Event, Time, append}
use event_driven_tests_ai.Spec.{HttpStep}
use event_driven_tests_ai.Orchestrator.{
  State, other_error, StepResult, passed, failed, record_previous,
}
use event_driven_tests_ai.Orchestrator.Runner.{Library, Setup, Answer, answered, refused}
use event_driven_tests_ai.Orchestrator.Expectation.{Response, fulfilled}
use event_driven_tests_ai.Orchestrator.Calls.{
  run_http, expanded_http, http_hits, after_call, valid_http_fail_mode, http_event,
  response_payload,
}

module _ {F : Type 0} (lib : Library F) (setup : Setup F) where
  -- Only an answer that is not what was expected is an error of the step.
  abbrev pub met : Bool → HttpStep F (Json F) → Answer (Response F) → Bool
  met true h a = true
  met false h (refused e) = true
  met false h (answered r) = fulfilled lib h.expect r

  abbrev pub remembered :
      Bool
      → HttpStep F (Json F)
      → Answer (Response F)
      → Dict String (Json F)
      → State (Json F)
      → Dict String (Json F)
  remembered true h a before s = before
  remembered false h (refused e) before s = before
  remembered false h (answered r) before s =
      if fulfilled lib h.expect r
      then (record_previous (("status", int r.status) ∷ ("body", r.body) ∷ []) s).previous
      else before

  pub record IsCalled (h : HttpStep F (Json F)) (hit : Bool) (a : Answer (Response F))
      (s : State (Json F)) (x : StepResult × State (Json F)) : Type 0 where
    pub result : x.0 ≡ (if met hit h a then passed else failed (other_error "http expect"))
    pub event : Event (Json F)
    pub stream : event.stream ≡ str_append "http:" h.path
    pub grown : x.1.store ≡ append event s.store
    pub previous : x.1.previous ≡ remembered hit h a s.previous s

  after_call-IsCalled :
      (h : HttpStep F (Json F)) (at : Time) (s : State (Json F)) (a : Answer (Response F))
      → IsCalled h false a s (after_call lib setup h at s a)
  unfolding record_previous
  after_call-IsCalled h at s (refused e) = record {
    result = refl;
    event = _;
    stream = refl;
    grown = refl;
    previous = refl;
  }
  after_call-IsCalled h at s (answered r) = elim (Bool-cases (fulfilled lib h.expect r)) [
    | inl met ↦ rw met (record {
      result = rw met;
      event = http_event lib setup h.path (response_payload lib setup r) at;
      stream = refl;
      grown = refl;
      previous = rw met;
    })
    | inr unmet ↦ rw unmet (record {
      result = rw unmet;
      event = http_event lib setup h.path (response_payload lib setup r) at;
      stream = refl;
      grown = refl;
      previous = rw unmet;
    })
  ]

  -- An HTTP step with a client and a fail mode that is known: it appends one event, on the stream of
  -- its path with the references replaced; it fails exactly when no failure was injected and the
  -- call was answered by what the step does not expect, so a call that fails and an injected failure
  -- both pass; and the fields of the previous step change only when the call was answered as expected.
  pub run_http-IsCalled :
      (h : HttpStep F (Json F)) (name : String) (call : HttpStep F (Json F) → Answer (Response F))
      (at : Time) (s : State (Json F))
      → setup.has_http ≡ true
      → valid_http_fail_mode h.fail_mode ≡ true
      → IsCalled
          (expanded_http lib setup s h)
          (http_hits lib setup h name)
          (call (expanded_http lib setup s h))
          s
          (run_http lib setup h name call at s)
  unfolding run_http
  run_http-IsCalled h name call at s client valid = elim (Bool-cases (http_hits lib setup h name)) [
    | inl hit ↦
        simp (client, valid, hit)
          (record { result = refl; event = _; stream = refl; grown = refl; previous = refl })
    | inr miss ↦
        simp (client, valid, miss)
          (after_call-IsCalled (expanded_http lib setup s h) at s
            (call (expanded_http lib setup s h)))
  ]
