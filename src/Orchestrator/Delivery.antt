-- ===== src/Orchestrator/Delivery.antt =====
-- What a produce step that nothing hinders leaves: one event for each record it was asked for.
use mathlib.Core.Bool.{true≢false}
use event_driven_tests_ai.Common.{
  any, some, not, ◌==◌, and_false, Bool, ℕ, zero, suc, String, List, [], ◌∷◌, ◌≡◌, refl, ◌∙◌, ap,
  arith, Bool-cases, inl, inr, ltb, ◌&&◌, true, false, All, length, string_comparable,
  if◌then◌else◌,
}
use event_driven_tests_ai.Common.Int.{wanted, if-wanted}
use event_driven_tests_ai.Json.{Json}
use event_driven_tests_ai.Events.{Event, append}
use event_driven_tests_ai.Events.Retention.{append_all}
use event_driven_tests_ai.Spec.{ProduceStep}
use event_driven_tests_ai.Orchestrator.{
  State, StepResult, passed, failed, cancelled, record_previous, previous_from_payload,
}
use event_driven_tests_ai.Orchestrator.Runner.{
  Library, Setup, Answer, answered, encode_for_wire, resolve_payload, expand_in,
}
use event_driven_tests_ai.Orchestrator.Produce.{
  Attempt, deliver, key_of, attempt, produce, injected_event, sent_event, rate_hits, run_produce,
  at_rate, parse_rate, valid_produce_fail_mode,
}

abbrev pub IsAnswered : {A : Type 0} → Answer A → Type 0
IsAnswered {A} a = (x : A) × (a ≡ answered x)

-- The failures that can be injected, and the empty mode.
abbrev pub fail_modes : List String
fail_modes = "" ∷ "timeout" ∷ "broker_not_available" ∷ "schema_violation" ∷ []

valid_mode :
    (mode : String) → any (λ m. mode == m) fail_modes ≡ true → valid_produce_fail_mode mode ≡ true
unfolding valid_produce_fail_mode
valid_mode mode h = ground (arith, h)

module _ {F : Type 0} (lib : Library F) (setup : Setup F) where
  -- No round is cancelled, and each finds a payload, whatever the steps before left.
  pub record IsUnhindered (p : ProduceStep F) (attempts : ℕ → Attempt F) : Type 0 where
    pub runs_on : (i : ℕ) → (attempts i).cancelled_before ≡ false
    pub waits : (i : ℕ) → (attempts i).cancelled_pausing ≡ false
    pub resolves :
        (i : ℕ) (t : State (Json F))
        → IsAnswered
            (resolve_payload lib setup (expand_in lib setup t p.payload) (attempts i).generated)
    pub encodes :
        (i : ℕ) (payload : Json F)
        → IsAnswered (encode_for_wire lib setup (attempts i).codec p.schema_subject payload)

  -- The step passed, and appended that many events on the topic.
  pub record IsDelivered (topic : String) (n : ℕ) (s : State (Json F))
      (x : StepResult × State (Json F)) : Type 0 where
    pub result : x.0 ≡ passed
    pub events : List (Event (Json F))
    pub count : length events ≡ n
    pub on_topic : All (λ e. e.stream ≡ topic) events
    pub grown : x.1.store ≡ append_all events s.store

  record OneEvent (topic : String) (s t : State (Json F)) : Type 0 where
    event : Event (Json F)
    on_topic : event.stream ≡ topic
    grown : t.store ≡ append event s.store

  deliver-OneEvent :
      (p : ProduceStep F) (x : F) (a : Attempt F) (key : String) (payload : Json F) (value : List ℕ)
      (s : State (Json F))
      → OneEvent p.topic s (deliver lib setup p x a key payload value s)
  unfolding record_previous previous_from_payload
  deliver-OneEvent p x a key payload value s = elim (Bool-cases (rate_hits lib setup p x)) [
    | inl hit ↦ rw hit (record {
      event = injected_event lib setup p key payload value a.at;
      on_topic = refl;
      grown = refl;
    })
    | inr miss ↦ rw miss (record {
      event = sent_event lib setup p key payload a.broker_fails a.at;
      on_topic = refl;
      grown = refl;
    })
  ]

  one_more :
      (topic : String) (n : ℕ) (s t : State (Json F)) (x : StepResult × State (Json F))
      → OneEvent topic s t
      → IsDelivered topic n t x
      → IsDelivered topic (suc n) s x
  unfolding append_all
  one_more topic n s t x e d = record {
    result = d.result;
    events = e.event ∷ d.events;
    count = omega (arith, d.count);
    on_topic = (e.on_topic, d.on_topic);
    grown = d.grown ∙ ap (append_all d.events) e.grown;
  }

  attempt-IsDelivered :
      (p : ProduceStep F) (attempts : ℕ → Attempt F) (x : F) (i n : ℕ)
      (go_on : State (Json F) → StepResult × State (Json F)) (s : State (Json F))
      → IsUnhindered p attempts
      → ((t : State (Json F)) → IsDelivered p.topic n t (go_on t))
      → IsDelivered p.topic (suc n) s (attempt lib setup p x (attempts i) go_on s)
  attempt-IsDelivered p attempts x i n go_on s u h =
      let (payload, e) = u.resolves i s in
      let (value, f) = u.encodes i payload in
      let t =
        deliver lib setup p x (attempts i) (key_of lib setup (expand_in lib setup s p.key) payload)
          payload value s in
      rw (e, f)
        (one_more p.topic n s t (go_on t) (deliver-OneEvent p x (attempts i) _ payload value s)
          (h t))

  unless :
      {topic : String} {n : ℕ} {s : State (Json F)} (b : Bool) (x y : StepResult × State (Json F))
      → b ≡ false
      → IsDelivered topic n s y
      → IsDelivered topic n s (if b then x else y)
  unless true x y e d = elim (true≢false e) [ ]
  unless false x y e d = d

  produce-IsDelivered :
      (p : ProduceStep F) (name : String) (attempts : ℕ → Attempt F) (tick k i : ℕ)
      (s : State (Json F))
      → IsUnhindered p attempts
      → IsDelivered p.topic k s (produce lib setup p name attempts tick k i s)
  unfolding produce
  produce-IsDelivered p name attempts tick zero i s u =
      unfold append_all in
      record { result = refl; events = []; count = refl; on_topic = tt; grown = refl }
  produce-IsDelivered p name attempts tick (suc k) i s u =
      unless (attempts i).cancelled_before (failed cancelled, s) _ (u.runs_on i)
        (attempt-IsDelivered p attempts (lib.draw name i) i k
          (λ t.
            if ltb 0 tick && ltb 0 k && (attempts i).cancelled_pausing
            then (failed cancelled, t)
            else produce lib setup p name attempts tick k (suc i) t)
          s u
          (λ t.
            unless (ltb 0 tick && ltb 0 k && (attempts i).cancelled_pausing) (failed cancelled, t)
              (produce lib setup p name attempts tick k (suc i) t)
              (and_false (ltb 0 tick && ltb 0 k) (attempts i).cancelled_pausing (u.waits i))
              (produce-IsDelivered p name attempts tick k (suc i) t u)))

  -- With a Kafka client, a fail mode that there is and a rate that can be read, a produce step that no
  -- cancellation stops and whose payloads can be resolved and encoded passes, whatever the broker
  -- answers and whichever failures are injected; and it appends exactly as many events as its count
  -- says, and one where that is not positive, all of them on its topic.
  pub run_produce-IsDelivered :
      (p : ProduceStep F) (name : String) (attempts : ℕ → Attempt F) (tick : ℕ) (s : State (Json F))
      → setup.has_kafka ≡ true
      → any (λ mode. p.fail_mode == mode) fail_modes ≡ true
      → parse_rate p.rate ≡ some tick
      → IsUnhindered p attempts
      → IsDelivered p.topic (wanted p.count) s (run_produce lib setup p name attempts s)
  unfolding run_produce
  run_produce-IsDelivered p name attempts tick s kafka mode rate u =
      let v : not (valid_produce_fail_mode p.fail_mode) ≡ false =
        ap not (valid_mode p.fail_mode mode) in
      let rest : IsDelivered p.topic (wanted p.count) s
          (at_rate lib setup (parse_rate p.rate) p name attempts s) =
        rw (rate, if-wanted p.count)
          (produce-IsDelivered p name attempts tick (wanted p.count) 0 s u) in
      unless (not setup.has_kafka) _ _ (ap not kafka)
        (unless (not (valid_produce_fail_mode p.fail_mode)) _ _ v rest)
