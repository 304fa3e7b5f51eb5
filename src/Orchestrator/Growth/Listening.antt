-- ===== src/Orchestrator/Growth/Listening.antt =====
-- The steps that listen only append to the event store.
use event_driven_tests_ai.Common.{
  ℕ, suc, String, List, [], ◌∷◌, Bool, true, false, Option, none, some, refl, ◌==◌, eq_iff,
  string_comparable, Bool-cases, inl, inr,
}
use event_driven_tests_ai.Events.{append}
use event_driven_tests_ai.Spec.{SlowMode, ConsumeStep}
use event_driven_tests_ai.Orchestrator.{
  State, StepError, StepResult, passed, Payloads, record_previous,
}
use event_driven_tests_ai.Orchestrator.Matcher.{
  Cel, Compiled, no_matcher, matcher, compile_error, Matched, matched, match_error,
}
use event_driven_tests_ai.Orchestrator.Consume.{
  Delivery, Ending, consumed_event, satisfied, interruption, pausing, after_record, consume,
  run_consume, with_slow_mode,
}
use event_driven_tests_ai.Orchestrator.Receive.{
  Round, Listen, Pause, no_pause, pause_for, bad_pause, pause_after, event_of, after_pause,
  after_match, match_of, arrived, receive, reached,
}
use event_driven_tests_ai.Orchestrator.Growth.{
  grown_to, unmoved, Grows-refl, Grows-append, Grown, if-Grown, after-Grown,
}

module _ {P : Type 0} (cel : Cel P) (ps : Payloads P) (m : Compiled) where
  after_pause-Grown :
      {name : String} (step : Listen P) (p : Pause) (r : Round P) (rest : StepResult × State P)
      (s : State P)
      → Grown name s rest
      → Grown name s (after_pause cel ps step m p r rest s)
  after_pause-Grown step no_pause r rest s g = g
  after_pause-Grown step bad_pause r rest s g = unmoved s _
  after_pause-Grown step (pause_for d) r rest s g = search (if-Grown, unmoved, g)

  after_match-Grown :
      {name : String} (step : Listen P) (o : Matched) (id : String) (payload : P) (n : ℕ)
      (r : Round P) (rest : StepResult × State P) (s : State P)
      → Grown name s rest
      → Grown name s (after_match cel ps step m o id payload n r rest s)
  unfolding record_previous
  after_match-Grown step (match_error e) id payload n r rest s g = unmoved s _
  after_match-Grown step (matched true) id payload n r rest s g =
      grown_to passed _ (Grows-refl _ s.store)
  after_match-Grown step (matched false) id payload n r rest s g =
      if-Grown s (reached step.count n) _ _ (unmoved s _)
        (after_pause-Grown step (pause_after step.parse_duration step.slow_mode n) r rest s g)

  arrived-Grown :
      {name : String} (step : Listen P) (o : Option (String × P)) (r : Round P)
      (go_on : String → P → StepResult × State P) (s : State P)
      → ((id : String) (payload : P) → Grown name s (go_on id payload))
      → Grown name s (arrived cel ps step m o r go_on s)
  arrived-Grown step none r go_on s g =
      if-Grown s r.cancelled_after _ _ (unmoved s _)
        (if-Grown s r.expired_after _ _ (unmoved s _) (unmoved s _))
  arrived-Grown step (some (id, payload)) r go_on s g = g id payload

  pub receive-Grown :
      (step : Listen P) (rs : List (Round P)) (n : ℕ) (s : State P)
      → Grown step.stream s (receive cel ps step m rs n s)
  unfolding receive
  receive-Grown step [] n s = unmoved s _
  receive-Grown step (r ∷ rs) n s = if-Grown s r.cancelled_before _ _ (unmoved s _) (
      if-Grown s r.expired_before _ _ (unmoved s _) (
        arrived-Grown step r.arrival r _ s (λ id payload.
          let s' : State P = record s {
            store = append (event_of cel ps step m payload r.at) s.store;
          } in
          after-Grown s s' _ (Grows-append (event_of cel ps step m payload r.at) s.store refl) (
            after_match-Grown step (match_of cel m payload s') id payload (suc n) r
              (receive cel ps step m rs (suc n) s') s' (receive-Grown step rs (suc n) s')))))

  interruption-Grown :
      {name : String} (slow : Option (SlowMode × ℕ)) (o : Option StepError)
      (rest : StepResult × State P) (s : State P)
      → Grown name s rest
      → Grown name s (interruption cel ps m slow o rest s)
  interruption-Grown slow none rest s g = g
  interruption-Grown slow (some e) rest s g = unmoved s _

  after_record-Grown :
      {name : String} (slow : Option (SlowMode × ℕ)) (o : Matched) (d : Delivery P) (n : ℕ)
      (rest : StepResult × State P) (s : State P)
      → Grown name s rest
      → Grown name s (after_record cel ps m slow o d n rest s)
  unfolding record_previous
  after_record-Grown slow (match_error e) d n rest s g = unmoved s _
  after_record-Grown slow (matched true) d n rest s g = grown_to passed _ (Grows-refl _ s.store)
  after_record-Grown slow (matched false) d n rest s g =
      if-Grown s (pausing cel ps m slow slow n) _ rest
        (interruption-Grown slow d.interrupted rest s g) g

  pub consume-Grown :
      (slow : Option (SlowMode × ℕ)) (topic : String) (ds : List (Delivery P)) (end : Ending)
      (n : ℕ) (s : State P)
      → Grown topic s (consume cel ps m slow topic ds end n s)
  unfolding consume
  consume-Grown slow topic [] end n s = unmoved s _
  consume-Grown slow topic (d ∷ ds) end n s =
      let s' : State P = record s { store = append (consumed_event cel ps m slow d) s.store } in
      elim (Bool-cases (d.topic == topic)) [
        | inl own ↦ rw own (
            after-Grown s s' _
              (Grows-append (consumed_event cel ps m slow d) s.store ((eq_iff d.topic topic).0 own))
              (after_record-Grown slow (satisfied cel m d.payload s') d (suc n) _ s'
                (consume-Grown slow topic ds end (suc n) s')))
        | inr other ↦ rw other (consume-Grown slow topic ds end n s)
      ]

module _ {P : Type 0} (cel : Cel P) (ps : Payloads P) (parse_duration : String → Option ℕ) where
  with_slow_mode-Grown :
      (c : Compiled) (slow : Option (Option (SlowMode × ℕ))) (topic : String)
      (ds : List (Delivery P)) (end : Ending) (s : State P)
      → Grown topic s (with_slow_mode cel ps parse_duration c slow topic ds end s)
  with_slow_mode-Grown (compile_error e) slow topic ds end s = unmoved s _
  with_slow_mode-Grown no_matcher none topic ds end s = unmoved s _
  with_slow_mode-Grown no_matcher (some slow) topic ds end s =
      consume-Grown cel ps no_matcher slow topic ds end 0 s
  with_slow_mode-Grown (matcher rules) none topic ds end s = unmoved s _
  with_slow_mode-Grown (matcher rules) (some slow) topic ds end s =
      consume-Grown cel ps (matcher rules) slow topic ds end 0 s

  pub run_consume-Grown :
      (expand : String → String) (has_kafka : Bool) (c : ConsumeStep) (ds : List (Delivery P))
      (end : Ending) (s : State P)
      → Grown (expand c.topic) s (run_consume cel ps parse_duration expand has_kafka c ds end s)
  unfolding run_consume
  run_consume-Grown expand has_kafka c ds end s = search (if-Grown, unmoved, with_slow_mode-Grown)
