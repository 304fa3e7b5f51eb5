-- ===== src/Orchestrator/Passing.antt =====
-- When a step that listens passes.
use event_driven_tests_ai.Common.{
  ℕ, suc, String, List, [], ◌∷◌, ◌≡◌, ◌≢◌, refl, sym, ap, if◌then◌else◌, Bool, true, false, Option,
  none, some, ◌==◌, string_comparable, eq_iff, Bool-cases, inl, inr,
}
use mathlib.Core.Bool.{true≢false}
use mathlib.Core.List.{Memᴰ}
use mathlib.Core.List.Memᴰ.{head, tail}
use event_driven_tests_ai.Common.Dict.{Dict, lookup}
use event_driven_tests_ai.Common.Int.{pos}
use event_driven_tests_ai.Events.{append}
use event_driven_tests_ai.Spec.{MatchRule, SlowMode, ConsumeStep}
use event_driven_tests_ai.Orchestrator.{
  State, StepError, StepResult, passed, failed, Payloads, previous_from_payload, record_previous,
}
use event_driven_tests_ai.Orchestrator.Matcher.{
  Cel, matcher, Matched, matched, match_error, matches, compile_matcher,
}
use event_driven_tests_ai.Orchestrator.Consume.{
  Delivery, Ending, deadline_exceeded, context_cancelled, port_error, no_error, ended,
  consumed_event, satisfied, interruption, pausing, after_record, consume, with_slow_mode,
  run_consume,
}
use event_driven_tests_ai.Orchestrator.Previous.{remembered, lookup-put_all-previous}
use event_driven_tests_ai.Orchestrator.Receive.{
  Round, Listen, Pause, no_pause, pause_for, bad_pause, pause_after, event_of, after_pause,
  after_match, match_of, arrived, receive, reached,
}

-- A step that passes saw an event that a rule matched, and remembers it for the next step; one that
-- fails remembers what it was given.
pub data IsMatched {P : Type 0} (cel : Cel P) (ps : Payloads P) (rules : List MatchRule)
    (before : Dict String P) : StepResult × State P → Type 0 where
  on_event :
      (id : String) (payload : P) (s : State P)
      → matches cel rules payload before ≡ matched true
      → s.previous ≡ (record_previous (previous_from_payload ps id payload) s).previous
      → IsMatched cel ps rules before (passed, s)
  unchanged :
      (e : StepError) (s : State P)
      → s.previous ≡ before
      → IsMatched cel ps rules before (failed e, s)

module _ {P : Type 0} (cel : Cel P) (ps : Payloads P) (rules : List MatchRule) where
  if-IsMatched :
      (before : Dict String P) (b : Bool) (x y : StepResult × State P)
      → IsMatched cel ps rules before x
      → IsMatched cel ps rules before y
      → IsMatched cel ps rules before (if b then x else y)
  if-IsMatched before true x y h k = h
  if-IsMatched before false x y h k = k

  skip-IsMatched :
      (before : Dict String P) (b : Bool) (x y : StepResult × State P)
      → b ≡ false
      → IsMatched cel ps rules before y
      → IsMatched cel ps rules before (if b then x else y)
  skip-IsMatched before true x y e k = elim (true≢false e) [ ]
  skip-IsMatched before false x y e k = k

  after_pause-IsMatched :
      (step : Listen P) (before : Dict String P) (p : Pause) (r : Round P)
      (rest : StepResult × State P) (s : State P)
      → s.previous ≡ before
      → IsMatched cel ps rules before rest
      → IsMatched cel ps rules before (after_pause cel ps step (matcher rules) p r rest s)
  after_pause-IsMatched step before no_pause r rest s e k = k
  after_pause-IsMatched step before bad_pause r rest s e k = unchanged _ s e
  after_pause-IsMatched step before (pause_for d) r rest s e k =
      if-IsMatched before _ _ rest (unchanged _ s e) k

  after_match-IsMatched :
      (step : Listen P) (before : Dict String P) (o : Matched) (id : String) (payload : P) (n : ℕ)
      (r : Round P) (rest : StepResult × State P) (s : State P)
      → step.count ≡ pos 0
      → s.previous ≡ before
      → matches cel rules payload before ≡ o
      → IsMatched cel ps rules before rest
      → IsMatched cel ps rules before
          (after_match cel ps step (matcher rules) o id payload n r rest s)
  unfolding record_previous
  after_match-IsMatched step before (match_error x) id payload n r rest s c e h k = unchanged _ s e
  after_match-IsMatched step before (matched true) id payload n r rest s c e h k =
      on_event id payload _ h refl
  after_match-IsMatched step before (matched false) id payload n r rest s c e h k =
      skip-IsMatched before (reached step.count n) _ _ (ap (λ z. reached z n) c) (
        after_pause-IsMatched step before (pause_after step.parse_duration step.slow_mode n) r rest
          s e k)

  arrived-IsMatched :
      (step : Listen P) (before : Dict String P) (o : Option (String × P)) (r : Round P)
      (go_on : String → P → StepResult × State P) (s : State P)
      → s.previous ≡ before
      → ((id : String) (payload : P) → IsMatched cel ps rules before (go_on id payload))
      → IsMatched cel ps rules before (arrived cel ps step (matcher rules) o r go_on s)
  arrived-IsMatched step before none r go_on s e k =
      if-IsMatched before r.cancelled_after _ _ (unchanged _ s e)
        (if-IsMatched before r.expired_after _ _ (unchanged _ s e) (unchanged _ s e))
  arrived-IsMatched step before (some (id, payload)) r go_on s e k = k id payload

  receive-IsMatched_from :
      (step : Listen P) (before : Dict String P) (rs : List (Round P)) (n : ℕ) (s : State P)
      → step.count ≡ pos 0
      → s.previous ≡ before
      → IsMatched cel ps rules before (receive cel ps step (matcher rules) rs n s)
  unfolding receive
  receive-IsMatched_from step before [] n s c e = unchanged _ s e
  receive-IsMatched_from step before (r ∷ rs) n s c e =
      if-IsMatched before r.cancelled_before _ _ (unchanged _ s e) (
        if-IsMatched before r.expired_before _ _ (unchanged _ s e) (
          arrived-IsMatched step before r.arrival r _ s e (λ id payload.
            let s' : State P = record s {
              store = append (event_of cel ps step (matcher rules) payload r.at) s.store;
            } in
            after_match-IsMatched step before (match_of cel (matcher rules) payload s') id payload
              (suc n) r (receive cel ps step (matcher rules) rs (suc n) s') s' c e
              (ap (matches cel rules payload) (sym e))
              (receive-IsMatched_from step before rs (suc n) s' c e))))

  -- A step that listens with match rules and no count passes only on an event that one of the rules
  -- matched, and it remembers the fields of that event; however the events, the deadline and a
  -- cancellation fall, a step that fails leaves the fields of the step before.
  pub receive-IsMatched :
      (step : Listen P) (rs : List (Round P)) (s : State P)
      → step.count ≡ pos 0
      → IsMatched cel ps rules s.previous (receive cel ps step (matcher rules) rs 0 s)
  receive-IsMatched step rs s c = receive-IsMatched_from step s.previous rs 0 s c refl

-- A consume step that passes saw one of the delivered records, of its topic, that a rule matched, and
-- remembers its key and its fields for the next step; one that fails remembers what it was given.
pub data IsConsumed {P : Type 0} (cel : Cel P) (ps : Payloads P) (rules : List MatchRule)
    (topic : String) (ds : List (Delivery P)) (before : Dict String P)
    : StepResult × State P → Type 0 where
  on_record :
      (d : Delivery P) (s : State P)
      → Memᴰ d ds
      → d.topic ≡ topic
      → matches cel rules d.payload before ≡ matched true
      → ((name : String) → lookup name s.previous ≡ remembered ps d.key d.payload name)
      → IsConsumed cel ps rules topic ds before (passed, s)
  unmatched :
      (e : StepError) (s : State P)
      → s.previous ≡ before
      → IsConsumed cel ps rules topic ds before (failed e, s)

module _ {P : Type 0} (cel : Cel P) (ps : Payloads P) (rules : List MatchRule)
    (topic : String) where
  if-IsConsumed :
      (ds : List (Delivery P)) (before : Dict String P) (b : Bool) (x y : StepResult × State P)
      → IsConsumed cel ps rules topic ds before x
      → IsConsumed cel ps rules topic ds before y
      → IsConsumed cel ps rules topic ds before (if b then x else y)
  if-IsConsumed ds before true x y h k = h
  if-IsConsumed ds before false x y h k = k

  later-IsConsumed :
      (d : Delivery P) (ds : List (Delivery P)) (before : Dict String P) (x : StepResult × State P)
      → IsConsumed cel ps rules topic ds before x
      → IsConsumed cel ps rules topic (d ∷ ds) before x
  later-IsConsumed d ds before _ (on_record r s m t h e) = on_record r s (tail m) t h e
  later-IsConsumed d ds before _ (unmatched x s e) = unmatched x s e

  refused-IsConsumed :
      (ds : List (Delivery P)) (e : StepError) (s : State P)
      → IsConsumed cel ps rules topic ds s.previous (failed e, s)
  refused-IsConsumed ds e s = unmatched e s refl

  interruption-IsConsumed :
      (ds : List (Delivery P)) (before : Dict String P) (slow : Option (SlowMode × ℕ))
      (o : Option StepError) (rest : StepResult × State P) (s : State P)
      → s.previous ≡ before
      → IsConsumed cel ps rules topic ds before rest
      → IsConsumed cel ps rules topic ds before (interruption cel ps (matcher rules) slow o rest s)
  interruption-IsConsumed ds before slow none rest s e k = k
  interruption-IsConsumed ds before slow (some x) rest s e k = unmatched x s e

  after_record-IsConsumed :
      (ds : List (Delivery P)) (before : Dict String P) (slow : Option (SlowMode × ℕ)) (n : ℕ)
      (d : Delivery P) (rest : StepResult × State P) (s : State P) (o : Matched)
      → d.topic ≡ topic
      → s.previous ≡ before
      → matches cel rules d.payload before ≡ o
      → IsConsumed cel ps rules topic (d ∷ ds) before rest
      → IsConsumed cel ps rules topic
          (d ∷ ds)
          before
          (after_record cel ps (matcher rules) slow o d n rest s)
  unfolding record_previous
  after_record-IsConsumed ds before slow n d rest s (match_error x) t e h k = unmatched _ s e
  after_record-IsConsumed ds before slow n d rest s (matched true) t e h k =
      on_record d _ (head refl) t h (lookup-put_all-previous ps d.key d.payload)
  after_record-IsConsumed ds before slow n d rest s (matched false) t e h k =
      if-IsConsumed (d ∷ ds) before (pausing cel ps (matcher rules) slow slow n) _ rest
        (interruption-IsConsumed (d ∷ ds) before slow d.interrupted rest s e k) k

  ended-IsConsumed :
      (before : Dict String P) (end : Ending) (s : State P)
      → s.previous ≡ before
      → end ≢ no_error
      → IsConsumed cel ps rules topic [] before (ended end, s)
  ended-IsConsumed before deadline_exceeded s e h = unmatched _ s e
  ended-IsConsumed before context_cancelled s e h = unmatched _ s e
  ended-IsConsumed before (port_error x) s e h = unmatched _ s e
  ended-IsConsumed before no_error s e h = elim (h refl) [ ]

  consume-IsConsumed :
      (slow : Option (SlowMode × ℕ)) (ds : List (Delivery P)) (end : Ending)
      (before : Dict String P) (n : ℕ) (s : State P)
      → end ≢ no_error
      → s.previous ≡ before
      → IsConsumed cel ps rules topic ds before
          (consume cel ps (matcher rules) slow topic ds end n s)
  unfolding consume
  consume-IsConsumed slow [] end before n s h e = ended-IsConsumed before end s e h
  consume-IsConsumed slow (d ∷ ds) end before n s h e =
      let s' : State P = record s {
        store = append (consumed_event cel ps (matcher rules) slow d) s.store;
      } in
      elim (Bool-cases (d.topic == topic)) [
        | inl own ↦ rw own (
            after_record-IsConsumed ds before slow (suc n) d
              (consume cel ps (matcher rules) slow topic ds end (suc n) s') s'
              (satisfied cel (matcher rules) d.payload s') ((eq_iff d.topic topic).0 own) e
              (ap (matches cel rules d.payload) (sym e))
              (later-IsConsumed d ds before _
                (consume-IsConsumed slow ds end before (suc n) s' h e)))
        | inr other ↦
            rw other
              (later-IsConsumed d ds before _ (consume-IsConsumed slow ds end before n s h e))
      ]

module _ {P : Type 0} (cel : Cel P) (ps : Payloads P) (parse_duration : String → Option ℕ) where
  with_slow_mode-IsConsumed :
      (rules : List MatchRule) (slow : Option (Option (SlowMode × ℕ))) (topic : String)
      (ds : List (Delivery P)) (end : Ending) (s : State P)
      → end ≢ no_error
      → IsConsumed cel ps rules topic ds s.previous
          (with_slow_mode cel ps parse_duration (matcher rules) slow topic ds end s)
  with_slow_mode-IsConsumed rules none topic ds end s h = unmatched _ s refl
  with_slow_mode-IsConsumed rules (some slow) topic ds end s h =
      consume-IsConsumed cel ps rules topic slow ds end s.previous 0 s h refl

  -- A consume step whose rules compile to some that are not blank passes only on a delivered record of
  -- its topic that one of the rules matched, and what it remembers then is that record: the fields of
  -- its payload, or the payload as a field if it is no object, and the key, unless a field of the
  -- payload is called so. Whatever records of its own or of other topics come before, and whatever is
  -- wrong with the step, one that fails leaves the fields of the step before. The client must not end
  -- the subscription without an error, which the one of pkg/kafka never does.
  pub run_consume-IsConsumed :
      (expand : String → String) (has_kafka : Bool) (c : ConsumeStep) (ds : List (Delivery P))
      (end : Ending) (s : State P) (rules : List MatchRule)
      → compile_matcher cel c.matching ≡ matcher rules
      → end ≢ no_error
      → IsConsumed cel ps rules
          (expand c.topic)
          ds
          s.previous
          (run_consume cel ps parse_duration expand has_kafka c ds end s)
  unfolding run_consume
  run_consume-IsConsumed expand has_kafka c ds end s rules compiles h =
      rw compiles
        (search (if-IsConsumed, refused-IsConsumed cel ps rules, with_slow_mode-IsConsumed, h))
