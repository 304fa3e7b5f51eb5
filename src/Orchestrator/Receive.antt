-- ===== src/Orchestrator/Receive.antt =====
-- The loops of runSSE and runWebSocket in pkg/orchestrator: reading from an open session until a
-- rule matches, enough events came, or the time is up. The two differ in the stream's name and in
-- the key under which an event is remembered: a WebSocket message has the id "".
use event_driven_tests_ai.Common.{
  ℕ, suc, ◌%◌, String, List, [], ◌∷◌, if◌then◌else◌, ◌&&◌, nat_comparable, leb, ltb, Bool, true,
  false, Option, none, some, min, nat_beq,
}
use event_driven_tests_ai.Common.Int.{ℤ, pos, negsuc}
use event_driven_tests_ai.Events.{Event, Time, append, consumed}
use event_driven_tests_ai.Spec.{SlowMode}
use event_driven_tests_ai.Orchestrator.{
  State, cancelled, timed_out, other_error, StepResult, passed, failed, Payloads,
  previous_from_payload, record_previous,
}
use event_driven_tests_ai.Orchestrator.Matcher.{
  Cel, Compiled, no_matcher, matcher, compile_error, Matched, matched, match_error, matches,
}

-- What one round of the loop meets. `remaining` is the time to the deadline when it pauses.
pub record Round (P : Type 0) : Type 0 where
  pub cancelled_before : Bool
  pub expired_before : Bool
  -- the id and the payload of an event, or none when the read fails
  pub arrival : Option (String × P)
  pub cancelled_after : Bool
  pub expired_after : Bool
  pub at : Time
  pub remaining : ℕ
  pub cancelled_pausing : Bool

-- The parts of a step that the loop reads. `parse_duration` is `time.ParseDuration`, with 0 for a
-- negative duration: the code treats the two alike.
pub record Listen (P : Type 0) : Type 0 where
  pub stream : String
  pub count : ℤ
  pub slow_mode : Option SlowMode
  pub parse_duration : String → Option ℕ

abbrev pub reached : ℤ → ℕ → Bool
reached (negsuc n) received = false
reached (pos n) received = ltb 0 n && leb n received

abbrev pub time_up : Compiled → StepResult
time_up no_matcher = passed
time_up (matcher rules) = failed timed_out
time_up (compile_error e) = failed (other_error e)

-- Whether a pause is due: its length, if it is well formed.
abbrev pub due_every : ℤ → ℕ → Bool
due_every (negsuc n) received = false
due_every (pos n) received = ltb 0 n && nat_beq (received % n) 0

pub data Pause : Type 0 where
  no_pause : Pause
  pause_for : ℕ → Pause
  bad_pause : Pause

abbrev pub parsed_pause : Option ℕ → Pause
parsed_pause none = bad_pause
parsed_pause (some d) = pause_for d

abbrev pub pause_after : (String → Option ℕ) → Option SlowMode → ℕ → Pause
pause_after parse none received = no_pause
pause_after parse (some m) received =
    if due_every m.pause_every received then parsed_pause (parse m.pause_for) else no_pause

abbrev pub match_of : {P : Type 0} → Cel P → Compiled → P → State P → Matched
match_of cel no_matcher payload s = matched false
match_of cel (matcher rules) payload s = matches cel rules payload s.previous
match_of cel (compile_error e) payload s = match_error e

module _ {P : Type 0} (cel : Cel P) (ps : Payloads P) (step : Listen P) (m : Compiled) where
  abbrev pub event_of : P → Time → Event P
  event_of payload at = record {
    stream = step.stream;
    key = "";
    ts = at;
    headers = [];
    payload = payload;
    direction = consumed;
  }

  abbrev pub after_pause : Pause → Round P → StepResult × State P → State P → StepResult × State P
  after_pause no_pause r rest s = rest
  after_pause bad_pause r rest s = (failed (other_error "invalid slow_mode.pause_for"), s)
  after_pause (pause_for d) r rest s =
      if ltb 0 (min d r.remaining) && r.cancelled_pausing then (failed cancelled, s) else rest

  abbrev pub after_match :
      Matched → String → P → ℕ → Round P → StepResult × State P → State P → StepResult × State P
  after_match (match_error e) id payload received r rest s = (failed (other_error e), s)
  after_match (matched true) id payload received r rest s =
      (passed, record_previous (previous_from_payload ps id payload) s)
  after_match (matched false) id payload received r rest s =
      if reached step.count received
      then (passed, s)
      else after_pause (pause_after step.parse_duration step.slow_mode received) r rest s

  abbrev pub read_failed : Round P → State P → StepResult × State P
  read_failed r s =
      if r.cancelled_after
      then (failed cancelled, s)
      else if r.expired_after
      then (time_up m, s)
      else (failed (other_error "read"), s)

  abbrev pub arrived :
      Option (String × P)
      → Round P
      → (String → P → StepResult × State P)
      → State P
      → StepResult × State P
  arrived none r go_on s = read_failed r s
  arrived (some (id, payload)) r go_on s = go_on id payload

  -- After the last round the time is up.
  unfoldable pub receive : List (Round P) → ℕ → State P → StepResult × State P
  receive [] received s = (time_up m, s)
  receive (r ∷ rs) received s =
      if r.cancelled_before
      then (failed cancelled, s)
      else if r.expired_before
      then (time_up m, s)
      else arrived r.arrival r
          (λ id payload.
            let s' = record s { store = append (event_of payload r.at) s.store } in
            after_match (match_of cel m payload s') id payload (suc received) r
              (receive rs (suc received) s') s')
          s
