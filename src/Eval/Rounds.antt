-- ===== src/Eval/Rounds.antt =====
-- RunInputs, RunIterations and scorePair of pkg/eval/executor.go: each input is paired with an output
-- of the agent and judged.
use Prim.Native.String.{◌++◌ as str_append}
use event_driven_tests_ai.Common.{
  ℕ, zero, suc, String, List, [], ◌∷◌, if◌then◌else◌, not, ltb, Bool, true, Option, none, some,
  length, take,
}
use event_driven_tests_ai.Common.Dict.{Dict}
use event_driven_tests_ai.Common.Int.{ℤ, pos, non_positive, pos_part}
use event_driven_tests_ai.Json.{Json, Fields, null, int, bool, text, obj, end, field}
use event_driven_tests_ai.Events.{Event}
use event_driven_tests_ai.Eval.{Floats, Score, Eval}
use event_driven_tests_ai.Eval.Executor.{Executor, observe}
use event_driven_tests_ai.Eval.Matching.{
  Used, Poll, MatchStatus, match_hit, match_timeout, match_cancelled, wait_for_output,
  snapshot_cursors, fresh_inputs_after,
}
pub mod Scoring
mod Examples

pub record Pair (G : Type 0) : Type 0 where
  pub input : Fields G
  pub output : Fields G
  pub scenario : String
  pub iteration : ℕ

-- `scenario.AgentUnderTest`
pub record Agent : Type 0 where
  pub consumes : List String
  pub produces : List String

-- `preview` is the JSON of the first 512 bytes of a text, `fingerprint` has a part of its SHA-256,
-- `bytes` is its length, and `unmarshal` is `json.Unmarshal` into a map.
pub record Blobs (G : Type 0) : Type 0 where
  pub unmarshal : String → Option (Fields G)
  pub preview : String → String
  pub bytes : String → ℕ
  pub fingerprint : String → String

module _ {G : Type 0} (blobs : Blobs G) where
  unfoldable pub untrusted_blob : String → String → Fields G
  untrusted_blob name t = field name (text (blobs.preview t)) (
      field "_bytes" (int (pos (blobs.bytes t))) (
        field "_truncated" (bool (ltb 512 (blobs.bytes t)))
          (field "_fingerprint" (text (blobs.fingerprint t)) (field "_untrusted" (bool true) end))))

  abbrev map_or_blob : String → Option (Fields G) → Fields G
  map_or_blob t none = untrusted_blob "_value" t
  map_or_blob t (some fs) = fs

  -- `asMap`. No payload of a run is a list of bytes.
  unfoldable pub as_map : Json G → Fields G
  as_map (obj fs) = fs
  as_map (text t) = map_or_blob t (blobs.unmarshal t)
  as_map v = field "_value" v end

  abbrev pub missing : Fields G
  missing =
      field "_missing" (bool true) (field "_reason" (text "no matching output within timeout") end)

-- An input with the iteration that it counts for, and the polls that its wait gets.
pub record Input (P : Type 0) : Type 0 where
  pub event : Event P
  pub iteration : ℕ
  pub polls : List (Poll P)

-- One iteration: a cancellation before it, the store before and after the events are seeded, the
-- error of seeding, and the polls that the n-th new input gets.
pub record Round (P : Type 0) : Type 0 where
  pub cancelled_before : Bool
  pub before : String → List (Event P)
  pub reseed_error : Option String
  pub after : String → List (Event P)
  pub polls : ℕ → List (Poll P)

unfoldable pub validate_agent : Option Agent → Option String
validate_agent none = some "eval: scenario.spec.agent_under_test is required"
validate_agent (some a) = elim a.produces [
  | [] ↦ some "eval: agent_under_test must declare at least one produces topic"
  | x ∷ xs ↦ none
]

abbrev pub agent_or_none : Option Agent → Agent
agent_or_none none = record { consumes = []; produces = [] }
agent_or_none (some a) = a

-- What a loop ends with: its error, the outputs that were matched, and the scores.
abbrev pub Ended : Type 0 → Type 0
Ended F = Option String × Used × Executor F

abbrev pub numbered : {P : Type 0} → ℕ → List (Event P × List (Poll P)) → List (Input P)
numbered i [] = []
numbered i ((e, ps) ∷ xs) = record { event = e; iteration = i; polls = ps } ∷ numbered (suc i) xs

abbrev pub of_round : {P : Type 0} → ℕ → (ℕ → List (Poll P)) → ℕ → List (Event P) → List (Input P)
of_round iteration polls n [] = []
of_round iteration polls n (e ∷ es) =
    record { event = e; iteration = iteration; polls = polls n }
    ∷ of_round iteration polls (suc n) es

abbrev pub limited : {A : Type 0} → ℤ → List A → List A
limited limit xs = if non_positive limit then xs else take (pos_part limit) xs

abbrev pub if_valid : {F : Type 0} → Option String → Ended F → Executor F → Ended F
if_valid none r e = r
if_valid (some err) r e = (some err, [], e)

abbrev pub then_rounds : {F : Type 0} → Ended F → (Used → Executor F → Ended F) → Ended F
then_rounds (some err, used, e) go_on = (some err, used, e)
then_rounds (none, used, e) go_on = go_on used e

abbrev pub fresh_of : {P : Type 0} → List String → ℕ → Round P → List (Input P)
fresh_of ins i r =
    of_round i r.polls 0 (fresh_inputs_after r.after ins (snapshot_cursors r.before ins))

abbrev pub reseeded : {F : Type 0} → Option String → Used → Executor F → Ended F → Ended F
reseeded none used e r = r
reseeded (some err) used e r = (some (str_append "eval iteration: reseed: " err), used, e)

abbrev pub at_least_one : ℤ → ℕ
at_least_one n = if non_positive n then 1 else pos_part n

module _ {F G : Type 0} (fl : Floats F) (blobs : Blobs G) (judge : Eval → Pair G → Score F)
    (evals : List Eval) (name : String) where
  abbrev pub pair_of : Input (Json G) → Fields G → Pair G
  pair_of x output = record {
    input = as_map blobs x.event.payload;
    output = output;
    scenario = name;
    iteration = x.iteration;
  }

  -- `scorePair` after the wait, and the loop from there on.
  abbrev pub scored :
      MatchStatus (Json G) → Input (Json G) → Used → Executor F → (Executor F → Ended F) → Ended F
  scored (match_hit h) x used e go_on =
      go_on (observe fl judge evals (pair_of x (as_map blobs h.event.payload)) e)
  scored match_timeout x used e go_on = go_on (observe fl judge evals (pair_of x (missing blobs)) e)
  scored match_cancelled x used e go_on = (some "context canceled", used, e)

  unfoldable pub score_inputs :
      List String → Dict String ℕ → List (Input (Json G)) → Used → Executor F → Ended F
  score_inputs streams bounds [] used e = (none, used, e)
  score_inputs streams bounds (x ∷ xs) used e =
      let (st, used') = wait_for_output x.polls streams x.event.key bounds used in
      scored st x used' e (score_inputs streams bounds xs used')

  -- `RunInputs`, with the limit of its configuration.
  unfoldable pub run_inputs :
      Option Agent → ℤ → List (Event (Json G) × List (Poll (Json G))) → Executor F → Ended F
  run_inputs agent limit inputs e =
      if_valid (validate_agent agent)
        (score_inputs (agent_or_none agent).produces [] (numbered 0 (limited limit inputs)) [] e) e

  -- The iterations that are left, from number `i` on.
  unfoldable pub run_rounds : Agent → (ℕ → Round (Json G)) → ℕ → ℕ → Used → Executor F → Ended F
  run_rounds agent rounds zero i used e = (none, used, e)
  run_rounds agent rounds (suc k) i used e =
      let r = rounds i in
      if r.cancelled_before
      then (some "context canceled", used, e)
      else reseeded r.reseed_error used e (
          then_rounds
            (score_inputs agent.produces (snapshot_cursors r.before agent.produces)
              (fresh_of agent.consumes i r) used e)
            (run_rounds agent rounds k (suc i)))

  unfoldable pub run_iterations :
      Option Agent → Bool → (ℕ → Round (Json G)) → ℤ → Executor F → Ended F
  run_iterations agent has_reseed rounds iterations e =
      if_valid (validate_agent agent)
        (if has_reseed
          then run_rounds (agent_or_none agent) rounds (at_least_one iterations) 0 [] e
          else (some "eval: reseed callback is required for RunIterations", [], e))
        e
