-- ===== src/Eval/Matching.antt =====
-- The pairing of inputs with the agent's outputs in pkg/eval/executor.go: waiting for an output, and
-- the cursors that tell new events from old ones. The store is read by its `Query`, again at each poll.
pub mod Distinct
pub mod Fresh
use event_driven_tests_ai.Common.{
  ℕ, zero, suc, ◌+◌, String, List, [], ◌∷◌, ◌++◌, if◌then◌else◌, ◌==◌, string_comparable,
  nat_comparable, Bool, true, false, any, Option, none, some, length, drop,
}
use event_driven_tests_ai.Common.Dict.{Dict, lookup_or, insert}
use event_driven_tests_ai.Events.{Event}

-- The indices of each stream that were matched before.
abbrev pub Used : Type 0
Used = Dict String (List ℕ)

-- An event that was found, with its place.
pub record Hit (P : Type 0) : Type 0 where
  pub stream : String
  pub index : ℕ
  pub event : Event P

pub data MatchStatus (P : Type 0) : Type 0 where
  match_hit : Hit P → MatchStatus P
  match_timeout : MatchStatus P
  match_cancelled : MatchStatus P

-- What one round of the loop meets: whether the context is cancelled before it, what `Query` answers,
-- whether the deadline has passed after it, and whether the context is cancelled while it waits.
pub record Poll (P : Type 0) : Type 0 where
  pub cancelled : Bool
  pub query : String → List (Event P)
  pub expired : Bool
  pub cancelled_waiting : Bool

abbrev pub has_index : ℕ → List ℕ → Bool
has_index i is = any (λ j. j == i) is

abbrev pub taken : Used → String → ℕ → Bool
taken used name i = has_index i (lookup_or name used [])

abbrev pub mark : {P : Type 0} → Hit P → Used → Used
mark h used = insert h.stream (h.index ∷ lookup_or h.stream used []) used

module _ {P : Type 0} where
  -- The first event of the key at an index that was not matched before.
  unfoldable pub first_free : String → String → List ℕ → ℕ → List (Event P) → Option (Hit P)
  first_free name key seen i [] = none
  first_free name key seen i (e ∷ es) =
      let rest = first_free name key seen (suc i) es in
      if has_index i seen
      then rest
      else if e.key == key
      then some (record { stream = name; index = i; event = e })
      else rest

  abbrev pub first_of : Option (Hit P) → Option (Hit P) → Option (Hit P)
  first_of none rest = rest
  first_of (some h) rest = some h

  -- One look at the streams, in their order.
  unfoldable pub find_output :
      (String → List (Event P)) → List String → String → Dict String ℕ → Used → Option (Hit P)
  unfolding first_free
  find_output query [] key bounds used = none
  find_output query (name ∷ names) key bounds used =
      let rest = find_output query names key bounds used in
      let start = lookup_or name bounds 0 in
      first_of (first_free name key (lookup_or name used []) start (drop start (query name))) rest

  -- How a round ends.
  abbrev pub round_end :
      Option (Hit P) → Poll P → MatchStatus P × Used → Used → MatchStatus P × Used
  round_end (some h) p rest used = (match_hit h, mark h used)
  round_end none p rest used =
      if p.expired
      then (match_timeout, used)
      else if p.cancelled_waiting
      then (match_cancelled, used)
      else rest

  -- The polls go on at most until the deadline has passed.
  unfoldable pub wait_for_output :
      List (Poll P) → List String → String → Dict String ℕ → Used → MatchStatus P × Used
  unfolding find_output
  wait_for_output [] streams key bounds used = (match_timeout, used)
  wait_for_output (p ∷ ps) streams key bounds used =
      let rest = wait_for_output ps streams key bounds used in
      if p.cancelled
      then (match_cancelled, used)
      else round_end (find_output p.query streams key bounds used) p rest used

  unfoldable pub snapshot_cursors : (String → List (Event P)) → List String → Dict String ℕ
  snapshot_cursors query [] = []
  snapshot_cursors query (name ∷ names) =
      insert name (length (query name)) (snapshot_cursors query names)

  -- `drop` gives nothing where the cursor is at the end or past it.
  unfoldable pub fresh_inputs_after :
      (String → List (Event P)) → List String → Dict String ℕ → List (Event P)
  fresh_inputs_after query [] cursors = []
  fresh_inputs_after query (name ∷ names) cursors =
      drop (lookup_or name cursors 0) (query name) ++ fresh_inputs_after query names cursors

-- The hits of one input after another: the keys with the polls that each of them gets. A cancelled
-- wait ends the run.
module _ {P : Type 0} where
  abbrev pub next_hits : MatchStatus P → List (Hit P) → List (Hit P)
  next_hits (match_hit h) hs = h ∷ hs
  next_hits match_timeout hs = hs
  next_hits match_cancelled hs = []

  unfoldable pub match_all :
      List (String × List (Poll P)) → List String → Dict String ℕ → Used → List (Hit P)
  unfolding wait_for_output
  match_all [] streams bounds used = []
  match_all ((key, ps) ∷ inputs) streams bounds used =
      let (status, used') = wait_for_output ps streams key bounds used in
      next_hits status (match_all inputs streams bounds used')
