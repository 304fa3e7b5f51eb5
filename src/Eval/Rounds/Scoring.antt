-- ===== src/Eval/Rounds/Scoring.antt =====
-- Which pairs are judged: one for each input.
use mathlib.Core.Bool.{true≢false}
use mathlib.Core.List.{map-append}
use event_driven_tests_ai.Common.{
  any, length, drop, drop-append_le, drop-all_le, ◌==◌, string_comparable, eq_iff, ℕ, zero, suc,
  String, List, [], ◌∷◌, ◌++◌, map, ◌≡◌, refl, ap, ◌∙◌, sym, Bool, true, false, Option, none, some,
  All, arith, Bool-cases, inl, inr,
}
use event_driven_tests_ai.Common.Dict.{Dict, lookup_or, lookup_or-insert, eq_refl}
use event_driven_tests_ai.Common.Int.{ℤ, wanted, if-wanted}
use event_driven_tests_ai.Json.{Json, Fields}
use event_driven_tests_ai.Events.{Event}
use event_driven_tests_ai.Eval.{Floats, Score, Eval}
use event_driven_tests_ai.Eval.Executor.{Executor, observe}
use event_driven_tests_ai.Eval.Matching.{
  Used, Poll, Hit, MatchStatus, match_hit, match_timeout, match_cancelled, wait_for_output,
  snapshot_cursors, find_output, round_end, fresh_inputs_after,
}
use event_driven_tests_ai.Eval.Rounds.{
  Agent, validate_agent, Blobs, Pair, Input, Round, Ended, as_map, missing, pair_of, scored,
  score_inputs, run_rounds, run_iterations, at_least_one, fresh_of, of_round, then_rounds,
}

module _ {P : Type 0} where
  -- A wait that no cancellation meets.
  abbrev pub IsCalm : Poll P → Type 0
  IsCalm p = (p.cancelled ≡ false) × (p.cancelled_waiting ≡ false)

  abbrev pub IsServed : Input P → Type 0
  IsServed x = All IsCalm x.polls

  abbrev pub is_cancelled : MatchStatus P → Bool
  is_cancelled match_cancelled = true
  is_cancelled _ = false

  round_end-not_cancelled :
      (o : Option (Hit P)) (p : Poll P) (rest : MatchStatus P × Used) (used : Used)
      → p.cancelled_waiting ≡ false
      → is_cancelled rest.0 ≡ false
      → is_cancelled (round_end o p rest used).0 ≡ false
  round_end-not_cancelled (some h) p rest used c k = refl
  round_end-not_cancelled none p rest used c k = elim (Bool-cases p.expired) [
    | inl over ↦ simp (over)
    | inr waits ↦ simp (waits, c, k)
  ]

  wait-not_cancelled :
      (ps : List (Poll P)) (streams : List String) (key : String) (bounds : Dict String ℕ)
      (used : Used)
      → All IsCalm ps
      → is_cancelled (wait_for_output ps streams key bounds used).0 ≡ false
  unfolding wait_for_output
  wait-not_cancelled [] streams key bounds used c = refl
  wait-not_cancelled (p ∷ ps) streams key bounds used (c, cs) = simp (c.0) (
      round_end-not_cancelled (find_output p.query streams key bounds used) p _ used c.1
        (wait-not_cancelled ps streams key bounds used cs))

  -- What a round brought to each of the topics, one after another.
  abbrev pub brought_to : (String → List (Event P)) → List String → List (Event P)
  brought_to brought [] = []
  brought_to brought (topic ∷ topics) = brought topic ++ brought_to brought topics

  cursor-snapshot :
      (query : String → List (Event P)) (names : List String) (name : String)
      → any (λ m. m == name) names ≡ true
      → lookup_or name (snapshot_cursors query names) 0 ≡ length (query name)
  unfolding snapshot_cursors
  cursor-snapshot query [] name h = elim (true≢false (sym h)) [ ]
  cursor-snapshot query (m ∷ names) name h = elim (Bool-cases (m == name)) [
    | inl same ↦
        rw (lookup_or-insert m name (length (query m)) 0 (snapshot_cursors query names), same)
          (ap (λ n. length (query n)) ((eq_iff m name).0 same))
    | inr other ↦
        let k : any (λ j. j == name) names ≡ true = ground (arith, h, other) in
        rw (lookup_or-insert m name (length (query m)) 0 (snapshot_cursors query names), other)
          (cursor-snapshot query names name k)
  ]

  drop-length : (xs ys : List (Event P)) → drop (length xs) (xs ++ ys) ≡ ys
  drop-length xs ys =
      drop-append_le (length xs) xs ys (omega arith)
      ∙ ap (λ l. l ++ ys) (drop-all_le (length xs) xs (omega arith))

  fresh_inputs_after-brought :
      (before after brought : String → List (Event P)) (all names : List String)
      → ((n : String) → after n ≡ before n ++ brought n)
      → All (λ n. any (λ m. m == n) all ≡ true) names
      → fresh_inputs_after after names (snapshot_cursors before all) ≡ brought_to brought names
  unfolding fresh_inputs_after
  fresh_inputs_after-brought before after brought all [] g h = refl
  fresh_inputs_after-brought before after brought all (n ∷ names) g h = rw (
    cursor-snapshot before all n h.0,
    g n,
    drop-length (before n) (brought n),
    fresh_inputs_after-brought before after brought all names g h.1,
  )

all_in :
    (xs ys : List String)
    → ((n : String) → any (λ m. m == n) xs ≡ true → any (λ m. m == n) ys ≡ true)
    → All (λ n. any (λ m. m == n) ys ≡ true) xs
all_in [] ys h = tt
all_in (x ∷ xs) ys h =
    (h x (ground (arith, eq_refl x)), all_in xs ys (λ n k. h n (ground (arith, k))))

module _ {F G : Type 0} (fl : Floats F) (blobs : Blobs G) (judge : Eval → Pair G → Score F)
    (evals : List Eval) (name : String) where
  -- Each pair is judged by every eval with a judge.
  abbrev pub observe_all : List (Pair G) → Executor F → Executor F
  observe_all [] e = e
  observe_all (p ∷ ps) e = observe_all ps (observe fl judge evals p e)

  abbrev pub input_of : Input (Json G) → Fields G × ℕ
  input_of x = (as_map blobs x.event.payload, x.iteration)

  abbrev pub judged_input : Pair G → Fields G × ℕ
  judged_input p = (p.input, p.iteration)

  -- The loop ended with no error, and the judge got one pair for each input, in their order.
  pub record IsScored (xs : List (Input (Json G))) (e : Executor F) (r : Ended F) : Type 0 where
    pub no_error : r.0 ≡ none
    pub pairs : List (Pair G)
    pub inputs : map judged_input pairs ≡ map input_of xs
    pub judged : r.2 ≡ observe_all pairs e

  one_more :
      (x : Input (Json G)) (xs : List (Input (Json G))) (output : Fields G) (e : Executor F)
      (r : Ended F)
      → IsScored xs (observe fl judge evals (pair_of fl blobs judge evals name x output) e) r
      → IsScored (x ∷ xs) e r
  one_more x xs output e r h = record {
    no_error = h.no_error;
    pairs = pair_of fl blobs judge evals name x output ∷ h.pairs;
    inputs = ap (λ l. input_of x ∷ l) h.inputs;
    judged = h.judged;
  }

  scored-IsScored :
      (st : MatchStatus (Json G)) (x : Input (Json G)) (xs : List (Input (Json G))) (used : Used)
      (e : Executor F) (go_on : Executor F → Ended F)
      → is_cancelled st ≡ false
      → ((d : Executor F) → IsScored xs d (go_on d))
      → IsScored (x ∷ xs) e (scored fl blobs judge evals name st x used e go_on)
  scored-IsScored (match_hit h) x xs used e go_on c k =
      one_more x xs (as_map blobs h.event.payload) e _ (k _)
  scored-IsScored match_timeout x xs used e go_on c k = one_more x xs (missing blobs) e _ (k _)
  scored-IsScored match_cancelled x xs used e go_on c k = elim (true≢false c) [ ]

  score_inputs-IsScored :
      (streams : List String) (bounds : Dict String ℕ) (xs : List (Input (Json G))) (used : Used)
      (e : Executor F)
      → All IsServed xs
      → IsScored xs e (score_inputs fl blobs judge evals name streams bounds xs used e)
  unfolding score_inputs
  score_inputs-IsScored streams bounds [] used e s = record {
    no_error = refl;
    pairs = [];
    inputs = refl;
    judged = refl;
  }
  score_inputs-IsScored streams bounds (x ∷ xs) used e (s, ss) =
      scored-IsScored (wait_for_output x.polls streams x.event.key bounds used).0 x xs _ e _
        (wait-not_cancelled x.polls streams x.event.key bounds used s)
        (λ d. score_inputs-IsScored streams bounds xs _ d ss)

  observe_all-append :
      (ps qs : List (Pair G)) (e : Executor F)
      → observe_all (ps ++ qs) e ≡ observe_all qs (observe_all ps e)
  observe_all-append [] qs e = refl
  observe_all-append (p ∷ ps) qs e = observe_all-append ps qs (observe fl judge evals p e)

  abbrev pub fresh_all : Agent → (ℕ → Round (Json G)) → ℕ → ℕ → List (Input (Json G))
  fresh_all agent rounds zero i = []
  fresh_all agent rounds (suc k) i =
      fresh_of agent.consumes i (rounds i) ++ fresh_all agent rounds k (suc i)

  -- No round is cancelled, each seeds its events, and no wait is cancelled.
  pub record IsUndisturbed (rounds : ℕ → Round (Json G)) : Type 0 where
    pub runs_on : (i : ℕ) → (rounds i).cancelled_before ≡ false
    pub seeded : (i : ℕ) → (rounds i).reseed_error ≡ none
    pub served : (i n : ℕ) → All IsCalm ((rounds i).polls n)

  of_round-IsServed :
      (i : ℕ) (polls : ℕ → List (Poll (Json G))) (n : ℕ) (es : List (Event (Json G)))
      → ((m : ℕ) → All IsCalm (polls m))
      → All IsServed (of_round i polls n es)
  of_round-IsServed i polls n [] h = tt
  of_round-IsServed i polls n (e ∷ es) h = (h n, of_round-IsServed i polls (suc n) es h)

  append-IsScored :
      (xs ys : List (Input (Json G))) (e : Executor F) (r : Ended F)
      (go_on : Used → Executor F → Ended F)
      → IsScored xs e r
      → ((u : Used) (d : Executor F) → IsScored ys d (go_on u d))
      → IsScored (xs ++ ys) e (then_rounds r go_on)
  append-IsScored xs ys e (none, used, d) go_on h k =
      let rest = k used d in
      record {
        no_error = rest.no_error;
        pairs = h.pairs ++ rest.pairs;
        inputs = rw (
          map-append judged_input h.pairs rest.pairs,
          map-append input_of xs ys,
          h.inputs,
          rest.inputs,
        );
        judged =
            rest.judged
            ∙ ap (observe_all rest.pairs) h.judged
            ∙ sym (observe_all-append h.pairs rest.pairs e);
      }
  append-IsScored xs ys e (some err, used, d) go_on h k =
      let bad : ⊥ = ground (arith, h.no_error) in elim bad [ ]

  run_rounds-IsScored :
      (agent : Agent) (rounds : ℕ → Round (Json G)) (k i : ℕ) (used : Used) (e : Executor F)
      → IsUndisturbed rounds
      → IsScored
          (fresh_all agent rounds k i)
          e
          (run_rounds fl blobs judge evals name agent rounds k i used e)
  unfolding run_rounds
  run_rounds-IsScored agent rounds zero i used e u = record {
    no_error = refl;
    pairs = [];
    inputs = refl;
    judged = refl;
  }
  run_rounds-IsScored agent rounds (suc k) i used e u =
      simp (u.runs_on i, u.seeded i)
        (append-IsScored (fresh_of agent.consumes i (rounds i)) (fresh_all agent rounds k (suc i)) e
          (score_inputs fl blobs judge evals name agent.produces
            (snapshot_cursors (rounds i).before agent.produces)
            (fresh_of agent.consumes i (rounds i)) used e)
          (run_rounds fl blobs judge evals name agent rounds k (suc i))
          (score_inputs-IsScored agent.produces _ _ used e
            (of_round-IsServed i (rounds i).polls 0 _ (u.served i)))
          (λ v d. run_rounds-IsScored agent rounds k (suc i) v d u))

  -- In every round each stream is, after the seeding, what it was before with the events that the round
  -- brought: no buffer was full, so that no event was dropped from its front.
  abbrev pub IsGrowing : (ℕ → Round (Json G)) → (ℕ → String → List (Event (Json G))) → Type 0
  IsGrowing rounds brought =
      (i : ℕ) (stream : String)
      → (rounds i).after stream ≡ (rounds i).before stream ++ brought i stream

  -- An event of an input topic, as the judge is to see it in a round.
  abbrev pub seen : ℕ → List (Event (Json G)) → List (Fields G × ℕ)
  seen i [] = []
  seen i (e ∷ es) = (as_map blobs e.payload, i) ∷ seen i es

  -- The events that `k` rounds bring to the topics, from round `i` on.
  abbrev pub deserved :
      List String → (ℕ → String → List (Event (Json G))) → ℕ → ℕ → List (Fields G × ℕ)
  deserved topics brought zero i = []
  deserved topics brought (suc k) i =
      seen i (brought_to (brought i) topics) ++ deserved topics brought k (suc i)

  -- The loop ended with no error, and the judge got these inputs, each with the number of its round.
  pub record IsEvaluated (inputs : List (Fields G × ℕ)) (e : Executor F) (r : Ended F)
      : Type 0 where
    pub no_error : r.0 ≡ none
    pub pairs : List (Pair G)
    pub inputs_judged : map judged_input pairs ≡ inputs
    pub judged : r.2 ≡ observe_all pairs e

  input_of-of_round :
      (i : ℕ) (polls : ℕ → List (Poll (Json G))) (n : ℕ) (es : List (Event (Json G)))
      → map input_of (of_round i polls n es) ≡ seen i es
  input_of-of_round i polls n [] = refl
  input_of-of_round i polls n (e ∷ es) =
      ap (λ l. (as_map blobs e.payload, i) ∷ l) (input_of-of_round i polls (suc n) es)

  input_of-fresh_all :
      (agent : Agent) (rounds : ℕ → Round (Json G)) (brought : ℕ → String → List (Event (Json G)))
      (k i : ℕ)
      → IsGrowing rounds brought
      → map input_of (fresh_all agent rounds k i) ≡ deserved agent.consumes brought k i
  input_of-fresh_all agent rounds brought zero i g = refl
  input_of-fresh_all agent rounds brought (suc k) i g = rw (
    map-append input_of (fresh_of agent.consumes i (rounds i)) (fresh_all agent rounds k (suc i)),
    input_of-of_round i (rounds i).polls 0 (
        fresh_inputs_after (rounds i).after agent.consumes
          (snapshot_cursors (rounds i).before agent.consumes)),
    fresh_inputs_after-brought (rounds i).before (rounds i).after (brought i) agent.consumes
        agent.consumes (g i) (all_in agent.consumes agent.consumes (λ n h. h)),
    input_of-fresh_all agent rounds brought k (suc i) g,
  )

  -- For an agent with an output topic, and with a callback to seed events, when no round and no wait
  -- is cancelled, the seeding succeeds and no buffer of the store is full: the iterations end with no
  -- error, after as many rounds as they were asked for, and one where that is not positive; and the
  -- judge gets exactly one pair for each event that a round brought to the input topics, topic by
  -- topic and in their order, with the number of the round, whether an output was found for it or
  -- not.
  pub run_iterations-IsEvaluated :
      (topics : List String) (output : String) (outputs : List String) (rounds : ℕ → Round (Json G))
      (brought : ℕ → String → List (Event (Json G))) (iterations : ℤ) (e : Executor F)
      → IsUndisturbed rounds
      → IsGrowing rounds brought
      → IsEvaluated (deserved topics brought (wanted iterations) 0) e (
          run_iterations fl blobs judge evals name
            (some (record { consumes = topics; produces = output ∷ outputs }))
            true
            rounds
            iterations
            e)
  unfolding run_iterations validate_agent
  run_iterations-IsEvaluated topics output outputs rounds brought iterations e u g =
      let agent : Agent = record { consumes = topics; produces = output ∷ outputs } in
      let h = run_rounds-IsScored agent rounds (at_least_one iterations) 0 [] e u in
      record {
        no_error = h.no_error;
        pairs = h.pairs;
        inputs_judged =
            h.inputs
            ∙ input_of-fresh_all agent rounds brought (at_least_one iterations) 0 g
            ∙ ap (λ k. deserved topics brought k 0) (if-wanted iterations);
        judged = h.judged;
      }
