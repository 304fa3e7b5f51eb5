-- ===== src/Mcp/Replies.antt =====
-- Which requests are answered, and what the tool that reads a run is asked.
use event_driven_tests_ai.Common.{
  if◌then◌else◌, true, none, false, ℕ, String, List, [], ◌∷◌, ◌≡◌, refl, map, select, not,
  string_comparable, Bool, Option, some, Bool-cases, inl, inr,
}
use event_driven_tests_ai.Json.{Json, null, bool, int, num, text, arr, obj, end, field}
use event_driven_tests_ai.Storage.Interface.{Storage}
use event_driven_tests_ai.Mcp.{
  argument, equal_fold, ToolError, forbidden, missing, internal, Answer, answered, refused,
}
use event_driven_tests_ai.Mcp.Tools.{invoke, answer_of, pair_answer}
use event_driven_tests_ai.Mcp.Handler.{
  Request, Response, Outcome, is_notification_id, is_notification, run_batch, dispatch, tools_call,
  response_with,
}

module _ {F S : Type 0} (storage : Storage F S) (parse_duration : String → Option ℕ)
    (allows : String → Bool) where
  abbrev pub request_id : {G : Type 0} → Request G → Option (Json G)
  request_id req = req.id

  abbrev pub response_id : {G : Type 0} → Response F G → Option (Json G)
  response_id r = r.id

  -- A request has an id which is not null.
  abbrev pub has_id : {G : Type 0} → Option (Json G) → Bool
  has_id none = false
  has_id (some null) = false
  has_id (some v) = true

  abbrev pub asks : {G : Type 0} → Request G → Bool
  asks req = has_id req.id

  silent-has_id : {G : Type 0} (o : Option (Json G)) → is_notification_id o ≡ not (has_id o)
  silent-has_id none = refl
  silent-has_id (some null) = refl
  silent-has_id (some (bool b)) = refl
  silent-has_id (some (int i)) = refl
  silent-has_id (some (num x)) = refl
  silent-has_id (some (text t)) = refl
  silent-has_id (some (arr vs)) = refl
  silent-has_id (some (obj fs)) = refl

  is_notification-asks : {G : Type 0} (req : Request G) → is_notification req ≡ not (asks req)
  unfolding is_notification
  is_notification-asks req = silent-has_id req.id

  record HasId {G : Type 0} (id : Option (Json G)) (x : Response F G × S) : Type 0 where
    same : response_id x.0 ≡ id

  if-HasId :
      {G : Type 0} (id : Option (Json G)) (b : Bool) (x y : Response F G × S)
      → HasId id x
      → HasId id y
      → HasId id (if b then x else y)
  if-HasId id true x y h k = h
  if-HasId id false x y h k = k

  error-HasId :
      {G : Type 0} (req : Request G) (e : ToolError) (s : S)
      → HasId req.id (response_with req (refused e, s))
  error-HasId req (forbidden m) s = record { same = refl }
  error-HasId req missing s = record { same = refl }
  error-HasId req (internal m) s = record { same = refl }

  tool-HasId :
      {G : Type 0} (req : Request G) (x : Answer F × S) → HasId req.id (response_with req x)
  tool-HasId req (answered a, s) = record { same = refl }
  tool-HasId req (refused e, s) = error-HasId req e s

  own-HasId :
      {G : Type 0} (req : Request G) (o : Outcome F) (s : S)
      → HasId req.id (record { id = req.id; outcome = o }, s)
  own-HasId req o s = record { same = refl }

  tools_call-HasId :
      {G : Type 0} (req : Request G) (s : S)
      → HasId req.id (tools_call storage parse_duration allows req s)
  tools_call-HasId req s = search (if-HasId, tool-HasId, own-HasId)

  dispatch-HasId :
      {G : Type 0} (req : Request G) (s : S)
      → HasId req.id (dispatch storage parse_duration allows req s)
  unfolding dispatch
  dispatch-HasId req s = search (if-HasId, tools_call-HasId, own-HasId)

  id-dispatch :
      {G : Type 0} (req : Request G) (s : S)
      → response_id (dispatch storage parse_duration allows req s).0 ≡ req.id
  id-dispatch req s = (dispatch-HasId req s).same

  -- A batch is answered by one response for each request that has an id which is not null, with that
  -- id and in the order of the requests, whatever the requests do and however they fail.
  pub run_batch-ids :
      {G : Type 0} (reqs : List (Request G)) (s : S)
      → map response_id (run_batch storage parse_duration allows reqs s).0
        ≡ map request_id (select asks reqs)
  unfolding run_batch
  run_batch-ids [] s = refl
  run_batch-ids (req ∷ reqs) s = elim (Bool-cases (asks req)) [
    | inl there ↦ simp (is_notification-asks req, there, id-dispatch req s, run_batch-ids reqs)
    | inr absent ↦ simp (is_notification-asks req, absent, run_batch-ids reqs)
  ]

  -- The tool that reads a run ignores the argument `run_id` that its description asks for: it reads
  -- the run with an empty id. It reads the run that an argument named RunID names.
  pub invoke-get_run :
      (G : Type 0) (id : String) (s : S)
      → (invoke {G = G} storage parse_duration allows "get_run"
            (some (obj (field "run_id" (text id) end)))
            s
          ≡ (answer_of pair_answer (storage.get_run "" s), s))
        × (invoke {G = G} storage parse_duration allows "get_run"
              (some (obj (field "RunID" (text id) end)))
              s
            ≡ (answer_of pair_answer (storage.get_run id s), s))
  unfolding invoke argument equal_fold
  invoke-get_run G id s = (refl, refl)
