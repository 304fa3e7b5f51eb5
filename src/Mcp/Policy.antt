-- ===== src/Mcp/Policy.antt =====
-- What a caller may change over MCP.
use mathlib.Core.Bool.{true≢false}
use event_driven_tests_ai.Common.{
  ℕ, String, List, [], ◌∷◌, ◌≡◌, refl, ◌∙◌, if◌then◌else◌, string_comparable, Bool, true, false,
  Option,
}
use event_driven_tests_ai.Json.{Json}
use event_driven_tests_ai.Storage.{Role}
use event_driven_tests_ai.Storage.Interface.{Storage}
use event_driven_tests_ai.Server.{mcp_write_policy}
use event_driven_tests_ai.Api.{Decoded, decoded, malformed}
use event_driven_tests_ai.Mcp.Tools.{invoke}
use event_driven_tests_ai.Mcp.Handler.{
  Request, Response, dispatch, tools_call, run_batch, written, handle_batch, handle_single, handle,
}

module _ {S : Type 0} (s : S) where
  -- The state after a test, if both branches keep it.
  if-kept : {A : Type 0} (b : Bool) (x y : A × S) → x.1 ≡ s → y.1 ≡ s → (if b then x else y).1 ≡ s
  if-kept true x y h k = h
  if-kept false x y h k = k

  if-denied :
      {A : Type 0} (b : Bool) (x y : A × S) → b ≡ false → y.1 ≡ s → (if b then x else y).1 ≡ s
  if-denied true x y e k = elim (true≢false e) [ ]
  if-denied false x y e k = k

module _ {F S : Type 0} (storage : Storage F S) (parse_duration : String → Option ℕ) (role : Role)
    (denies : mcp_write_policy role ≡ false) where
  abbrev policy : String → Bool
  policy tool = mcp_write_policy role

  invoke-kept :
      {G : Type 0} (tool : String) (arguments : Option (Json G)) (s : S)
      → (invoke storage parse_duration policy tool arguments s).1 ≡ s
  unfolding invoke
  invoke-kept tool arguments s = search (if-kept s, if-denied s, denies) depth 12

  tools_call-kept :
      {G : Type 0} (req : Request G) (s : S)
      → (tools_call storage parse_duration policy req s).1 ≡ s
  tools_call-kept req s = if-kept s _ _ _ (invoke-kept _ _ s) refl

  dispatch-kept :
      {G : Type 0} (req : Request G) (s : S) → (dispatch storage parse_duration policy req s).1 ≡ s
  unfolding dispatch
  dispatch-kept req s = search (if-kept s, tools_call-kept)

  run_batch-kept :
      {G : Type 0} (reqs : List (Request G)) (s : S)
      → (run_batch storage parse_duration policy reqs s).1 ≡ s
  unfolding run_batch
  run_batch-kept [] s = refl
  run_batch-kept (req ∷ reqs) s = run_batch-kept reqs _ ∙ dispatch-kept req s

  written-kept :
      {G : Type 0} (s : S) (x : List (Response F G) × S)
      → x.1 ≡ s
      → (written storage parse_duration policy x).1 ≡ s
  written-kept s ([], t) h = h
  written-kept s (r ∷ rs, t) h = h

  handle_batch-kept :
      {G : Type 0} (d : Decoded (List (Request G))) (s : S)
      → (handle_batch storage parse_duration policy d s).1 ≡ s
  handle_batch-kept (malformed e) s = refl
  handle_batch-kept (decoded []) s = refl
  handle_batch-kept (decoded (req ∷ reqs)) s = written-kept s _ (run_batch-kept (req ∷ reqs) s)

  handle_single-kept :
      {G : Type 0} (d : Decoded (Request G)) (s : S)
      → (handle_single storage parse_duration policy d s).1 ≡ s
  handle_single-kept (malformed e) s = refl
  handle_single-kept (decoded req) s = dispatch-kept req s

  -- A caller whose role is neither editor nor admin changes nothing over MCP: whatever the body is, a
  -- batch included, the state behind the storage is the same after it.
  pub handle-kept :
      {G : Type 0} (unmarshal_batch : String → Decoded (List (Request G)))
      (unmarshal_request : String → Decoded (Request G)) (is_post : Bool) (body : String) (s : S)
      → (handle storage parse_duration policy unmarshal_batch unmarshal_request is_post body s).1
        ≡ s
  unfolding handle
  handle-kept unmarshal_batch unmarshal_request is_post body s =
      search (if-kept s, handle_batch-kept, handle_single-kept)
