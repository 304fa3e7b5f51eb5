-- ===== src/Mcp/Handler.antt =====
-- Requests, batches and their answers: `Handler`, `dispatch` and `toolsCall` of mcp.go.
use Prim.Native.String.{◌++◌ as str_append}
use Prim.Native.Char.{code}
use event_driven_tests_ai.Common.{
  ℕ, String, List, [], ◌∷◌, if◌then◌else◌, ◌==◌, ◌&&◌, not, string_comparable, nat_comparable, Bool,
  true, false, Option, none, some,
}
use event_driven_tests_ai.Json.{Json, null}
use event_driven_tests_ai.Storage.Interface.{Storage}
use event_driven_tests_ai.Api.{Decoded, decoded, malformed}
use event_driven_tests_ai.Mcp.{
  argument, members, ToolAnswer, ToolError, forbidden, missing, internal, Answer, answered, refused,
}
use event_driven_tests_ai.Mcp.Tools.{invoke, string_of}

-- `rpcRequest`: the parts that were there.
pub record Request (G : Type 0) : Type 0 where
  pub id : Option (Json G)
  pub method : String
  pub params : Option (Json G)

-- An entry of the manifest: whether the tool only reads, and the arguments that it requires.
pub record Tool : Type 0 where
  pub name : String
  pub read_only : Bool
  pub required : List String

-- The codes of JSON-RPC, without their minus signs.
abbrev pub parse_error : ℕ
parse_error = 32700

abbrev pub invalid_request : ℕ
invalid_request = 32600

abbrev pub method_not_found : ℕ
method_not_found = 32601

abbrev pub invalid_params : ℕ
invalid_params = 32602

abbrev pub internal_error : ℕ
internal_error = 32603

abbrev pub tool_forbidden : ℕ
tool_forbidden = 32604

abbrev pub resource_missing : ℕ
resource_missing = 32002

pub data Outcome (F : Type 0) : Type 0 where
  initialized : Outcome F
  tools : List Tool → Outcome F
  called : ToolAnswer F → Outcome F
  rpc_error : ℕ → String → Outcome F

pub record Response (F G : Type 0) : Type 0 where
  pub id : Option (Json G)
  pub outcome : Outcome F

-- What is written: nothing but a status, one response, or those of a batch.
pub data Written (F G : Type 0) : Type 0 where
  accepted : Written F G
  single : Response F G → Written F G
  batch : List (Response F G) → Written F G

abbrev reading : String → List String → Tool
reading name required = record { name = name; read_only = true; required = required }

abbrev writing : String → List String → Tool
writing name required = record { name = name; read_only = false; required = required }

abbrev pub tool_descriptors : List Tool
tool_descriptors =
    reading "list_scenarios" []
    ∷ reading "get_scenario" ("name" ∷ [])
    ∷ reading "list_runs" []
    ∷ reading "get_run" ("run_id" ∷ [])
    ∷ reading "scenario_slo" ("name" ∷ [])
    ∷ reading "list_workers" []
    ∷ writing "upsert_scenario" ("name" ∷ "yaml" ∷ [])
    ∷ writing "assign_scenario" ("worker_id" ∷ "scenario_name" ∷ [])
    ∷ []

-- A request with no id, or with the id null.
abbrev pub is_notification_id : {G : Type 0} → Option (Json G) → Bool
is_notification_id none = true
is_notification_id (some null) = true
is_notification_id (some v) = false

unfoldable pub is_notification : {G : Type 0} → Request G → Bool
is_notification req = is_notification_id req.id

-- Each answer sets the id of its request.
abbrev error_response : {F G : Type 0} → Request G → ToolError → Response F G
error_response req (forbidden m) = record { id = req.id; outcome = rpc_error tool_forbidden m }
error_response req missing = record {
  id = req.id;
  outcome = rpc_error resource_missing "storage: not found";
}
error_response req (internal m) = record { id = req.id; outcome = rpc_error internal_error m }

abbrev pub tool_response : {F G : Type 0} → Request G → Answer F → Response F G
tool_response req (answered a) = record { id = req.id; outcome = called a }
tool_response req (refused e) = error_response req e

abbrev pub failure : {F G : Type 0} → ℕ → String → Written F G
failure code m = single (record { id = none; outcome = rpc_error code m })

abbrev begins_list : String → Bool
begins_list String.[] = false
begins_list (String.◌∷◌ c s) = code c == b'['

abbrev pub response_with : {F G S : Type 0} → Request G → Answer F × S → Response F G × S
response_with req (a, s) = (tool_response req a, s)

module _ {F G S : Type 0} (storage : Storage F S) (parse_duration : String → Option ℕ)
    (allows : String → Bool) where
  abbrev pub tools_call : Request G → S → Response F G × S
  tools_call req s =
      let p = members req.params in
      let name = string_of "name" p in
      if p.well && name.well
      then response_with req
          (invoke storage parse_duration allows name.value (argument "arguments" p.value) s)
      else (record { id = req.id; outcome = rpc_error invalid_params "invalid params" }, s)

  unfoldable pub dispatch : Request G → S → Response F G × S
  dispatch req s =
      if req.method == "initialize"
      then (record { id = req.id; outcome = initialized }, s)
      else if req.method == "tools/list"
      then (record { id = req.id; outcome = tools tool_descriptors }, s)
      else if req.method == "tools/call"
      then tools_call req s
      else (
        record {
          id = req.id;
          outcome = rpc_error method_not_found (str_append "method not found: " req.method);
        },
        s,
      )

  -- The responses of a batch, in order, without those of notifications.
  unfoldable pub run_batch : List (Request G) → S → List (Response F G) × S
  unfolding dispatch is_notification
  run_batch [] s = ([], s)
  run_batch (req ∷ reqs) s =
      let (r, s') = dispatch req s in
      let (rs, s'') = run_batch reqs s' in (if is_notification req then rs else r ∷ rs, s'')

  abbrev pub written : List (Response F G) × S → Written F G × S
  written ([], s) = (accepted, s)
  written (r ∷ rs, s) = (batch (r ∷ rs), s)

  abbrev pub handle_batch : Decoded (List (Request G)) → S → Written F G × S
  handle_batch (malformed e) s = (failure parse_error (str_append "batch parse error: " e), s)
  handle_batch (decoded []) s = (failure invalid_request "empty batch", s)
  handle_batch (decoded (req ∷ reqs)) s = written (run_batch (req ∷ reqs) s)

  abbrev pub handle_single : Decoded (Request G) → S → Written F G × S
  handle_single (malformed e) s = (failure parse_error (str_append "parse error: " e), s)
  handle_single (decoded req) s =
      let (r, s') = dispatch req s in (if is_notification req then accepted else single r, s')

  -- The handler, on a body that could be read, without the space around it.
  unfoldable pub handle :
      (String → Decoded (List (Request G)))
      → (String → Decoded (Request G))
      → Bool
      → String
      → S
      → Written F G × S
  handle unmarshal_batch unmarshal_request is_post body s =
      if not is_post
      then (failure invalid_request "mcp: POST only", s)
      else if body == ""
      then (failure parse_error "empty request body", s)
      else if begins_list body
      then handle_batch (unmarshal_batch body) s
      else handle_single (unmarshal_request body) s
