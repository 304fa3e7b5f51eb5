-- ===== src/Mcp/Examples.antt =====
-- Requests over MCP to a store with one scenario.
use event_driven_tests_ai.Common.{ℕ, [], ◌∷◌, ◌≡◌, refl, map, true, false, none, some}
use event_driven_tests_ai.Common.Int.{pos}
use event_driven_tests_ai.Json.{text, obj, int, end, field}
use event_driven_tests_ai.Storage.{MemStore, new_store, role_viewer}
use event_driven_tests_ai.Storage.Interface.{Storage, Environment, mem_storage}
use event_driven_tests_ai.Server.{mcp_write_policy}
use event_driven_tests_ai.Api.{decoded}
use event_driven_tests_ai.Mcp.Handler.{Request, is_notification, run_batch, handle}
use event_driven_tests_ai.Mcp.Policy.{handle-kept}
use event_driven_tests_ai.Mcp.Replies.{response_id, run_batch-ids}

abbrev env : Environment ℕ
env = record {
  now = 5;
  first = "a";
  second = "b";
  fresh = "1";
  hash_token = λ x. x;
  ratio = λ p n. p;
}

abbrev storage : Storage ℕ (MemStore ℕ)
storage = mem_storage env

abbrev upload : Request ℕ
upload = record {
  id = some (int (pos 1));
  method = "tools/call";
  params = some (
      obj (
        field "name" (text "upsert_scenario")
          (field "arguments" (obj (field "name" (text "a") (field "yaml" (text "one") end))) end)));
}

abbrev note : Request ℕ
note = record { id = none; method = "initialize"; params = none }

viewer_denied : mcp_write_policy role_viewer ≡ false
unfolding mcp_write_policy
viewer_denied = refl

handle-kept_example :
    (handle storage
      (λ t. none)
      (λ t. mcp_write_policy role_viewer)
      (λ t. decoded (upload ∷ note ∷ []))
      (λ t. decoded upload)
      true
      "[{}]"
      (new_store ℕ)).1
    ≡ new_store ℕ
handle-kept_example =
    handle-kept storage (λ t. none) role_viewer viewer_denied (λ t. decoded (upload ∷ note ∷ []))
      (λ t. decoded upload) true "[{}]" (new_store ℕ)

run_batch-ids_example :
    map
      (response_id storage (λ t. none) (λ t. true))
      (run_batch storage (λ t. none) (λ t. true) (note ∷ upload ∷ []) (new_store ℕ)).0
    ≡ some (int (pos 1)) ∷ []
unfolding is_notification
run_batch-ids_example =
    run_batch-ids storage (λ t. none) (λ t. true) (note ∷ upload ∷ []) (new_store ℕ)
