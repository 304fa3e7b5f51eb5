-- ===== src/Server.antt =====
-- pkg/controlplane/server.go: the tokens that a start installs, and which role each route asks for.
mod Examples
use Prim.Native.String.{◌++◌ as str_append}
use event_driven_tests_ai.Common.{
  ℕ, String, ◌≡◌, refl, arith, if◌then◌else◌, ltb, ◌==◌, ◌||◌, string_comparable, Bool, true, false,
  ap, ◌∙◌, none, Bool-cases, inl, inr,
}
use event_driven_tests_ai.Events.{Time}
use event_driven_tests_ai.Common.Dict.{lookup, lookup-empty}
use event_driven_tests_ai.Common.Text.{trim_space}
use event_driven_tests_ai.Storage.{
  Result, ok, err, new_store, Role, role_admin, role_editor, role_viewer, role_worker, Token,
  MemStore,
}
use event_driven_tests_ai.Storage.Interface.{Storage, Environment, mem_storage}
use event_driven_tests_ai.Storage.Tokens.{issue_locked, issue_token_with_plaintext, lookup_token}
use event_driven_tests_ai.Storage.Tokens.Laws.{
  lookup-issue_locked_other, lookup_token-issue_locked_new,
}
use event_driven_tests_ai.Api.{Reply, failure, status_forbidden}
use event_driven_tests_ai.Api.Auth.{require_role, role_rank, bearer, admit, require_role-bearer}

pub record Config : Type 0 where
  pub require_auth : Bool
  pub admin_token : String
  pub worker_token : String

module _ {F S : Type 0} (storage : Storage F S) where
  -- What the logger is told is left out.
  unfoldable pub bootstrap_token : String → Role → String → S → S
  bootstrap_token plaintext role note s =
      let (t, s') = storage.issue_token_with_plaintext plaintext role note s in
      if plaintext == "" then s else s'

-- Two calls of the storage, in two environments.
unfoldable pub bootstrap_admin : {F S : Type 0} → Storage F S → Storage F S → Config → S → S
unfolding bootstrap_token
bootstrap_admin first second cfg s =
    bootstrap_token second cfg.worker_token role_worker "bootstrap-worker"
      (bootstrap_token first cfg.admin_token role_admin "bootstrap-admin" s)

-- The routes of the API and of MCP, by the group that mounts them.
pub data Route : Type 0 where
  scenario_reads run_reads eval_run_reads worker_reads mcp : Route
  run_writes eval_run_writes worker_lifecycle : Route
  scenario_writes adhoc_run worker_writes : Route
  tokens : Route

abbrev pub min_role : Route → Role
min_role scenario_reads = role_viewer
min_role run_reads = role_viewer
min_role eval_run_reads = role_viewer
min_role worker_reads = role_viewer
min_role mcp = role_viewer
min_role run_writes = role_worker
min_role eval_run_writes = role_worker
min_role worker_lifecycle = role_worker
min_role scenario_writes = role_editor
min_role adhoc_run = role_editor
min_role worker_writes = role_editor
min_role tokens = role_admin

-- The role that the context carries is empty where no middleware set one.
unfoldable pub maybe_require :
    {F S B : Type 0}
    → Storage F S
    → Config
    → Role
    → String
    → (Role → S → Reply B × S)
    → S
    → Reply B × S
maybe_require storage cfg min header next s =
    if cfg.require_auth then require_role storage min header next s else next "" s

-- Whether the MCP tools may write.
unfoldable pub mcp_write_policy : Role → Bool
mcp_write_policy role = role == role_editor || role == role_admin

-- The routes that a worker's token opens.
abbrev pub open_to_workers : Route → Bool
open_to_workers scenario_reads = true
open_to_workers run_reads = true
open_to_workers eval_run_reads = true
open_to_workers worker_reads = true
open_to_workers mcp = true
open_to_workers run_writes = true
open_to_workers eval_run_writes = true
open_to_workers worker_lifecycle = true
open_to_workers scenario_writes = false
open_to_workers adhoc_run = false
open_to_workers worker_writes = false
open_to_workers tokens = false

rank-open_to_workers :
    {A : Type 0} (r : Route) (x y : A)
    → (if ltb (role_rank role_worker) (role_rank (min_role r)) then x else y)
      ≡ (if open_to_workers r then y else x)
unfolding role_rank
rank-open_to_workers scenario_reads x y = refl
rank-open_to_workers run_reads x y = refl
rank-open_to_workers eval_run_reads x y = refl
rank-open_to_workers worker_reads x y = refl
rank-open_to_workers mcp x y = refl
rank-open_to_workers run_writes x y = refl
rank-open_to_workers eval_run_writes x y = refl
rank-open_to_workers worker_lifecycle x y = refl
rank-open_to_workers scenario_writes x y = refl
rank-open_to_workers adhoc_run x y = refl
rank-open_to_workers worker_writes x y = refl
rank-open_to_workers tokens x y = refl

module _ {F : Type 0} (env : Environment F) where
  bootstrap_token-some :
      (plaintext : String) (role : Role) (note : String) (s : MemStore F)
      → (plaintext == "") ≡ false
      → bootstrap_token (mem_storage env) plaintext role note s
        ≡ (issue_locked env.hash_token env.fresh env.now plaintext role note s).1
  unfolding bootstrap_token issue_token_with_plaintext
  bootstrap_token-some plaintext role note s some_text = rw some_text

  lookup-bootstrap_token_other :
      (plaintext : String) (role : Role) (note : String) (s : MemStore F) (other : String)
      → (env.hash_token plaintext == other) ≡ false
      → lookup other (bootstrap_token (mem_storage env) plaintext role note s).tokens
        ≡ lookup other s.tokens
  lookup-bootstrap_token_other plaintext role note s other different =
      elim (Bool-cases (plaintext == "")) [
        | inl empty ↦ unfold bootstrap_token in rw empty
        | inr full ↦ rw (bootstrap_token-some plaintext role note s full) (
            lookup-issue_locked_other env.hash_token env.fresh env.now plaintext role note s other
              different)
      ]

module _ {F : Type 0} (env : Environment F) where
  lookup_token-bootstrap_admin :
      (now : Time) (fresh : String) (cfg : Config)
      → (cfg.worker_token == "") ≡ false
      → (env.hash_token cfg.admin_token == env.hash_token cfg.worker_token) ≡ false
      → let later : Environment F = record env { now = now; fresh = fresh } in
        lookup_token env.hash_token cfg.worker_token
          (bootstrap_admin (mem_storage env) (mem_storage later) cfg (new_store F))
        ≡ ok (record {
          id = str_append "tok_" fresh;
          plaintext = "";
          role = role_worker;
          note = "bootstrap-worker";
          created_at = now;
        })
  lookup_token-bootstrap_admin now fresh cfg full different =
      let later : Environment F = record env { now = now; fresh = fresh } in
      let s =
        bootstrap_token (mem_storage env) cfg.admin_token role_admin "bootstrap-admin"
          (new_store F) in
      unfold bootstrap_admin in
      ap (lookup_token env.hash_token cfg.worker_token)
        (bootstrap_token-some later cfg.worker_token role_worker "bootstrap-worker" s full)
      ∙ lookup_token-issue_locked_new env.hash_token fresh now cfg.worker_token role_worker
          "bootstrap-worker" s
          (lookup-bootstrap_token_other env cfg.admin_token role_admin "bootstrap-admin"
              (new_store F) (env.hash_token cfg.worker_token) different
            ∙ lookup-empty (env.hash_token cfg.worker_token))

  -- After a start with an empty store and authentication required, the worker token opens exactly
  -- the routes for reading and for the workers themselves, with the role of a worker; every route
  -- that writes scenarios, starts ad-hoc runs, assigns or manages tokens answers 403. The token must be a text
  -- that trimming leaves as it is, and its digest not be that of the admin token.
  pub maybe_require-bootstrap_admin :
      {B : Type 0} (now : Time) (fresh : String) (cfg : Config) (r : Route)
      (next : Role → MemStore F → Reply B × MemStore F)
      → cfg.require_auth ≡ true
      → trim_space cfg.worker_token ≡ cfg.worker_token
      → (cfg.worker_token == "") ≡ false
      → (env.hash_token cfg.admin_token == env.hash_token cfg.worker_token) ≡ false
      → let later : Environment F = record env { now = now; fresh = fresh } in
        let s = bootstrap_admin (mem_storage env) (mem_storage later) cfg (new_store F) in
        maybe_require (mem_storage later) cfg (min_role r) (bearer cfg.worker_token) next s ≡ (
          if open_to_workers r then next role_worker s else (
            failure status_forbidden (
                str_append
                  (str_append (str_append "insufficient role: have " role_worker) ", need ")
                  (min_role r)),
            s,
          ))
  unfolding maybe_require bootstrap_admin
  maybe_require-bootstrap_admin now fresh cfg r next auth clean full different =
      let later : Environment F = record env { now = now; fresh = fresh } in
      let s = bootstrap_admin (mem_storage env) (mem_storage later) cfg (new_store F) in
      rw auth (
        require_role-bearer (mem_storage later) (min_role r) cfg.worker_token next s clean full
        ∙ rw (lookup_token-bootstrap_admin now fresh cfg full different)
            (rank-open_to_workers r _ (next role_worker s)))
