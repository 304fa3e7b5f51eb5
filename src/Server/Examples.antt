-- ===== src/Server/Examples.antt =====
-- A start of the server with a worker token.
use event_driven_tests_ai.Common.{ℕ, String, ◌≡◌, refl, true}
use event_driven_tests_ai.Common.Text.{trim_space}
use event_driven_tests_ai.Storage.{new_store, MemStore, Role}
use event_driven_tests_ai.Storage.Interface.{Environment, mem_storage}
use event_driven_tests_ai.Api.{Reply, reply, failure, status_forbidden}
use event_driven_tests_ai.Api.Auth.{bearer}
use event_driven_tests_ai.Server.{
  Config, tokens, min_role, bootstrap_admin, maybe_require, maybe_require-bootstrap_admin,
}

abbrev env : Environment ℕ
env = record {
  now = 5;
  first = "a";
  second = "b";
  fresh = "1";
  hash_token = λ x. x;
  ratio = λ p n. p;
}

abbrev cfg : Config
cfg = record { require_auth = true; admin_token = "root"; worker_token = "hand" }

abbrev answer : Role → MemStore ℕ → Reply String × MemStore ℕ
answer role s = (reply 200 role, s)

abbrev started : MemStore ℕ
started =
    bootstrap_admin (mem_storage env) (mem_storage (record env { now = 6; fresh = "2" })) cfg
      (new_store ℕ)

clean : trim_space "hand" ≡ "hand"
unfolding trim_space
clean = refl

maybe_require-bootstrap_admin_example :
    maybe_require
      (mem_storage (record env { now = 6; fresh = "2" }))
      cfg
      (min_role tokens)
      (bearer "hand")
      answer
      started
    ≡ (failure status_forbidden "insufficient role: have worker, need admin", started)
maybe_require-bootstrap_admin_example =
    maybe_require-bootstrap_admin env 6 "2" cfg tokens answer refl clean refl refl
