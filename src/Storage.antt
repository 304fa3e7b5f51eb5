-- ===== src/Storage.antt =====
-- pkg/controlplane/storage: the rows that the control plane keeps, and the in-memory store.
-- A JSON or YAML body is an opaque text here. The mutex is not modelled: each method is one step.
pub mod Scenarios
pub mod Listing
pub mod Runs
pub mod Slo
pub mod Workers
pub mod Tokens
pub mod Samples
pub mod Extending
pub mod Placement
pub mod Interface
mod Examples
use event_driven_tests_ai.Common.{ℕ, String, Bool, List, []}
use event_driven_tests_ai.Common.Dict.{Dict}
use event_driven_tests_ai.Events.{Time}

abbrev pub Labels : Type 0
Labels = Dict String String

pub data StorageError : Type 0 where
  not_found : StorageError
  message : String → StorageError

pub data Result {ℓ} (A : Type ℓ) : Type ℓ where
  ok : A → Result A
  err : StorageError → Result A

pub record Scenario : Type 0 where
  pub name : String
  pub version : ℕ
  pub yaml : String
  pub labels : Labels
  pub created_at : Time
  pub updated_at : Time

pub record CheckSample : Type 0 where
  pub scenario : String
  pub check : String
  pub ts : Time
  pub passed : Bool
  pub value : String
  pub severity : String
  pub window : String

pub record Run : Type 0 where
  pub id : String
  pub scenario : String
  pub mode : String
  pub status : String
  pub exit_code : ℕ
  pub started_at : Time
  pub finished_at : Time
  pub duration : ℕ
  pub report : String

pub record EvalRun : Type 0 where
  pub id : String
  pub scenario : String
  pub judge_model : String
  pub iterations : ℕ
  pub started_at : Time
  pub finished_at : Time
  pub status : String

-- The `float64` value is of a type `F` that the store only keeps.
pub record EvalResult (F : Type 0) : Type 0 where
  pub run_id : String
  pub name : String
  pub judge_model : String
  pub aggregate : String
  pub samples : ℕ
  pub required_samples : ℕ
  pub value : F
  pub threshold : String
  pub passed : Bool
  pub status : String
  pub errors : ℕ
  pub samples_json : String

pub record CheckRow : Type 0 where
  pub run_id : String
  pub name : String
  pub severity : String
  pub window : String
  pub passed : Bool
  pub value : String
  pub err : String
  pub at : Time

-- `Role` is a string with four named values.
abbrev pub Role : Type 0
Role = String

abbrev pub role_admin : Role
role_admin = "admin"

abbrev pub role_editor : Role
role_editor = "editor"

abbrev pub role_viewer : Role
role_viewer = "viewer"

abbrev pub role_worker : Role
role_worker = "worker"

pub record Token : Type 0 where
  pub id : String
  pub plaintext : String
  pub role : Role
  pub note : String
  pub created_at : Time

pub record Worker : Type 0 where
  pub id : String
  pub labels : Labels
  pub version : String
  pub registered_at : Time
  pub last_heartbeat : Time

pub record Assignment : Type 0 where
  pub worker_id : String
  pub scenario_name : String
  pub assigned_at : Time

-- `MemStore`, with the clock left to the callers.
pub record MemStore (F : Type 0) : Type 0 where
  pub scenarios : Dict String Scenario
  pub runs : Dict String Run
  pub checks_by_run : Dict String (List CheckRow)
  pub workers : Dict String Worker
  pub assignments : Dict String (List Assignment)
  pub tokens : Dict String Token
  pub tokens_by_id : Dict String String
  pub samples : List CheckSample
  pub eval_runs : Dict String EvalRun
  pub eval_results : Dict String (List (EvalResult F))

abbrev pub new_store : (F : Type 0) → MemStore F
new_store F = record {
  scenarios = [];
  runs = [];
  checks_by_run = [];
  workers = [];
  assignments = [];
  tokens = [];
  tokens_by_id = [];
  samples = [];
  eval_runs = [];
  eval_results = [];
}
