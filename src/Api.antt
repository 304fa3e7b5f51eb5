-- ===== src/Api.antt =====
-- pkg/controlplane/api: the REST handlers. A handler takes the parts of the request that it reads
-- and the state behind `Storage`, and gives a reply and the next state. The text that `json`
-- decodes a body from is kept with its decoder, which is a parameter.
pub mod Auth
pub mod Tokens
pub mod Workers
pub mod Scenarios
pub mod Outline
pub mod Runs
pub mod Ingesting
pub mod Assigning
pub mod Uploading
pub mod EvalRuns
pub mod Adhoc
mod Examples
use event_driven_tests_ai.Common.{ℕ, String}
use event_driven_tests_ai.Storage.{StorageError, not_found, message}

-- What `writeJSON` and `writeError` send: a status with a body, or with `{"error": text}`.
pub data Reply {ℓ} (B : Type ℓ) : Type ℓ where
  reply : ℕ → B → Reply B
  failure : ℕ → String → Reply B

abbrev pub status_ok : ℕ
status_ok = 200

abbrev pub status_created : ℕ
status_created = 201

abbrev pub status_accepted : ℕ
status_accepted = 202

abbrev pub status_no_content : ℕ
status_no_content = 204

abbrev pub status_bad_request : ℕ
status_bad_request = 400

abbrev pub status_unauthorized : ℕ
status_unauthorized = 401

abbrev pub status_forbidden : ℕ
status_forbidden = 403

abbrev pub status_not_found : ℕ
status_not_found = 404

abbrev pub status_internal : ℕ
status_internal = 500

-- `err.Error()`
abbrev pub error_text : StorageError → String
error_text not_found = "storage: not found"
error_text (message m) = m

abbrev pub status_for_storage_err : StorageError → ℕ
status_for_storage_err not_found = status_not_found
status_for_storage_err (message m) = status_internal

abbrev pub storage_failure {ℓ} : {B : Type ℓ} → StorageError → Reply B
storage_failure e = failure (status_for_storage_err e) (error_text e)

abbrev pub internal_failure {ℓ} : {B : Type ℓ} → StorageError → Reply B
internal_failure e = failure status_internal (error_text e)

-- What `json.Unmarshal` makes of a body: a value, or the text of its error.
pub data Decoded {ℓ} (A : Type ℓ) : Type ℓ where
  decoded : A → Decoded A
  malformed : String → Decoded A
