-- ===== src/Api/Uploading.antt =====
-- Uploads of scenarios to the in-memory store: dry runs, and what becomes of the labels.
use event_driven_tests_ai.Common.{
  ℕ, String, [], ◌≡◌, refl, ◌==◌, string_comparable, true, false, Option, none, some, Bool-cases,
  inl, inr,
}
use event_driven_tests_ai.Common.Dict.{lookup, eq_refl}
use event_driven_tests_ai.Storage.{Labels, Result, ok, err, Scenario, MemStore}
use event_driven_tests_ai.Storage.Interface.{Environment, mem_storage}
use event_driven_tests_ai.Storage.Scenarios.{
  upsert_scenario, get_scenario, Upload, upload_to, found, get_scenario-found,
  lookup-upsert_scenario,
}
use event_driven_tests_ai.Api.{Reply, reply, failure, Decoded, decoded, malformed}
use event_driven_tests_ai.Api.Scenarios.{
  Parsers, create_from, create_scenario, update_scenario, read_document, read_scenario_payload,
}

-- Why a request was refused, if it was.
abbrev pub refusal {ℓ} : {B : Type ℓ} → Reply B → Option (ℕ × String)
refusal (reply n b) = none
refusal (failure n e) = some (n, e)

abbrev pub labels_of : Result Scenario → Labels
labels_of (err e) = []
labels_of (ok sc) = sc.labels

module _ {F D : Type 0} (env : Environment F) (p : Parsers D) where
  refusal-create_from :
      (doc : Decoded (String × D)) (s : MemStore F)
      → (refusal (create_from p (mem_storage env) true doc s).0
          ≡ refusal (create_from p (mem_storage env) false doc s).0)
        × ((create_from p (mem_storage env) true doc s).1 ≡ s)
  unfolding upsert_scenario
  refusal-create_from (malformed e) s = (refl, refl)
  refusal-create_from (decoded (yaml, d)) s = elim (Bool-cases (p.metadata_name d == "")) [
    | inl unnamed ↦ rw unnamed (refl, refl)
    | inr named ↦ rw named (refl, refl)
  ]

  -- A dry run stores nothing, and is refused exactly when the upload itself would be, with the same
  -- status and text.
  pub create_scenario-dry_run :
      (body : String) (s : MemStore F)
      → (refusal (create_scenario p (mem_storage env) true body s).0
          ≡ refusal (create_scenario p (mem_storage env) false body s).0)
        × ((create_scenario p (mem_storage env) true body s).1 ≡ s)
  unfolding create_scenario
  create_scenario-dry_run body s =
      refusal-create_from (read_document p (read_scenario_payload p body)) s

  labels-upload_to :
      (o : Option Scenario) (u : Upload) → labels_of (found (some (upload_to o u))) ≡ u.labels
  labels-upload_to none u = refl
  labels-upload_to (some sc) u = refl

  labels-upsert_scenario :
      (name yaml : String) (labels : Labels) (s : MemStore F)
      → labels_of (get_scenario name (upsert_scenario env.now name yaml labels s).1) ≡ labels
  labels-upsert_scenario name yaml labels s =
      let u : Upload = record { at = env.now; name = name; yaml = yaml; labels = labels } in
      rw (get_scenario-found, lookup-upsert_scenario u s name, eq_refl name)
        (labels-upload_to (lookup name s.scenarios) u)

  -- An upload of a document keeps its labels; an update by the same document leaves the scenario
  -- with no labels at all. The body must be accepted and the document have a name.
  pub labels-update_scenario :
      (body name yaml : String) (d : D) (s : MemStore F)
      → read_document p (read_scenario_payload p body) ≡ decoded (yaml, d)
      → (p.metadata_name d == "") ≡ false
      → (labels_of
            (get_scenario (p.metadata_name d) (create_scenario p (mem_storage env) false body s).1)
          ≡ p.metadata_labels d)
        × (labels_of (get_scenario name (update_scenario p (mem_storage env) name body s).1) ≡ [])
  unfolding create_scenario update_scenario
  labels-update_scenario body name yaml d s read named =
      rw (read, named)
        (
          labels-upsert_scenario (p.metadata_name d) yaml (p.metadata_labels d) s,
          labels-upsert_scenario name yaml [] s,
        )
