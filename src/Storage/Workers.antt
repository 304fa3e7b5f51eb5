-- ===== src/Storage/Workers.antt =====
-- The workers of `MemStore`, their heartbeats and their assignments.
use Prim.Native.String.{◌++◌ as str_append}
use event_driven_tests_ai.Common.{
  ℕ, String, List, [], ◌∷◌, ◌++◌, ◌≡◌, refl, ◌∙◌, if◌then◌else◌, ◌==◌, string_comparable, Option,
  none, some, ascii, eq_iff, Bool-cases, inl, inr, sym,
}
use mathlib.Core.List.{append-nil}
use event_driven_tests_ai.Common.Dict.{lookup, insert, lookup_or, lookup_or-insert}
use event_driven_tests_ai.Common.Sort.{sort, by_text}
use event_driven_tests_ai.Events.{Time}
use event_driven_tests_ai.Storage.{
  Labels, Result, ok, err, not_found, Scenario, Worker, Assignment, MemStore,
}
use event_driven_tests_ai.Storage.Runs.{values}

abbrev worker_id : Worker → List ℕ
worker_id w = ascii w.id

-- The end of `Heartbeat`, and of `AssignScenario` once both names were looked up.
abbrev pub beaten :
    {F : Type 0} → Option Worker → Time → String → MemStore F → Result (Unit {0}) × MemStore F
beaten none now id s = (err not_found, s)
beaten (some w) now id s =
    (ok tt, record s { workers = insert id (record w { last_heartbeat = now }) s.workers })

abbrev pub assigned :
    {F : Type 0}
    → Option Worker
    → Option Scenario
    → Assignment
    → MemStore F
    → Result (Unit {0}) × MemStore F
assigned none o a s = (err not_found, s)
assigned (some w) none a s = (err not_found, s)
assigned (some w) (some sc) a s = (
  ok tt,
  record s {
    assignments =
        insert a.worker_id (lookup_or a.worker_id s.assignments [] ++ (a ∷ [])) s.assignments;
  },
)

module _ {F : Type 0} where
  -- `fresh` is what `randID` returns.
  unfoldable pub register_worker :
      String → Time → Labels → String → MemStore F → Worker × MemStore F
  register_worker fresh now labels version s =
      let w : Worker = record {
        id = str_append "w-" fresh;
        labels = labels;
        version = version;
        registered_at = now;
        last_heartbeat = now;
      } in
      (w, record s { workers = insert w.id w s.workers })

  unfoldable pub heartbeat : Time → String → MemStore F → Result (Unit {0}) × MemStore F
  heartbeat now id s = beaten (lookup id s.workers) now id s

  unfoldable pub list_workers : MemStore F → List Worker
  list_workers s = sort (by_text worker_id) (values s.workers)

  unfoldable pub assign_scenario :
      Time → String → String → MemStore F → Result (Unit {0}) × MemStore F
  assign_scenario now worker_id scenario_name s =
      let a : Assignment = record {
        worker_id = worker_id;
        scenario_name = scenario_name;
        assigned_at = now;
      } in
      assigned (lookup worker_id s.workers) (lookup scenario_name s.scenarios) a s

  unfoldable pub list_assignments : String → MemStore F → List Assignment
  list_assignments worker_id s = lookup_or worker_id s.assignments []

-- What an assignment adds to the list of the worker `id`: nothing when the worker or the scenario
-- is not known.
abbrev pub added : Option Worker → Option Scenario → Assignment → String → List Assignment
added none o a id = []
added (some w) none a id = []
added (some w) (some sc) a id = if a.worker_id == id then a ∷ [] else []

lookup_or-assigned :
    {F : Type 0} (o : Option Worker) (p : Option Scenario) (a : Assignment) (id : String)
    (s : MemStore F)
    → lookup_or id (assigned o p a s).1.assignments []
      ≡ lookup_or id s.assignments [] ++ added o p a id
lookup_or-assigned none p a id s = sym (append-nil (lookup_or id s.assignments []))
lookup_or-assigned (some w) none a id s = sym (append-nil (lookup_or id s.assignments []))
lookup_or-assigned (some w) (some sc) a id s =
    let e =
      lookup_or-insert a.worker_id id (lookup_or a.worker_id s.assignments [] ++ (a ∷ [])) []
        s.assignments in
    elim (Bool-cases (a.worker_id == id)) [
      | inl same ↦ e ∙ rw (same, sym ((eq_iff a.worker_id id).0 same)) refl
      | inr different ↦ e ∙ rw different (sym (append-nil (lookup_or id s.assignments [])))
    ]

-- When both the worker and the scenario are known, an assignment is put at the end of the worker's
-- list, and otherwise no list changes; the lists of other workers never do.
pub list_assignments-assign_scenario :
    {F : Type 0} (now : Time) (w n : String) (s : MemStore F) (id : String)
    → list_assignments id (assign_scenario now w n s).1
      ≡ list_assignments id s
        ++ added
            (lookup w s.workers)
            (lookup n s.scenarios)
            (record { worker_id = w; scenario_name = n; assigned_at = now })
            id
unfolding list_assignments assign_scenario
list_assignments-assign_scenario now w n s id =
    lookup_or-assigned (lookup w s.workers) (lookup n s.scenarios) _ id s
