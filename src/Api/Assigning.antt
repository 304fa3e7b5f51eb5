-- ===== src/Api/Assigning.antt =====
-- What a worker learns by its heartbeat of the assignments that were made.
use event_driven_tests_ai.Common.{
  String, List, [], ◌++◌, map, ◌≡◌, refl, if◌then◌else◌, ◌==◌, string_comparable, ◌∙◌, Option, none,
  some, Bool-cases, inl, inr,
}
use mathlib.Core.List.{append-nil}
use event_driven_tests_ai.Common.Dict.{lookup}
use event_driven_tests_ai.Events.{Time}
use event_driven_tests_ai.Storage.{Assignment, Scenario, Worker, MemStore}
use event_driven_tests_ai.Storage.Interface.{Environment, mem_storage}
use event_driven_tests_ai.Storage.Workers.{
  beaten, assigned, added, heartbeat, list_assignments, list_assignments-assign_scenario,
}
use event_driven_tests_ai.Api.{Reply, reply, failure, decoded, status_ok, status_not_found}
use event_driven_tests_ai.Api.Workers.{
  HeartbeatResponse, wire_shape, heartbeat_then, assign_reply, heartbeat_worker, assign_scenario,
}
use event_driven_tests_ai.Storage.Workers

-- What a heartbeat answers to a worker that has these assignments, if it is known.
abbrev pub beat_reply :
    (Time → String) → String → List Assignment → Option Worker → Reply HeartbeatResponse
beat_reply format id xs none = failure status_not_found "storage: not found"
beat_reply format id xs (some w) =
    reply status_ok (record { worker_id = id; assignments = map (wire_shape format) xs })

module _ {F : Type 0} (env : Environment F) where
  heartbeat_then-beaten :
      (format : Time → String) (o : Option Worker) (id : String) (s : MemStore F)
      → (heartbeat_then (mem_storage env) format id (beaten o env.now id s)).0
        ≡ beat_reply format id (list_assignments id s) o
  unfolding list_assignments
  heartbeat_then-beaten format none id s = refl
  heartbeat_then-beaten format (some w) id s = refl

  heartbeat_worker-reply :
      (format : Time → String) (id : String) (s : MemStore F)
      → (heartbeat_worker (mem_storage env) format id s).0
        ≡ beat_reply format id (list_assignments id s) (lookup id s.workers)
  unfolding heartbeat_worker heartbeat
  heartbeat_worker-reply format id s = heartbeat_then-beaten format (lookup id s.workers) id s

  workers-assigned :
      (o : Option Worker) (p : Option Scenario) (a : Assignment) (s : MemStore F)
      → (assigned o p a s).1.workers ≡ s.workers
  workers-assigned none p a s = refl
  workers-assigned (some w) none a s = refl
  workers-assigned (some w) (some sc) a s = refl

  assign_reply-state :
      (w n : String) (o : Option Worker) (p : Option Scenario) (a : Assignment) (s : MemStore F)
      → (assign_reply (mem_storage env) w n (assigned o p a s)).1 ≡ (assigned o p a s).1
  assign_reply-state w n none p a s = refl
  assign_reply-state w n (some v) none a s = refl
  assign_reply-state w n (some v) (some sc) a s = refl

  assign_reply-assign_scenario :
      (w n : String) (s : MemStore F)
      → (assign_reply (mem_storage env) w n (Workers.assign_scenario env.now w n s)).1
        ≡ (Workers.assign_scenario env.now w n s).1
  unfolding Workers.assign_scenario
  assign_reply-assign_scenario w n s =
      assign_reply-state w n (lookup w s.workers) (lookup n s.scenarios) _ s

  workers-assign_scenario :
      (w n : String) (s : MemStore F)
      → (Workers.assign_scenario env.now w n s).1.workers ≡ s.workers
  unfolding Workers.assign_scenario
  workers-assign_scenario w n s = workers-assigned (lookup w s.workers) (lookup n s.scenarios) _ s

  -- A heartbeat after an assignment: an unknown worker gets 404; a known one gets its assignments in
  -- the order in which they were made, the new one last if it is for that worker and both the
  -- worker and the scenario are known; an empty scenario name adds nothing.
  pub heartbeat_worker-assign_scenario :
      (format : Time → String) (w n id : String) (s : MemStore F)
      → (heartbeat_worker
          (mem_storage env)
          format
          id
          (assign_scenario (mem_storage env) w (decoded n) s).1).0
        ≡ beat_reply format id
            (list_assignments id s
              ++ (if n == ""
                  then []
                  else added
                      (lookup w s.workers)
                      (lookup n s.scenarios)
                      (record { worker_id = w; scenario_name = n; assigned_at = env.now })
                      id))
            (lookup id s.workers)
  unfolding assign_scenario
  heartbeat_worker-assign_scenario format w n id s = elim (Bool-cases (n == "")) [
    | inl empty ↦ rw (empty, append-nil) (heartbeat_worker-reply format id s)
    | inr named ↦
        rw (named, assign_reply-assign_scenario)
          (heartbeat_worker-reply format id (Workers.assign_scenario env.now w n s).1
            ∙ rw (list_assignments-assign_scenario, workers-assign_scenario) refl)
  ]
