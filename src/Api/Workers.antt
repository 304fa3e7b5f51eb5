-- ===== src/Api/Workers.antt =====
-- pkg/controlplane/api/workers.go: the workers' own routes, and their assignments.
use event_driven_tests_ai.Common.{
  String, List, [], map, if◌then◌else◌, ◌==◌, string_comparable, Option, none, some,
}
use event_driven_tests_ai.Events.{Time}
use event_driven_tests_ai.Storage.{Labels, Result, ok, err, Worker, Assignment}
use event_driven_tests_ai.Storage.Interface.{Storage}
use event_driven_tests_ai.Api.{
  Reply, reply, failure, storage_failure, internal_failure, Decoded, decoded, malformed, status_ok,
  status_created, status_bad_request,
}

pub record RegisterRequest : Type 0 where
  pub labels : Labels
  pub version : String

pub record AssignmentWireShape : Type 0 where
  pub scenario : String
  pub assigned_at : String

pub record HeartbeatResponse : Type 0 where
  pub worker_id : String
  pub assignments : List AssignmentWireShape

-- The worker's id and the scenario's name of an assignment that was made.
pub record AssignResponse : Type 0 where
  pub worker_id : String
  pub scenario : String

-- `format` writes a time in UTC by the layout of the code.
abbrev pub wire_shape : (Time → String) → Assignment → AssignmentWireShape
wire_shape format a = record { scenario = a.scenario_name; assigned_at = format a.assigned_at }

module _ {F S : Type 0} (storage : Storage F S) where
  abbrev register_reply : Result Worker × S → Reply String × S
  register_reply (err e, s) = (internal_failure e, s)
  register_reply (ok w, s) = (reply status_created w.id, s)

  -- The reply is the worker's id. An empty body, `none`, is a request with no labels and no version.
  unfoldable pub register_worker : Option (Decoded RegisterRequest) → S → Reply String × S
  register_worker none s = register_reply (storage.register_worker [] "" s)
  register_worker (some (malformed e)) s = (failure status_bad_request e, s)
  register_worker (some (decoded req)) s =
      register_reply (storage.register_worker req.labels req.version s)

  abbrev list_reply : Result (List Worker) → Reply (List Worker)
  list_reply (err e) = internal_failure e
  list_reply (ok ws) = reply status_ok ws

  unfoldable pub list_workers : S → Reply (List Worker)
  list_workers s = list_reply (storage.list_workers s)

  abbrev pub assign_reply : String → String → Result (Unit {0}) × S → Reply AssignResponse × S
  assign_reply id name (err e, s) = (storage_failure e, s)
  assign_reply id name (ok u, s) =
      (reply status_created (record { worker_id = id; scenario = name }), s)

  -- The request's body is the scenario's name.
  unfoldable pub assign_scenario : String → Decoded String → S → Reply AssignResponse × S
  assign_scenario id (malformed e) s = (failure status_bad_request e, s)
  assign_scenario id (decoded name) s =
      if name == ""
      then (failure status_bad_request "scenario is required", s)
      else assign_reply id name (storage.assign_scenario id name s)

  module _ (format : Time → String) where
    abbrev heartbeat_reply : String → Result (List Assignment) → Reply HeartbeatResponse
    heartbeat_reply id (err e) = internal_failure e
    heartbeat_reply id (ok xs) =
        reply status_ok (record { worker_id = id; assignments = map (wire_shape format) xs })

    abbrev pub heartbeat_then : String → Result (Unit {0}) × S → Reply HeartbeatResponse × S
    heartbeat_then id (err e, s) = (storage_failure e, s)
    heartbeat_then id (ok u, s) = (heartbeat_reply id (storage.list_assignments id s), s)

    unfoldable pub heartbeat_worker : String → S → Reply HeartbeatResponse × S
    heartbeat_worker id s = heartbeat_then id (storage.heartbeat id s)

    abbrev assignments_reply : Result (List Assignment) → Reply (List AssignmentWireShape)
    assignments_reply (err e) = internal_failure e
    assignments_reply (ok xs) = reply status_ok (map (wire_shape format) xs)

    unfoldable pub list_assignments : String → S → Reply (List AssignmentWireShape)
    list_assignments id s = assignments_reply (storage.list_assignments id s)
