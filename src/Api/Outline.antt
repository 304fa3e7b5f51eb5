-- ===== src/Api/Outline.antt =====
-- Reading one run in pkg/controlplane/api/runs.go, with the outline of its scenario.
use Prim.Native.String.{◌++◌ as str_append}
use event_driven_tests_ai.Common.{
  String, List, map, if◌then◌else◌, ◌==◌, string_comparable, Option, none, some, nat_beq,
}
use event_driven_tests_ai.Common.Int.{ℤ, pos, negsuc}
use event_driven_tests_ai.Spec.{Step, ProduceStep, HttpExpect}
use event_driven_tests_ai.Storage.{Result, ok, err, Scenario, Run, CheckRow}
use event_driven_tests_ai.Storage.Interface.{Storage}
use event_driven_tests_ai.Api.{
  Reply, reply, storage_failure, Decoded, decoded, malformed, status_ok,
}

-- A line of the outline of a scenario; the code leaves out a field that is `none`.
pub record StepRow : Type 0 where
  pub name : String
  pub kind : Option String
  pub where_ : Option String
  pub meta : Option String

abbrev step_row : String → String → String → Option String → StepRow
step_row name kind place meta = record {
  name = name;
  kind = some kind;
  where_ = some place;
  meta = meta;
}

-- `decimal` writes an `int`.
module _ (decimal : ℤ → String) where
  abbrev produce_meta : {F : Type 0} → ProduceStep F → String
  produce_meta p =
      let messages = str_append (decimal p.count) " msgs" in
      if p.rate == "" then messages else str_append (str_append messages " @ ") p.rate

  abbrev expect_meta : {J : Type 0} → Option (HttpExpect J) → Option String
  expect_meta none = none
  expect_meta (some e) = elim e.status [
    | pos n ↦ if nat_beq n 0 then none else some (str_append "expect " (decimal (pos n)))
    | negsuc n ↦ some (str_append "expect " (decimal (negsuc n)))
  ]

  abbrev step_to_wire : {F J : Type 0} → Step F J → StepRow
  step_to_wire st = elim st.produce [
    | some p ↦ step_row st.name "produce" p.topic (some (produce_meta p))
    | none ↦ elim st.consume [
      | some c ↦
          step_row st.name "consume" c.topic
            (some (str_append (str_append (str_append "group=" c.group) " timeout=") c.timeout))
      | none ↦ elim st.http [
        | some h ↦
            step_row st.name "http" (str_append (str_append h.method " ") h.path)
              (expect_meta h.expect)
        | none ↦ elim st.web_socket [
          | some w ↦ step_row st.name "websocket" w.path (some (str_append "timeout=" w.timeout))
          | none ↦ elim st.sse [
            | some e ↦ step_row st.name "sse" e.path (some (str_append "timeout=" e.timeout))
            | none ↦ elim st.grpc [
              | some g ↦ step_row st.name "grpc" g.method none
              | none ↦
                  if st.sleep == ""
                  then record { name = st.name; kind = none; where_ = none; meta = none }
                  else step_row st.name "sleep" st.sleep none
            ]
          ]
        ]
      ]
    ]
  ]

  unfoldable pub steps_to_wire : {F J : Type 0} → List (Step F J) → List StepRow
  steps_to_wire sts = map step_to_wire sts

pub record RunDetail : Type 0 where
  pub run : Run
  pub checks : List CheckRow
  pub steps : Option (List StepRow)

-- `parse` is `scenario.Parse`, down to the steps of the document.
module _ {F J S : Type 0} (decimal : ℤ → String) (parse : String → Decoded (List (Step F J)))
    (storage : Storage F S) where
  abbrev outline : Decoded (List (Step F J)) → Option (List StepRow)
  unfolding steps_to_wire
  outline (malformed e) = none
  outline (decoded sts) = some (steps_to_wire decimal sts)

  abbrev steps_of : Result Scenario → Option (List StepRow)
  unfolding outline
  steps_of (err e) = none
  steps_of (ok sc) = outline (parse sc.yaml)

  detail_of : Result (Run × List CheckRow) → S → Reply RunDetail
  unfolding steps_of
  detail_of (err e) s = storage_failure e
  detail_of (ok (r, rows)) s =
      reply status_ok
        (record { run = r; checks = rows; steps = steps_of (storage.get_scenario r.scenario s) })

  unfoldable pub get_run : String → S → Reply RunDetail
  unfolding detail_of
  get_run id s = detail_of (storage.get_run id s) s
