-- ===== src/Mcp.antt =====
-- pkg/controlplane/mcp/mcp.go: the tools of the control plane over JSON-RPC. Arguments are read as
-- encoding/json reads them into a struct, where a key stands for the field whose name it is but for
-- the case of its letters.
use Prim.Native.Char.{Char, code}
use event_driven_tests_ai.Common.{
  ℕ, ◌+◌, ◌-◌, String, List, [], ◌∷◌, if◌then◌else◌, ◌==◌, ◌&&◌, leb, nat_comparable, Bool, true,
  false, Option, none, some,
}
use event_driven_tests_ai.Common.Dict.{Dict}
use event_driven_tests_ai.Common.Int.{ℤ, pos, negsuc}
use event_driven_tests_ai.Json.{Json, Fields, null, int, text, obj, end, field}
use event_driven_tests_ai.Storage.{Labels, Scenario, Run, CheckRow, Worker}
pub mod Tools
pub mod Handler
pub mod Policy
pub mod Replies
mod Examples

-- An ASCII letter is folded to its capital.
abbrev fold : ℕ → ℕ
fold n = if leb 97 n && leb n 122 then n - 32 else n

unfoldable pub equal_fold : String → String → Bool
equal_fold String.[] String.[] = true
equal_fold String.[] (String.◌∷◌ d t) = false
equal_fold (String.◌∷◌ c s) String.[] = false
equal_fold (String.◌∷◌ c s) (String.◌∷◌ d t) =
    let rest = equal_fold s t in fold (code c) == fold (code d) && rest

-- An argument that was read, and whether its value had the right type.
pub record Arg (A : Type 0) : Type 0 where
  pub value : A
  pub well : Bool

abbrev pub read_as : {A : Type 0} → A → Bool → Arg A
read_as v b = record { value = v; well = b }

abbrev with_label : String → Arg String → Arg Labels → Arg Labels
with_label k v ls = read_as ((k, v.value) ∷ ls.value) (v.well && ls.well)

module _ {G : Type 0} where
  -- The last field that a key stands for.
  unfoldable pub argument : String → Fields G → Option (Json G)
  unfolding equal_fold
  argument name end = none
  argument name (field k v fs) = elim (argument name fs) [
    | some w ↦ some w
    | none ↦ if equal_fold k name then some v else none
  ]

  abbrev pub as_string : Option (Json G) → Arg String
  as_string none = read_as "" true
  as_string (some null) = read_as "" true
  as_string (some (text t)) = read_as t true
  as_string (some v) = read_as "" false

  abbrev pub as_int : Option (Json G) → Arg ℤ
  as_int none = read_as (pos 0) true
  as_int (some null) = read_as (pos 0) true
  as_int (some (int i)) = read_as i true
  as_int (some v) = read_as (pos 0) false

  unfoldable pub labels_of : Fields G → Arg Labels
  labels_of end = read_as [] true
  labels_of (field k v fs) = with_label k (as_string (some v)) (labels_of fs)

  abbrev pub as_labels : Option (Json G) → Arg Labels
  as_labels none = read_as [] true
  as_labels (some null) = read_as [] true
  as_labels (some (obj fs)) = labels_of fs
  as_labels (some v) = read_as [] false

  -- The fields of an argument object; null leaves a struct as it is, all else is an error.
  abbrev pub members : Option (Json G) → Arg (Fields G)
  members none = read_as end false
  members (some null) = read_as end true
  members (some (obj fs)) = read_as fs true
  members (some v) = read_as end false

-- What a tool answers.
pub data ToolAnswer (F : Type 0) : Type 0 where
  scenarios : List Scenario → ToolAnswer F
  scenario : Scenario → ToolAnswer F
  runs : List Run → ToolAnswer F
  run_with_checks : Run → List CheckRow → ToolAnswer F
  slo : String → ℕ → Dict String F → ToolAnswer F
  workers : List Worker → ToolAnswer F
  assigned : String → String → ToolAnswer F

-- Why a tool fails: the policy, a resource that is not there, or anything else.
pub data ToolError : Type 0 where
  forbidden : String → ToolError
  missing : ToolError
  internal : String → ToolError

pub data Answer (F : Type 0) : Type 0 where
  answered : ToolAnswer F → Answer F
  refused : ToolError → Answer F
