-- ===== src/Json.antt =====
-- The values of Go's `any` that the program passes around: what `encoding/json` and the YAML parser
-- give. A `float64` is of a type `F`.
pub mod Equal
use event_driven_tests_ai.Common.{
  String, List, [], ◌∷◌, ◌&&◌, ◌||◌, ◌==◌, string_comparable, if◌then◌else◌, Bool, true, false,
  Option, none, some, ℕ, suc,
}
use event_driven_tests_ai.Common.Dict.{Dict, insert}
use event_driven_tests_ai.Common.Int.{ℤ}

-- The operations on `float64` that the code uses on such values.
pub record Numbers (F : Type 0) : Type 0 where
  pub of_int : ℤ → F
  pub equal : F → F → Bool
  pub less : F → F → Bool

mutual
  -- `int` stands for Go's integer types, `num` for its floats.
  pub data Json (F : Type 0) : Type 0 where
    null : Json F
    bool : Bool → Json F
    int : ℤ → Json F
    num : F → Json F
    text : String → Json F
    arr : Items F → Json F
    obj : Fields F → Json F

  pub data Items (F : Type 0) : Type 0 where
    nil : Items F
    item : Json F → Items F → Items F

  -- One field for each key.
  pub data Fields (F : Type 0) : Type 0 where
    end : Fields F
    field : String → Json F → Fields F → Fields F

module _ {F : Type 0} where
  -- `v[k]`, where a missing key reads as nil.
  unfoldable pub get : String → Fields F → Json F
  get k end = null
  get k (field j v fs) = if j == k then v else get k fs

  unfoldable pub has_field : String → Fields F → Bool
  has_field k end = false
  has_field k (field j v fs) = j == k || has_field k fs

  unfoldable pub count_fields : Fields F → ℕ
  count_fields end = 0
  count_fields (field k v fs) = suc (count_fields fs)

  unfoldable pub count_items : Items F → ℕ
  count_items nil = 0
  count_items (item v vs) = suc (count_items vs)

  -- The fields of an object, and an object of given fields, in their order.
  unfoldable pub fields_of : Fields F → Dict String (Json F)
  fields_of end = []
  fields_of (field k v fs) = (k, v) ∷ fields_of fs

  unfoldable pub of_fields : Dict String (Json F) → Fields F
  of_fields [] = end
  of_fields ((k, v) ∷ d) = field k v (of_fields d)

  abbrev pub object : Dict String (Json F) → Json F
  unfolding of_fields
  object d = obj (of_fields d)

  abbrev pub is_object : Json F → Bool
  is_object (obj fs) = true
  is_object _ = false

  abbrev pub fields : Json F → Dict String (Json F)
  unfolding fields_of
  fields (obj fs) = fields_of fs
  fields _ = []

  -- `toFloat` of pkg/orchestrator/grpc.go and `toNumber` of pkg/httpc/client.go. An `int` is one of Go's
  -- signed integers; `uint64`, which YAML gives for integers above those, is none of the values here.
  unfoldable pub to_float : Numbers F → Json F → Option F
  to_float n (num x) = some x
  to_float n (int i) = some (n.of_int i)
  to_float n _ = none
