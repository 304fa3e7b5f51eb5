-- ===== src/Spec/Validate.antt =====
-- validateCrossField of pkg/scenario/schema.go.
use event_driven_tests_ai.Common.{
  ℕ, suc, String, List, [], ◌∷◌, ◌≡◌, refl, arith, if◌then◌else◌, ◌==◌, ◌&&◌, ◌||◌, not,
  string_comparable, Bool, true, false, Option, none, some,
}
use event_driven_tests_ai.Spec.{Step, GrpcStep, GrpcAuth, GrpcConnector, Document}

-- The refusals, with the index and the name of the step.
pub data Violation : Type 0 where
  token_required : Violation
  proto_required : ℕ → String → Violation
  proto_twice : ℕ → String → Violation
  method_required : ℕ → String → Violation

abbrev auth_violation : Option GrpcAuth → Option Violation
auth_violation none = none
auth_violation (some auth) =
    if auth.type_name == "bearer" && auth.token == "" then some token_required else none

abbrev connector_violation : Option GrpcConnector → Option Violation
connector_violation none = none
connector_violation (some g) = auth_violation g.auth

module _ {J : Type 0} where
  abbrev grpc_violation : ℕ → String → Option (GrpcStep J) → Option Violation
  grpc_violation i name none = none
  grpc_violation i name (some g) =
      if g.proto == "" && g.proto_file == ""
      then some (proto_required i name)
      else if not (g.proto == "") && not (g.proto_file == "")
      then some (proto_twice i name)
      else if g.method == ""
      then some (method_required i name)
      else none

abbrev or_else : {A : Type 0} → Option A → Option A → Option A
or_else none o = o
or_else (some a) o = some a

module _ {F J : Type 0} where
  abbrev steps_violation : ℕ → List (Step F J) → Option Violation
  steps_violation i [] = none
  steps_violation i (st ∷ sts) =
      or_else (grpc_violation i st.name st.grpc) (steps_violation (suc i) sts)

  unfoldable pub validate_cross_field : Document F J → Option Violation
  validate_cross_field d = or_else (connector_violation d.grpc) (steps_violation 0 d.steps)

-- What a document must be: a bearer token that is not empty, and in every gRPC step a method and
-- exactly one of the two sources.
abbrev auth_fits : Option GrpcAuth → Bool
auth_fits none = true
auth_fits (some auth) = not (auth.type_name == "bearer") || not (auth.token == "")

abbrev connector_fits : Option GrpcConnector → Bool
connector_fits none = true
connector_fits (some g) = auth_fits g.auth

abbrev grpc_fits : {J : Type 0} → Option (GrpcStep J) → Bool
grpc_fits none = true
grpc_fits (some g) =
    (if g.proto == "" then not (g.proto_file == "") else g.proto_file == "") && not (g.method == "")

abbrev steps_fit : {F J : Type 0} → List (Step F J) → Bool
steps_fit [] = true
steps_fit (st ∷ sts) = grpc_fits st.grpc && steps_fit sts

abbrev pub fits : {F J : Type 0} → Document F J → Bool
fits d = connector_fits d.grpc && steps_fit d.steps

abbrev pub is_none : {A : Type 0} → Option A → Bool
is_none none = true
is_none (some a) = false

is_none-or_else : {A : Type 0} (o p : Option A) → is_none (or_else o p) ≡ is_none o && is_none p
is_none-or_else none p = refl
is_none-or_else (some a) p = refl

grpc_violation-fits :
    {J : Type 0} (i : ℕ) (name : String) (g : Option (GrpcStep J))
    → is_none (grpc_violation i name g) ≡ grpc_fits g
grpc_violation-fits i name none = refl
grpc_violation-fits i name (some g) = ground arith

auth_violation-fits : (a : Option GrpcAuth) → is_none (auth_violation a) ≡ auth_fits a
auth_violation-fits none = refl
auth_violation-fits (some auth) = ground arith

connector_violation-fits :
    (g : Option GrpcConnector) → is_none (connector_violation g) ≡ connector_fits g
connector_violation-fits none = refl
connector_violation-fits (some g) = auth_violation-fits g.auth

steps_violation-fits :
    {F J : Type 0} (i : ℕ) (sts : List (Step F J)) → is_none (steps_violation i sts) ≡ steps_fit sts
steps_violation-fits i [] = refl
steps_violation-fits i (st ∷ sts) =
    rw (is_none-or_else, grpc_violation-fits, steps_violation-fits (suc i) sts) refl

-- A document is accepted exactly when a gRPC connector that authenticates by bearer has a token and
-- every gRPC step has a method and one of the two proto sources, but not both.
pub validate_cross_field-fits :
    {F J : Type 0} (d : Document F J) → is_none (validate_cross_field d) ≡ fits d
unfolding validate_cross_field
validate_cross_field-fits d =
    rw (is_none-or_else, connector_violation-fits, steps_violation-fits 0 d.steps) refl
