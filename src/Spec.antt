-- ===== src/Spec.antt =====
-- pkg/scenario: the document that a user writes, as far as the steps, the checks and the gRPC
-- connector go, and the constraints between its fields. A `float64` is of a type `F`, a JSON value
-- of a type `J`.
pub mod Validate
pub mod Percentage
mod Examples
use event_driven_tests_ai.Common.{String, List, Option, Bool}
use event_driven_tests_ai.Common.Dict.{Dict}
use event_driven_tests_ai.Common.Int.{ℤ}
use event_driven_tests_ai.Checks.Result.{Check}

-- A rule is a CEL expression.
pub record MatchRule : Type 0 where
  pub key : String

pub record SlowMode : Type 0 where
  pub pause_every : ℤ
  pub pause_for : String

pub record ProduceStep (F : Type 0) : Type 0 where
  pub topic : String
  pub payload : String
  pub key : String
  pub rate : String
  pub count : ℤ
  pub fail_rate : F
  pub fail_mode : String
  pub schema_subject : String

pub record ConsumeStep : Type 0 where
  pub topic : String
  pub group : String
  pub timeout : String
  pub matching : List MatchRule
  pub slow_mode : Option SlowMode

pub record HttpExpect (J : Type 0) : Type 0 where
  pub status : ℤ
  pub headers : Dict String String
  pub body : Dict String J

pub record HttpStep (F J : Type 0) : Type 0 where
  pub method : String
  pub path : String
  pub headers : Dict String String
  pub body : String
  pub expect : Option (HttpExpect J)
  pub fail_rate : F
  pub fail_mode : String

pub record WebSocketStep : Type 0 where
  pub path : String
  pub send : String
  pub count : ℤ
  pub timeout : String
  pub matching : List MatchRule
  pub slow_mode : Option SlowMode

pub record SseStep : Type 0 where
  pub path : String
  pub count : ℤ
  pub timeout : String
  pub matching : List MatchRule
  pub slow_mode : Option SlowMode

pub record GrpcExpect (J : Type 0) : Type 0 where
  pub code : ℤ
  pub body : Dict String J

pub record GrpcStep (J : Type 0) : Type 0 where
  pub proto : String
  pub proto_file : String
  pub method : String
  pub request : String
  pub expect : Option (GrpcExpect J)

-- The parts that are not there are `none`; `sleep` is empty when there is none.
pub record Step (F J : Type 0) : Type 0 where
  pub name : String
  pub produce : Option (ProduceStep F)
  pub consume : Option ConsumeStep
  pub http : Option (HttpStep F J)
  pub web_socket : Option WebSocketStep
  pub sse : Option SseStep
  pub grpc : Option (GrpcStep J)
  pub sleep : String

pub record GrpcAuth : Type 0 where
  pub type_name : String
  pub token : String

pub record GrpcConnector : Type 0 where
  pub address : String
  pub tls : Bool
  pub auth : Option GrpcAuth

-- The document, without the connectors that its constraints do not read.
pub record Document (F J : Type 0) : Type 0 where
  pub name : String
  pub grpc : Option GrpcConnector
  pub steps : List (Step F J)
  pub checks : List Check
