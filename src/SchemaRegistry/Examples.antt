-- ===== src/SchemaRegistry/Examples.antt =====
-- The codec on a registry with one schema, whose format writes a number as one byte.
use mathlib.Core.Path.{subst, sym, ap}
use event_driven_tests_ai.Common.{
  ℕ, List, [], ◌∷◌, ◌++◌, ◌≡◌, ◌<◌, refl, arith, string_comparable, nat_comparable,
}
use event_driven_tests_ai.Common.Int.{pos}
use event_driven_tests_ai.Common.Dict.{lookup}
use event_driven_tests_ai.SchemaRegistry.{encode_header}
use event_driven_tests_ai.SchemaRegistry.Codec.{
  Answer, found, failed, text, Schema, Handler, Registry, Codec, build_handler, encode, decode,
  handler_for_subject,
}
use event_driven_tests_ai.SchemaRegistry.Roundtrip.{IsImmutable, IsCoherent, decode-encode}

abbrev read_byte : List ℕ → Answer ℕ
read_byte [] = failed (text "empty")
read_byte (n ∷ ns) = found n

abbrev byte_handler : Handler ℕ
byte_handler = record { encode = λ v. found (v ∷ []); decode = read_byte }

abbrev schema : Schema
schema = record { id = 9; type_name = "JSON"; schema = "byte" }

abbrev registry : Registry ℕ
registry = record {
  get_latest_version = λ subject. found schema;
  get_schema_by_id = λ id. found schema;
  new_avro_handler = λ s. found byte_handler;
  new_json_handler = λ s. found byte_handler;
  new_proto_handler = λ s. found byte_handler;
}

abbrev value_or : {A : Type 0} → A → Answer A → A
value_or d (found a) = a
value_or d (failed e) = d

abbrev codec : Codec ℕ
codec = record { ttl = 0; by_id = []; by_sub = [] }

registry-IsImmutable : IsImmutable registry (λ id. byte_handler)
unfolding build_handler
registry-IsImmutable = record {
  same = λ subject s h latest built. sym (
      ap (value_or byte_handler) (
        subst (λ x. build_handler registry x ≡ found h) (sym (ap (value_or schema) latest)) built));
  fits = λ subject s latest.
      subst (λ x. x.id < 4294967296) (ap (value_or schema) latest) (omega arith);
}

codec-IsCoherent : IsCoherent {V = ℕ} (λ id. byte_handler) codec
unfolding lookup
codec-IsCoherent = record { by_sub = λ subject e at. ground arith; by_id = λ id h at. ground arith }

encoded : (encode registry 3 "s" 7 codec).0 ≡ found (encode_header (pos 9) ++ (7 ∷ []))
unfolding encode handler_for_subject build_handler lookup
encoded = refl

decode-encode_example :
    decode registry (encode_header (pos 9) ++ (7 ∷ [])) (encode registry 3 "s" 7 codec).1
    ≡ (found 7, (encode registry 3 "s" 7 codec).1)
decode-encode_example =
    decode-encode registry (λ id. byte_handler) 3 "s" 7 (encode_header (pos 9) ++ (7 ∷ [])) codec
      registry-IsImmutable codec-IsCoherent (λ id b e. ap read_byte (sym (ap (value_or []) e)))
      encoded
