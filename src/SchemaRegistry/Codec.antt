-- ===== src/SchemaRegistry/Codec.antt =====
-- `Codec`: encoding by the latest schema of a subject, decoding by the id in the header.
use event_driven_tests_ai.Common.{
  ℕ, ◌+◌, String, List, ◌++◌, if◌then◌else◌, ◌==◌, ltb, ◌||◌, string_comparable, nat_comparable,
  Option, none, some,
}
use event_driven_tests_ai.Common.Int.{pos}
use event_driven_tests_ai.Common.Dict.{Dict, lookup, insert}
use event_driven_tests_ai.Events.{Time, is_zero}
use event_driven_tests_ai.SchemaRegistry.{
  encode_header, HeaderError, Parsed, parsed, refused, parse_header,
}

pub data CodecError : Type 0 where
  header : HeaderError → CodecError
  text : String → CodecError

pub data Answer (A : Type 0) : Type 0 where
  found : A → Answer A
  failed : CodecError → Answer A

-- A schema id is not negative, as the registry hands them out.
pub record Schema : Type 0 where
  pub id : ℕ
  pub type_name : String
  pub schema : String

-- `formatHandler`, for values of a type `V`.
pub record Handler (V : Type 0) : Type 0 where
  pub encode : V → Answer (List ℕ)
  pub decode : List ℕ → Answer V

-- The client of the registry, and the three formats.
pub record Registry (V : Type 0) : Type 0 where
  pub get_latest_version : String → Answer Schema
  pub get_schema_by_id : ℕ → Answer Schema
  pub new_avro_handler : String → Answer (Handler V)
  pub new_json_handler : String → Answer (Handler V)
  pub new_proto_handler : String → Answer (Handler V)

-- `idAndType`
pub record Entry (V : Type 0) : Type 0 where
  pub id : ℕ
  pub handler : Handler V
  pub expires : Time

pub record Codec (V : Type 0) : Type 0 where
  pub ttl : ℕ
  pub by_id : Dict ℕ (Handler V)
  pub by_sub : Dict String (Entry V)

module _ {V : Type 0} (reg : Registry V) where
  unfoldable pub build_handler : Schema → Answer (Handler V)
  build_handler s =
      if s.type_name == "AVRO" || s.type_name == ""
      then reg.new_avro_handler s.schema
      else if s.type_name == "JSON"
      then reg.new_json_handler s.schema
      else if s.type_name == "PROTOBUF"
      then reg.new_proto_handler s.schema
      else failed (text "schemaregistry: unsupported schema type")

  -- A fresh entry goes into both caches.
  abbrev pub keep_latest :
      Time → String → Schema → Answer (Handler V) → Codec V → Answer (Entry V) × Codec V
  keep_latest now subject s (failed e) c = (failed e, c)
  keep_latest now subject s (found h) c =
      let entry : Entry V = record {
        id = s.id;
        handler = h;
        expires = if ltb 0 c.ttl then now + c.ttl else 0;
      } in
      (
        found entry,
        record c { by_sub = insert subject entry c.by_sub; by_id = insert s.id h c.by_id },
      )

  abbrev pub fetch_latest : Time → String → Answer Schema → Codec V → Answer (Entry V) × Codec V
  fetch_latest now subject (failed e) c = (failed e, c)
  fetch_latest now subject (found s) c = keep_latest now subject s (build_handler s) c

  abbrev pub from_cache : Option (Entry V) → Time → String → Codec V → Answer (Entry V) × Codec V
  from_cache none now subject c = fetch_latest now subject (reg.get_latest_version subject) c
  from_cache (some entry) now subject c =
      if is_zero entry.expires || ltb now entry.expires
      then (found entry, c)
      else fetch_latest now subject (reg.get_latest_version subject) c

  unfoldable pub handler_for_subject : Time → String → Codec V → Answer (Entry V) × Codec V
  handler_for_subject now subject c = from_cache (lookup subject c.by_sub) now subject c

  abbrev pub keep_by_id : ℕ → Answer (Handler V) → Codec V → Answer (Handler V) × Codec V
  keep_by_id id (failed e) c = (failed e, c)
  keep_by_id id (found h) c = (found h, record c { by_id = insert id h c.by_id })

  abbrev pub fetch_by_id : ℕ → Answer Schema → Codec V → Answer (Handler V) × Codec V
  fetch_by_id id (failed e) c = (failed e, c)
  fetch_by_id id (found s) c = keep_by_id id (build_handler s) c

  abbrev pub from_ids : Option (Handler V) → ℕ → Codec V → Answer (Handler V) × Codec V
  from_ids (some h) id c = (found h, c)
  from_ids none id c = fetch_by_id id (reg.get_schema_by_id id) c

  unfoldable pub handler_for_id : ℕ → Codec V → Answer (Handler V) × Codec V
  handler_for_id id c = from_ids (lookup id c.by_id) id c

  abbrev pub with_header : ℕ → Answer (List ℕ) → Answer (List ℕ)
  with_header id (failed e) = failed e
  with_header id (found body) = found (encode_header (pos id) ++ body)

  abbrev pub encode_by : Answer (Entry V) → V → Answer (List ℕ)
  encode_by (failed e) v = failed e
  encode_by (found entry) v = with_header entry.id (entry.handler.encode v)

  unfoldable pub encode : Time → String → V → Codec V → Answer (List ℕ) × Codec V
  unfolding handler_for_subject
  encode now subject v c =
      let (entry, c') = handler_for_subject now subject c in (encode_by entry v, c')

  abbrev pub decode_by : Answer (Handler V) → List ℕ → Answer V
  decode_by (failed e) body = failed e
  decode_by (found h) body = h.decode body

  unfoldable pub decode_parsed : Parsed → Codec V → Answer V × Codec V
  unfolding handler_for_id
  decode_parsed (refused e) c = (failed (header e), c)
  decode_parsed (parsed id body) c = let (h, c') = handler_for_id id c in (decode_by h body, c')

  unfoldable pub decode : List ℕ → Codec V → Answer V × Codec V
  unfolding decode_parsed
  decode bytes c = decode_parsed (parse_header bytes) c
