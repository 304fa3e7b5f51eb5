-- ===== src/SchemaRegistry.antt =====
-- pkg/schemaregistry/codec.go: the wire format of the registry and the codec with its two caches.
-- A byte is a number below 256. The registry's client and the formats are parameters.
pub mod Header
pub mod Codec
pub mod Proto
pub mod Roundtrip
mod Examples
use event_driven_tests_ai.Common.{
  ℕ, ◌+◌, ◌-◌, ◌*◌, ◌/◌, ◌%◌, ◌^◌, List, [], ◌∷◌, if◌then◌else◌, ◌==◌, nat_comparable,
}
use event_driven_tests_ai.Common.Int.{ℤ, pos, negsuc}

abbrev pub magic_byte : ℕ
magic_byte = 0

abbrev pub header_len : ℕ
header_len = 5

-- `uint32(id)`
abbrev pub uint32 : ℤ → ℕ
uint32 (pos n) = n % 2 ^ 32
uint32 (negsuc n) = 2 ^ 32 - 1 - n % 2 ^ 32

abbrev big_endian : ℕ → List ℕ
big_endian n = n / 16777216 % 256 ∷ n / 65536 % 256 ∷ n / 256 % 256 ∷ n % 256 ∷ []

unfoldable pub encode_header : ℤ → List ℕ
encode_header id = magic_byte ∷ big_endian (uint32 id)

pub data HeaderError : Type 0 where
  too_short : HeaderError
  bad_magic : ℕ → HeaderError

pub data Parsed : Type 0 where
  parsed : ℕ → List ℕ → Parsed
  refused : HeaderError → Parsed

unfoldable pub parse_header : List ℕ → Parsed
parse_header (m ∷ a ∷ b ∷ c ∷ d ∷ body) =
    if m == magic_byte
    then parsed (a * 16777216 + b * 65536 + c * 256 + d) body
    else refused (bad_magic m)
parse_header other = refused too_short
