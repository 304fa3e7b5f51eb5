-- ===== src/SchemaRegistry/Header.antt =====
-- Reading back the header of a message.
use event_driven_tests_ai.Common.{ℕ, ◌+◌, ◌*◌, ◌/◌, ◌%◌, ◌<◌, List, ◌++◌, ◌≡◌, arith, ap}
use event_driven_tests_ai.Common.Int.{ℤ, pos, negsuc}
use event_driven_tests_ai.SchemaRegistry.{uint32, encode_header, parsed, parse_header}

big_endian-value :
    (n : ℕ)
    → n < 4294967296
    → n / 16777216 % 256 * 16777216 + n / 65536 % 256 * 65536 + n / 256 % 256 * 256 + n % 256 ≡ n
big_endian-value n h = omega arith

uint32-lt : (id : ℤ) → uint32 id < 4294967296
uint32-lt (pos n) = omega arith
uint32-lt (negsuc n) = omega arith

-- The header of any schema id is read back as that id modulo 2 ^ 32, with the body that follows it
-- untouched; so an id below 2 ^ 32 is read back as it is.
pub parse_header-encode_header :
    (id : ℤ) (body : List ℕ) → parse_header (encode_header id ++ body) ≡ parsed (uint32 id) body
unfolding parse_header encode_header
parse_header-encode_header id body =
    ap (λ n. parsed n body) (big_endian-value (uint32 id) (uint32-lt id))
