-- ===== src/SchemaRegistry/Proto.antt =====
-- The message index of pkg/schemaregistry/proto.go: which message of a schema a payload is of.
pub mod Lengths
mod Examples
use event_driven_tests_ai.Common.{
  ℕ, zero, suc, ◌+◌, ◌*◌, ◌/◌, ◌%◌, ◌^◌, ◌<◌, List, [], ◌∷◌, if◌then◌else◌, ◌==◌, ◌&&◌, not, ltb,
  nat_comparable, Bool, Option, none, some, ◌≡◌, refl, arith, ap, ◌∙◌,
}
use event_driven_tests_ai.Common.Int.{ℤ, pos, negsuc}

mutual
  -- A message descriptor with the messages that are nested in it.
  pub data Message : Type 0 where
    message : Messages → Message

  pub data Messages : Type 0 where
    no_messages : Messages
    more : Message → Messages → Messages

abbrev pub nested : Message → Messages
nested (message ms) = ms

unfoldable pub nth : ℕ → Messages → Option Message
nth n no_messages = none
nth zero (more m ms) = some m
nth (suc n) (more m ms) = nth n ms

-- An index that is in range.
abbrev pub at : ℤ → Messages → Option Message
at (pos n) ms = nth n ms
at (negsuc n) ms = none

abbrev pub shifted : ℕ → ℕ → Option (ℕ × List ℕ) → Option (ℕ × List ℕ)
shifted b i none = none
shifted b i (some (v, rest)) = some ((b % 128) * 2 ^ (7 * i) + v, rest)

-- `binary.Uvarint` from its byte number `i` on, with the bytes that it leaves; none where it reads
-- nothing or the value does not fit 64 bits.
unfoldable pub uvarint : ℕ → List ℕ → Option (ℕ × List ℕ)
uvarint i [] = none
uvarint i (b ∷ bs) =
    let rest = shifted b i (uvarint (suc i) bs) in
    if i == 10
    then none
    else if ltb b 128
    then (if i == 9 && ltb 1 b then none else some (b * 2 ^ (7 * i), bs))
    else rest

abbrev pub signed : ℕ → ℤ
signed u = if u % 2 == 0 then pos (u / 2) else negsuc (u / 2)

abbrev pub signed_of : Option (ℕ × List ℕ) → Option (ℤ × List ℕ)
signed_of none = none
signed_of (some (u, rest)) = some (signed u, rest)

-- `binary.Varint`
unfoldable pub varint : List ℕ → Option (ℤ × List ℕ)
unfolding uvarint
varint bs = signed_of (uvarint 0 bs)

-- What resolving gives: a message and the payload, an error, or a panic of the run time.
pub data Resolved : Type 0 where
  resolved : Message → List ℕ → Resolved
  malformed_index : Resolved
  panics : Resolved

abbrev pub found : Option Message → List ℕ → Resolved
found none rest = malformed_index
found (some m) rest = resolved m rest

abbrev pub descend_in : Option Message → (Message → Option Message) → Option Message
descend_in none go_on = none
descend_in (some m) go_on = go_on m

-- `descendIndices` after the first index.
unfoldable pub descend : List ℤ → Message → Option Message
descend [] m = some m
descend (i ∷ is) m = descend_in (at i (nested m)) (descend is)

unfoldable pub descend_indices : Messages → List ℤ → Option Message
unfolding descend
descend_indices file [] = none
descend_indices file (i ∷ is) = descend_in (at i file) (descend is)

abbrev after_index :
    Option (ℤ × List ℕ) → (ℤ → List ℕ → Option (List ℤ × List ℕ)) → Option (List ℤ × List ℕ)
after_index none go_on = none
after_index (some (i, rest)) go_on = go_on i rest

abbrev pub with_index : ℤ → Option (List ℤ × List ℕ) → Option (List ℤ × List ℕ)
with_index i none = none
with_index i (some (is, rest)) = some (i ∷ is, rest)

-- The loop over the indices that are left.
unfoldable pub read_indices : ℕ → List ℕ → Option (List ℤ × List ℕ)
unfolding varint
read_indices zero bs = some ([], bs)
read_indices (suc n) bs = after_index (varint bs) (λ i rest. with_index i (read_indices n rest))

abbrev pub resolve_path : Messages → Option (List ℤ × List ℕ) → Resolved
resolve_path file none = malformed_index
resolve_path file (some (is, rest)) = found (descend_indices file is) rest

-- `make([]int, 0, n)` panics for a negative capacity, and for one that `can_make` denies.
module _ (can_make : ℕ → Bool) where
  abbrev pub with_length : Messages → Option (ℤ × List ℕ) → Resolved
  with_length file none = malformed_index
  with_length file (some (negsuc n, rest)) = panics
  with_length file (some (pos n, rest)) =
      if can_make n then resolve_path file (read_indices n rest) else panics

  -- `resolveMessage`; the file of a handler has a message.
  unfoldable pub resolve_message : Message → Messages → List ℕ → Resolved
  unfolding varint read_indices
  resolve_message top others [] = malformed_index
  resolve_message top others (b ∷ bs) =
      if b == 0 then resolved top bs else with_length (more top others) (varint (b ∷ bs))
