-- ===== src/SchemaRegistry/Proto/Lengths.antt =====
-- A message index whose length is one byte.
use event_driven_tests_ai.Common.{
  ℕ, ◌*◌, ◌/◌, ◌%◌, ◌<◌, List, [], ◌∷◌, ◌==◌, ltb, nat_comparable, Bool, true, false, Option, none,
  some, ◌≡◌, refl, arith, ap,
}
use event_driven_tests_ai.Common.Int.{pos, negsuc}
use event_driven_tests_ai.SchemaRegistry.Proto.{
  Message, Messages, more, nth, signed, uvarint, varint, panics, found, descend_in, descend_indices,
  descend, read_indices, resolve_message,
}

varint-byte : (b : ℕ) (bs : List ℕ) → b < 128 → varint (b ∷ bs) ≡ some (signed b, bs)
unfolding varint uvarint
varint-byte b bs h =
    let e : ltb b 128 ≡ true = ground (arith, h) in
    let m : b * 1 ≡ b = omega arith in rw (e, m) refl

signed-odd : (b : ℕ) → b % 2 ≡ 1 → signed b ≡ negsuc (b / 2)
signed-odd b h = rw h

signed-even : (i : ℕ) → signed (2 * i) ≡ pos i
signed-even i =
    let a : 2 * i % 2 ≡ 0 = omega arith in let c : 2 * i / 2 ≡ i = omega arith in rw (a, c) refl

descend-nothing : (o : Option Message) → descend_in o (descend []) ≡ o
unfolding descend
descend-nothing none = refl
descend-nothing (some m) = refl

module _ (can_make : ℕ → Bool) (top : Message) (others : Messages) where
  odd-panics :
      (b : ℕ) (body : List ℕ)
      → b < 128
      → b % 2 ≡ 1
      → resolve_message can_make top others (b ∷ body) ≡ panics
  unfolding resolve_message
  odd-panics b body h k =
      let z : (b == 0) ≡ false = ground arith in rw (z, varint-byte b body h, signed-odd b k)

  single_index :
      (i : ℕ) (body : List ℕ)
      → i < 64
      → can_make 1 ≡ true
      → resolve_message can_make top others (2 ∷ 2 * i ∷ body)
        ≡ found (nth i (more top others)) body
  unfolding resolve_message read_indices descend_indices descend
  single_index i body h k =
      rw (k, varint-byte (2 * i) body (omega (arith, h)), signed-even i)
        (ap (λ o. found o body) (descend-nothing (nth i (more top others))))

  -- A length of one byte: an odd byte below 128, which stands for a negative number, is no error but
  -- a panic, whatever follows; the byte 2, which stands for one index, reads an index below 64 and
  -- gives the message at it with the bytes after it, and an error if the file has no such message.
  pub resolve_message-short :
      (b i : ℕ) (body : List ℕ)
      → b < 128
      → b % 2 ≡ 1
      → i < 64
      → can_make 1 ≡ true
      → (resolve_message can_make top others (b ∷ body) ≡ panics)
        × (resolve_message can_make top others (2 ∷ 2 * i ∷ body)
            ≡ found (nth i (more top others)) body)
  resolve_message-short b i body h odd k makes =
      (odd-panics b body h odd, single_index i body k makes)
