-- ===== src/Common/Numerals.antt =====
-- `strconv.Atoi`, which is also `strconv.ParseInt` to the base 10 with 64 bits.
use Prim.Native.Char.{code}
use Prim.Native.Nat.{ℕ, ◌+◌, ◌*◌, ◌-◌, ◌^◌}
use Prim.Native.String.{String}
use mathlib.Core.Option.{Option, none, some}
use mathlib.Core.Bool.{◌&&◌}
use event_driven_tests_ai.Common.Tests.{
  if◌then◌else◌, ◌==◌, ltb, leb, nat_beq, nat_comparable, string_comparable,
}
use event_driven_tests_ai.Common.Int.{ℤ, pos, negsuc}

pub read_digits : ℕ → String → Option ℕ
read_digits n String.[] = some n
read_digits n (String.◌∷◌ c s) =
    let d = code c in
    let rest = read_digits (n * 10 + (d - 48)) s in if leb 48 d && leb d 57 then rest else none

abbrev unsigned : String → Option ℕ
unfolding read_digits
unsigned s = if s == "" then none else read_digits 0 s

abbrev positive : Option ℕ → Option ℤ
positive none = none
positive (some n) = if ltb n (2 ^ 63) then some (pos n) else none

abbrev negative : Option ℕ → Option ℤ
negative none = none
negative (some n) =
    if nat_beq n 0 then some (pos 0) else if leb n (2 ^ 63) then some (negsuc (n - 1)) else none

-- `strconv.Atoi` on a machine of 64 bits
unfoldable pub atoi : String → Option ℤ
unfolding unsigned
atoi String.[] = none
atoi (String.◌∷◌ c s) =
    if code c == b'-'
    then negative (unsigned s)
    else if code c == b'+'
    then positive (unsigned s)
    else positive (unsigned (String.◌∷◌ c s))
