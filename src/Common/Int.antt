-- ===== src/Common/Int.antt =====
-- Go's signed `int`, as far as its sign is tested.
use Prim.Native.Nat.{ℕ, zero, suc}
use mathlib.Core.Bool.{Bool, true}
use mathlib.Core.Path.{◌≡◌, refl}
use native.Mathlib.Omega.{arith}
use event_driven_tests_ai.Common.Tests.{nat_beq, if◌then◌else◌}

-- `negsuc n` is -(n + 1).
pub data ℤ : Type 0 where
  pos : ℕ → ℤ
  negsuc : ℕ → ℤ

-- `n <= 0`
abbrev pub non_positive : ℤ → Bool
non_positive (pos n) = nat_beq n 0
non_positive (negsuc n) = true

abbrev pub pos_part : ℤ → ℕ
pos_part (pos n) = n
pos_part (negsuc n) = 0

-- How many times a count asks for something: once where it is not positive.
abbrev pub wanted : ℤ → ℕ
wanted (pos zero) = 1
wanted (pos (suc n)) = suc n
wanted (negsuc n) = 1

pub if-wanted : (n : ℤ) → (if non_positive n then 1 else pos_part n) ≡ wanted n
if-wanted (pos zero) = refl
if-wanted (pos (suc n)) = ground arith
if-wanted (negsuc n) = refl
