-- ===== src/Base/Integers.antt =====
-- Go's int64.
use Prim.Native.Nat.{ℕ, ◌-◌, ◌^◌}
use sagaflow.Base.Tests.{ltb, if◌then◌else◌}

pub data ℤ : Type 0 where
  pos : ℕ → ℤ
  negsuc : ℕ → ℤ

-- The number of a pattern of 64 bits.
unfoldable pub int64 : ℕ → ℤ
int64 bits = if ltb bits (2 ^ 63) then pos bits else negsuc (2 ^ 64 - 1 - bits)

-- A number, or 0 for a negative one.
abbrev pub clamped : ℤ → ℕ
clamped (pos n) = n
clamped (negsuc n) = 0
