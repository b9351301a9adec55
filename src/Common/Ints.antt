-- ===== src/Common/Ints.antt =====
-- Signed integers of C, over the native numbers: the values of `int` that the driver computes or gets.
use Prim.Native.Nat.{ℕ, ◌-◌, ◌%◌}
use wcn36xx.Common.Tests.{leb, ltb, if◌then◌else◌}

-- `negsuc n` is -(n + 1).
pub data ℤ : Type 0 where
  pos : ℕ → ℤ
  negsuc : ℕ → ℤ

-- An `int` that is stored in 8 bits with a sign.
abbrev pub as_s8 : ℤ → ℤ
as_s8 (pos n) = if ltb (n % 256) 128 then pos (n % 256) else negsuc (255 - n % 256)
as_s8 (negsuc n) = if ltb (n % 256) 128 then negsuc (n % 256) else pos (255 - n % 256)

-- `a - b`
abbrev pub difference : ℕ → ℕ → ℤ
difference a b = if leb b a then pos (a - b) else negsuc (b - a - 1)
