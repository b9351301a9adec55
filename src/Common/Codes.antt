-- ===== src/Common/Codes.antt =====
-- The `int` that most functions of the driver return: 0, a negated errno, or another nonzero value
-- that is passed on, such as a status of the firmware.
use Prim.Native.Nat.{ℕ}
use mathlib.Core.Bool.{Bool, true, false}
use wcn36xx.Common.Tests.{◌==◌, if◌then◌else◌}

pub data Errno : Type 0 where
  enomem einval eio etime ebusy enoent eagain eopnotsupp e2big enodev : Errno

pub data Ret : Type 0 where
  ok : Ret
  err : Errno → Ret
  code : ℕ → Ret

-- The test `if (ret)`.
abbrev pub failed : Ret → Bool
failed ok = false
failed (err e) = true
failed (code n) = true

-- A returned integer, read as 0 or not.
abbrev pub ret_of : ℕ → Ret
ret_of n = if n == 0 then ok else code n
