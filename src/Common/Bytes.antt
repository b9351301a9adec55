-- ===== src/Common/Bytes.antt =====
-- Little-endian fields of the packed structs that go over the control channel.
use Prim.Native.Nat.{ℕ, ◌+◌, ◌*◌, ◌/◌, ◌%◌}
use mathlib.Core.Path.{◌≡◌}
use mathlib.Core.List.{List, [], ◌∷◌, ◌++◌}
use native.Mathlib.Omega.{arith}
use wcn36xx.Common.Lists.{
  length, get_or, take, replicate, length-append, length-take, length-replicate,
}

abbrev pub u8 : ℕ → List ℕ
u8 n = n % 256 ∷ []

abbrev pub u16 : ℕ → List ℕ
u16 n = n % 256 ∷ n / 256 % 256 ∷ []

abbrev pub u32 : ℕ → List ℕ
u32 n = n % 256 ∷ n / 256 % 256 ∷ n / 65536 % 256 ∷ n / 16777216 % 256 ∷ []

abbrev pub u64 : ℕ → List ℕ
u64 n = u32 n ++ u32 (n / 4294967296)

abbrev pub zeros : ℕ → List ℕ
zeros n = replicate n 0

-- An array of `n` bytes that was zero before `xs` was copied to its start.
abbrev pub field : ℕ → List ℕ → List ℕ
field n xs = take n (xs ++ zeros n)

-- Reads at an offset; a read past the end gives 0.
abbrev pub byte_at : ℕ → List ℕ → ℕ
byte_at i m = get_or m i 0

abbrev pub le16_at : ℕ → List ℕ → ℕ
le16_at i m = byte_at i m + 256 * byte_at (i + 1) m

abbrev pub le32_at : ℕ → List ℕ → ℕ
le32_at i m =
    byte_at i m + 256 * byte_at (i + 1) m + 65536 * byte_at (i + 2) m + 16777216 * byte_at (i + 3) m

pub length-field : (n : ℕ) (xs : List ℕ) → length (field n xs) ≡ n
length-field n xs =
    omega (
      arith,
      length-take n (xs ++ zeros n),
      length-append xs (zeros n),
      length-replicate {A = ℕ} n 0,
    )
