-- ===== src/Common/Bits.antt =====
-- Single bits of C words: `x & (1 << k)`, `x |= 1 << k` and `x &= ~(1 << k)`, at every position.
use Prim.Native.Nat.{
  ℕ, zero, suc, ◌+◌, ◌-◌, ◌*◌, ◌/◌, ◌%◌, ◌^◌, ◌≤◌, ◌<◌, min, max, bit_and, bit_or, digits, bitwise,
  bit_and-bitwise, bit_or-bitwise,
}
use mathlib.Core.Path.{◌≡◌, refl, ap, ◌∙◌}
use mathlib.Core.Logic.{◌≢◌}
use native.Mathlib.Nat.{pow-suc, le_refl, one-le-pow}
use native.Mathlib.Omega.{arith}

-- Bit `k` of a word, 0 or 1.
abbrev pub bit_at : ℕ → ℕ → ℕ
bit_at zero w = w % 2
bit_at (suc k) w = bit_at k (w / 2)

-- `~w` of a word of `k` bits.
abbrev pub complement : ℕ → ℕ → ℕ
complement k w = 2 ^ k - 1 - w

-- The fuel of the library's digit recursion does not matter once it covers the first argument.
module _ (z : ℕ → ℕ) (f : ℕ → ℕ → ℕ) where
  digits_enough : (m n a b : ℕ) → a ≤ m → a ≤ n → digits z f m a b ≡ digits z f n a b
  digits_enough zero zero a b p q = refl
  digits_enough zero (suc n) zero b p q = refl
  digits_enough zero (suc n) (suc a) b p q = absurd (omega arith)
  digits_enough (suc m) zero zero b p q = refl
  digits_enough (suc m) zero (suc a) b p q = absurd (omega arith)
  digits_enough (suc m) (suc n) zero b p q = refl
  digits_enough (suc m) (suc n) (suc a) b p q =
      rw (digits_enough m n (suc a / 2) (b / 2) (omega arith) (omega arith))

  lowest_digit :
      (a b : ℕ)
      → bitwise z f (suc a) b ≡ bitwise z f (suc a / 2) (b / 2) * 2 + f (suc a % 2) (b % 2)
  lowest_digit a b =
      omega (arith, digits_enough a (suc a / 2) (suc a / 2) (b / 2) (omega arith) (le_refl _))

pub bit_or_digit : (a b : ℕ) → bit_or a b ≡ bit_or (a / 2) (b / 2) * 2 + max (a % 2) (b % 2)
bit_or_digit zero b = simp bit_or-bitwise (omega arith)
bit_or_digit (suc a) b = simp bit_or-bitwise (lowest_digit (λ y. y) max a b)

pub bit_and_digit : (a b : ℕ) → bit_and a b ≡ bit_and (a / 2) (b / 2) * 2 + min (a % 2) (b % 2)
bit_and_digit zero b = simp bit_and-bitwise (omega arith)
bit_and_digit (suc a) b = simp bit_and-bitwise (lowest_digit (λ y. 0) min a b)

pub bit_at-le-one : (k w : ℕ) → bit_at k w ≤ 1
bit_at-le-one zero w = omega arith
bit_at-le-one (suc k) w = bit_at-le-one k (w / 2)

-- `|` and `&` act on each bit by itself.
pub bit_at-bit_or : (k a b : ℕ) → bit_at k (bit_or a b) ≡ max (bit_at k a) (bit_at k b)
bit_at-bit_or zero a b = omega (arith, bit_or_digit a b)
bit_at-bit_or (suc k) a b =
    ap (bit_at k) (omega (arith, bit_or_digit a b)) ∙ bit_at-bit_or k (a / 2) (b / 2)

pub bit_at-bit_and : (k a b : ℕ) → bit_at k (bit_and a b) ≡ min (bit_at k a) (bit_at k b)
bit_at-bit_and zero a b = omega (arith, bit_and_digit a b)
bit_at-bit_and (suc k) a b =
    ap (bit_at k) (omega (arith, bit_and_digit a b)) ∙ bit_at-bit_and k (a / 2) (b / 2)

pub bit_at_zero : (k : ℕ) → bit_at k 0 ≡ 0
bit_at_zero zero = refl
bit_at_zero (suc k) = bit_at_zero k

pub bit_at-pow_self : (k : ℕ) → bit_at k (2 ^ k) ≡ 1
bit_at-pow_self zero = refl
bit_at-pow_self (suc k) = ap (bit_at k) (omega (arith, pow-suc 2 k)) ∙ bit_at-pow_self k

pub bit_at-pow_ne : (k j : ℕ) → j ≢ k → bit_at j (2 ^ k) ≡ 0
bit_at-pow_ne zero zero h = absurd (h refl)
bit_at-pow_ne zero (suc j) h = bit_at_zero j
bit_at-pow_ne (suc k) zero h = omega (arith, pow-suc 2 k)
bit_at-pow_ne (suc k) (suc j) h =
    ap (bit_at j) (omega (arith, pow-suc 2 k)) ∙ bit_at-pow_ne k j (λ e. h (ap suc e))

bit_and-zero_fuel : (n a : ℕ) → a ≤ n → bit_and a 0 ≡ 0
bit_and-zero_fuel n zero h = simp bit_and-bitwise refl
bit_and-zero_fuel zero (suc a) h = absurd (omega arith)
bit_and-zero_fuel (suc n) (suc a) h =
    omega (arith, bit_and_digit (suc a) 0, bit_and-zero_fuel n (suc a / 2) (omega arith))

-- A mask of one bit: `w & (1 << k)`.
pub bit_and-pow : (k w : ℕ) → bit_and w (2 ^ k) ≡ bit_at k w * 2 ^ k
bit_and-pow zero w = omega (arith, bit_and_digit w 1, bit_and-zero_fuel (w / 2) (w / 2) (le_refl _))
bit_and-pow (suc k) w =
    let half : 2 ^ suc k / 2 ≡ 2 ^ k = omega (arith, pow-suc 2 k) in
    let high : bit_and (w / 2) (2 ^ suc k / 2) ≡ bit_at k (w / 2) * 2 ^ k =
      ap (bit_and (w / 2)) half ∙ bit_and-pow k (w / 2) in
    omega (
      arith,
      bit_and_digit w (2 ^ suc k),
      pow-suc 2 k,
      ap (λ (t : ℕ). bit_at k (w / 2) * t) (pow-suc 2 k),
    )

pub bit_at-complement : (n k w : ℕ) → k < n → w < 2 ^ n → bit_at k (complement n w) ≡ 1 - bit_at k w
bit_at-complement zero k w h l = absurd (omega arith)
bit_at-complement (suc n) zero w h l = omega (arith, pow-suc 2 n, one-le-pow n 2)
bit_at-complement (suc n) (suc k) w h l =
    ap (bit_at k) (omega (arith, pow-suc 2 n, one-le-pow n 2))
    ∙ bit_at-complement n k (w / 2) (omega arith) (omega (arith, pow-suc 2 n))

-- Both operations stay within the width of their arguments.
pub bit_or-lt : (n a b : ℕ) → a < 2 ^ n → b < 2 ^ n → bit_or a b < 2 ^ n
bit_or-lt zero zero zero p q = omega (arith, bit_or_digit 0 0)
bit_or-lt zero zero (suc b) p q = absurd (omega arith)
bit_or-lt zero (suc a) b p q = absurd (omega arith)
bit_or-lt (suc n) a b p q = omega (
  arith,
  pow-suc 2 n,
  bit_or_digit a b,
  bit_or-lt n (a / 2) (b / 2) (omega (arith, pow-suc 2 n)) (omega (arith, pow-suc 2 n)),
)

bit_and-le_fuel : (n a b : ℕ) → a ≤ n → bit_and a b ≤ a
bit_and-le_fuel n zero b h = simp bit_and-bitwise (omega arith)
bit_and-le_fuel zero (suc a) b h = absurd (omega arith)
bit_and-le_fuel (suc n) (suc a) b h =
    omega (arith, bit_and_digit (suc a) b, bit_and-le_fuel n (suc a / 2) (b / 2) (omega arith))

pub bit_and-le : (a b : ℕ) → bit_and a b ≤ a
bit_and-le a b = bit_and-le_fuel a a b (le_refl a)
