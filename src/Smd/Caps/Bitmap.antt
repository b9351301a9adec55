-- ===== src/Smd/Caps/Bitmap.antt =====
-- Setting and clearing a capability changes what is read for it, and for no other.
use wcn36xx.Common.{
  ℕ, zero, suc, ◌*◌, ◌/◌, ◌%◌, ◌^◌, ◌≤◌, ◌<◌, ◌≡◌, ◌≢◌, refl, sym, ap, ◌∙◌, inl, inr, Bool-cases,
  ==_iff, ==_refl, le→ltb, List, [], ◌∷◌, length, get_or, set, get_or-set_self, get_or-set_ne, ◌==◌,
  if◌then◌else◌, some, bit_and, bit_or, bit_at, bit_at-le-one, bit_at-bit_or, bit_at-bit_and,
  bit_at-pow_self, bit_at-pow_ne, bit_and-pow, bit_at-complement, complement, arith,
}
use native.Mathlib.Nat.{pow-suc, one-le-pow}
use wcn36xx.Smd.Caps.{caps_size, set_feat_caps, get_feat_caps, clear_feat_caps}

abbrev pub AllWords : List ℕ → Type 0
AllWords [] = Unit {0}
AllWords (w ∷ ws) = (w < 2 ^ 32) × AllWords ws

-- The bit of a capability.
unfoldable pub cap_bit : List ℕ → ℕ → ℕ
cap_bit bitmap cap = bit_at (cap % 32) (get_or bitmap (cap / 32) 0)

masked : (b p : ℕ) → b ≤ 1 → 1 ≤ p → (if b * p == 0 then 0 else 1) ≡ b
masked zero p h pos = ground arith
masked (suc zero) p h pos = ground arith
masked (suc (suc b)) p h pos = absurd (omega arith)

get_bit :
    (bitmap : List ℕ) (cap : ℕ) → cap < 128 → get_feat_caps bitmap cap ≡ some (cap_bit bitmap cap)
unfolding get_feat_caps cap_bit
get_bit bitmap cap small =
    let w = get_or bitmap (cap / 32) 0 in
    let k = cap % 32 in
    rw (le→ltb 127 cap (omega arith), bit_and-pow k w)
      (ap some (masked (bit_at k w) (2 ^ k) (bit_at-le-one k w) (one-le-pow k 2 (omega arith))))

-- Writing the word that holds capability `c`, seen from capability `d`.
same_word :
    (bitmap : List ℕ) (c d v : ℕ)
    → c < 128
    → length bitmap ≡ caps_size
    → c / 32 ≡ d / 32
    → cap_bit (set bitmap (c / 32) v) d ≡ bit_at (d % 32) v
unfolding cap_bit
same_word bitmap c d v small four e =
    rw (sym e) (ap (bit_at (d % 32)) (get_or-set_self bitmap (c / 32) v 0 (omega arith)))

other_word :
    (bitmap : List ℕ) (c d v : ℕ)
    → c / 32 ≢ d / 32
    → cap_bit (set bitmap (c / 32) v) d ≡ cap_bit bitmap d
unfolding cap_bit
other_word bitmap c d v ne = ap (bit_at (d % 32)) (get_or-set_ne bitmap (c / 32) (d / 32) v 0 ne)

pow_lt : (n k : ℕ) → k < n → 2 ^ k < 2 ^ n
pow_lt zero k h = absurd (omega arith)
pow_lt (suc n) zero h = omega (arith, pow-suc 2 n, one-le-pow n 2)
pow_lt (suc n) (suc k) h = omega (arith, pow_lt n k (omega arith), pow-suc 2 n, pow-suc 2 k)

-- A word of which only the bit of `c` was given a new value.
written_bit :
    (bitmap : List ℕ) (c d v bit : ℕ)
    → c < 128
    → length bitmap ≡ caps_size
    → bit_at (c % 32) v ≡ bit
    → ((k : ℕ) → k ≢ c % 32 → k < 32 → bit_at k v ≡ bit_at k (get_or bitmap (c / 32) 0))
    → cap_bit (set bitmap (c / 32) v) d ≡ (if c == d then bit else cap_bit bitmap d)
unfolding cap_bit
written_bit bitmap c d v bit small four own others = elim (Bool-cases (c == d)) [
  | inl e ↦
      let same = (==_iff c d).0 e in
      rw (sym same, ==_refl c) (same_word bitmap c c v small four refl ∙ own)
  | inr e ↦ elim (Bool-cases (c / 32 == d / 32)) [
    | inl f ↦
        let word : c / 32 ≡ d / 32 = ground arith in
        let apart : d % 32 ≢ c % 32 = λ q. absurd (ground arith) in
        same_word bitmap c d v small four word
        ∙ others (d % 32) apart (omega arith)
        ∙ rw (e, word) refl
    | inr f ↦
        let apart : c / 32 ≢ d / 32 = λ q. absurd (ground arith) in
        rw e (other_word bitmap c d v apart)
  ]
]

set_bit :
    (bitmap : List ℕ) (c d : ℕ)
    → c < 128
    → length bitmap ≡ caps_size
    → cap_bit (set_feat_caps bitmap c) d ≡ (if c == d then 1 else cap_bit bitmap d)
unfolding set_feat_caps
set_bit bitmap c d small four =
    let w = get_or bitmap (c / 32) 0 in
    let b = c % 32 in
    rw (le→ltb 127 c (omega arith)) (
      written_bit bitmap c d (bit_or w (2 ^ b)) 1 small four
        (omega (arith, bit_at-bit_or b w (2 ^ b), bit_at-pow_self b, bit_at-le-one b w))
        (λ k ne lt. omega (arith, bit_at-bit_or k w (2 ^ b), bit_at-pow_ne b k ne)))

clear_bit :
    (bitmap : List ℕ) (c d : ℕ)
    → c < 128
    → length bitmap ≡ caps_size
    → cap_bit (clear_feat_caps bitmap c) d ≡ (if c == d then 0 else cap_bit bitmap d)
unfolding clear_feat_caps
clear_bit bitmap c d small four =
    let w = get_or bitmap (c / 32) 0 in
    let b = c % 32 in
    let mask = complement 32 (2 ^ b) in
    let inside : 2 ^ b < 2 ^ 32 = pow_lt 32 b (omega arith) in
    rw (le→ltb 127 c (omega arith)) (
      written_bit bitmap c d (bit_and w mask) 0 small four
        (omega (
          arith,
          bit_at-bit_and b w mask,
          bit_at-complement 32 b (2 ^ b) (omega arith) inside,
          bit_at-pow_self b,
        ))
        (λ k ne lt. omega (
          arith,
          bit_at-bit_and k w mask,
          bit_at-complement 32 k (2 ^ b) lt inside,
          bit_at-pow_ne b k ne,
          bit_at-le-one k w,
        )))

-- In a bitmap of four words, after a capability below 128 is set it reads 1, and every other below
-- 128 reads what it read before.
get_feat_caps-set_feat_caps :
    (bitmap : List ℕ) (c d : ℕ)
    → c < 128
    → d < 128
    → length bitmap ≡ caps_size
    → get_feat_caps (set_feat_caps bitmap c) d ≡ (if c == d then some 1 else get_feat_caps bitmap d)
get_feat_caps-set_feat_caps bitmap c d small small' four =
    get_bit (set_feat_caps bitmap c) d small'
    ∙ rw (set_bit bitmap c d small four, get_bit bitmap d small') (ground arith)

-- In a bitmap of four words, after a capability below 128 is cleared it reads 0, and every other below
-- 128 reads what it read before.
get_feat_caps-clear_feat_caps :
    (bitmap : List ℕ) (c d : ℕ)
    → c < 128
    → d < 128
    → length bitmap ≡ caps_size
    → get_feat_caps (clear_feat_caps bitmap c) d
      ≡ (if c == d then some 0 else get_feat_caps bitmap d)
get_feat_caps-clear_feat_caps bitmap c d small small' four =
    get_bit (clear_feat_caps bitmap c) d small'
    ∙ rw (clear_bit bitmap c d small four, get_bit bitmap d small') (ground arith)

-- In a bitmap of four words, after a capability below 128 is set it reads 1, and after it is cleared
-- it reads 0; every other one below 128 reads what it read before.
pub get_feat_caps_lem :
    (bitmap : List ℕ) (c d : ℕ)
    → c < 128
    → d < 128
    → length bitmap ≡ caps_size
    → (get_feat_caps (set_feat_caps bitmap c) d
        ≡ (if c == d then some 1 else get_feat_caps bitmap d))
      × (get_feat_caps (clear_feat_caps bitmap c) d
          ≡ (if c == d then some 0 else get_feat_caps bitmap d))
get_feat_caps_lem bitmap c d small small' four = (
  get_feat_caps-set_feat_caps bitmap c d small small' four,
  get_feat_caps-clear_feat_caps bitmap c d small small' four,
)
