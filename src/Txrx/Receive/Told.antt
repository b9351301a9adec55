-- ===== src/Txrx/Receive/Told.antt =====
-- What the BD of a received frame tells, byte by byte, and the frame that is handed up.
use wcn36xx.Common.{
  ℕ, zero, suc, ◌+◌, ◌-◌, ◌*◌, ◌/◌, ◌%◌, ◌^◌, ◌≤◌, ◌<◌, ◌≡◌, refl, sym, ap, ◌∙◌, Bool, true, ltb,
  ◌&&◌, Bool-cases, inl, inr, leb, if◌then◌else◌, none, some, List, [], ◌∷◌, length, length-drop,
  take, drop, byte_at, le32_at, u32, difference, ℤ, as_s8, false, arith,
}
use wcn36xx.Smd.Nv.Fragments.{drop-drop}
use wcn36xx.Mac.Rates.{Band}
use wcn36xx.Txrx.Bd.{swap32}
use wcn36xx.Txrx.Receive.{
  rx_bd_words, swap_words, mpdu_header_off, mpdu_len, phy_stat0, minus_rssi0, RxStatus, rx_status,
  skb_put, pulled, rx_skb, iv_stripped, mmic_stripped, decrypted,
}

abbrev pub Bytes : List ℕ → Type 0
Bytes [] = Unit {0}
Bytes (b ∷ bs) = (b < 256) × Bytes bs

abbrev pub all_bytes : List ℕ → Bool
all_bytes [] = true
all_bytes (b ∷ bs) = ltb b 256 && all_bytes bs

pub all_bytes-Bytes : (bs : List ℕ) → all_bytes bs ≡ true → Bytes bs
all_bytes-Bytes [] e = tt
all_bytes-Bytes (b ∷ bs) e = (ground arith, all_bytes-Bytes bs (ground arith))

byte_at-Bytes : (i : ℕ) (bs : List ℕ) → Bytes bs → byte_at i bs < 256
byte_at-Bytes zero [] p = omega arith
byte_at-Bytes (suc i) [] p = omega arith
byte_at-Bytes zero (b ∷ bs) (lt, p) = lt
byte_at-Bytes (suc i) (b ∷ bs) (lt, p) = byte_at-Bytes i bs p

Bytes-drop : (n : ℕ) (bs : List ℕ) → Bytes bs → Bytes (drop n bs)
Bytes-drop zero bs p = p
Bytes-drop (suc n) [] p = p
Bytes-drop (suc n) (b ∷ bs) (lt, p) = Bytes-drop n bs p

byte_at-drop : (n i : ℕ) (bs : List ℕ) → byte_at i (drop n bs) ≡ byte_at (n + i) bs
byte_at-drop zero i bs = let e : 0 + i ≡ i = omega arith in rw e refl
byte_at-drop (suc n) i [] = refl
byte_at-drop (suc n) i (b ∷ bs) =
    let e : suc n + i ≡ suc (n + i) = omega arith in rw e (byte_at-drop n i bs)

swapped_word :
    (a b c d : ℕ)
    → a < 256
    → b < 256
    → c < 256
    → d < 256
    → le32_at 0 (u32 (swap32 (a + 256 * b + 65536 * c + 16777216 * d)))
      ≡ d + 256 * c + 65536 * b + 16777216 * a
unfolding swap32
swapped_word a b c d la lb lc ld = omega arith

swap_words-rest : (k j : ℕ) (bs : List ℕ) → drop (4 * k + j) (swap_words k bs) ≡ drop (4 * k + j) bs
unfolding swap_words
swap_words-rest zero j bs = refl
swap_words-rest (suc k) j bs =
    let n = 4 * k + j in
    let longer : 4 * suc k + j ≡ suc (suc (suc (suc n))) = omega arith in
    ap (λ (m : ℕ). drop m (swap_words (suc k) bs)) longer
    ∙ swap_words-rest k j (drop 4 bs)
    ∙ drop-drop 4 n bs
    ∙ ap (λ (m : ℕ). drop m bs) (omega arith)

length-swap_words : (k : ℕ) (bs : List ℕ) → 4 * k ≤ length bs → length (swap_words k bs) ≡ length bs
unfolding swap_words
length-swap_words zero bs h = refl
length-swap_words (suc k) bs h =
    let l = length-drop 4 bs in omega (arith, length-swap_words k (drop 4 bs) (omega (arith, l)), l)

byte_behind :
    (n : ℕ) (bs rest : List ℕ) → rest ≡ drop n bs → (j : ℕ) → byte_at j rest ≡ byte_at (n + j) bs
byte_behind n bs rest e j = ap (byte_at j) e ∙ byte_at-drop n j bs

-- A word of four bytes in network order.
abbrev pub be32_at : ℕ → List ℕ → ℕ
be32_at n bs =
    byte_at (n + 3) bs
    + 256 * byte_at (n + 2) bs
    + 65536 * byte_at (n + 1) bs
    + 16777216 * byte_at n bs

swapped_at :
    (n : ℕ) (bs rest : List ℕ)
    → Bytes bs
    → rest ≡ drop n bs
    → le32_at 0 (u32 (swap32 (le32_at 0 rest))) ≡ be32_at n bs
swapped_at n bs rest p e =
    let a : byte_at 0 rest ≡ byte_at n bs =
      byte_behind n bs rest e 0 ∙ ap (λ (m : ℕ). byte_at m bs) (omega arith) in
    rw (a, byte_behind n bs rest e 1, byte_behind n bs rest e 2, byte_behind n bs rest e 3)
      (swapped_word (byte_at n bs) (byte_at (n + 1) bs) (byte_at (n + 2) bs) (byte_at (n + 3) bs)
        (byte_at-Bytes n bs p) (byte_at-Bytes (n + 1) bs p) (byte_at-Bytes (n + 2) bs p)
        (byte_at-Bytes (n + 3) bs p))

-- The words of the BD that are read.
word_3 : (bs : List ℕ) → Bytes bs → le32_at 12 (swap_words rx_bd_words bs) ≡ be32_at 12 bs
unfolding swap_words
word_3 bs p =
    swapped_at 12 bs (drop 4 (drop 4 (drop 4 bs))) p (drop-drop 4 4 (drop 4 bs) ∙ drop-drop 4 8 bs)

word_4 : (bs : List ℕ) → Bytes bs → le32_at 16 (swap_words rx_bd_words bs) ≡ be32_at 16 bs
unfolding swap_words
word_4 bs p =
    swapped_at 16 bs (drop 4 (drop 4 (drop 4 (drop 4 bs)))) p
      (ap (drop 4) (drop-drop 4 4 (drop 4 bs) ∙ drop-drop 4 8 bs) ∙ drop-drop 12 4 bs)

word_7 : (bs : List ℕ) → Bytes bs → le32_at 28 (swap_words rx_bd_words bs) ≡ be32_at 28 bs
unfolding swap_words
word_7 bs p = swapped_at 28 bs (drop 4 (drop 4 (drop 4 (drop 4 (drop 4 (drop 4 (drop 4 bs))))))) p (
    ap (λ (xs : List ℕ). drop 4 (drop 4 (drop 4 (drop 4 xs))))
      (drop-drop 4 4 (drop 4 bs) ∙ drop-drop 4 8 bs)
    ∙ ap (λ (xs : List ℕ). drop 4 (drop 4 xs)) (drop-drop 4 4 (drop 12 bs) ∙ drop-drop 12 8 bs)
    ∙ drop-drop 4 4 (drop 20 bs)
    ∙ drop-drop 20 8 bs)

pub header_off :
    (bs : List ℕ) → Bytes bs → mpdu_header_off (swap_words rx_bd_words bs) ≡ byte_at 13 bs
unfolding mpdu_header_off
header_off bs p =
    ap (λ (w : ℕ). w / 2 ^ 16 % 2 ^ 8) (word_3 bs p)
    ∙ omega (
      arith,
      byte_at-Bytes 12 bs p,
      byte_at-Bytes 13 bs p,
      byte_at-Bytes 14 bs p,
      byte_at-Bytes 15 bs p,
    )

pub len_of :
    (bs : List ℕ)
    → Bytes bs
    → mpdu_len (swap_words rx_bd_words bs) ≡ byte_at 17 bs + 256 * byte_at 16 bs
unfolding mpdu_len
len_of bs p =
    ap (λ (w : ℕ). w / 2 ^ 16 % 2 ^ 16) (word_4 bs p)
    ∙ omega (
      arith,
      byte_at-Bytes 16 bs p,
      byte_at-Bytes 17 bs p,
      byte_at-Bytes 18 bs p,
      byte_at-Bytes 19 bs p,
    )

-- The strength that this byte stands for, in the range of 8 bits with a sign.
abbrev pub told_signal : ℕ → ℤ
told_signal b = if ltb b 228 then difference b 100 else difference b 356

as_s8-difference : (b : ℕ) → b < 256 → as_s8 (difference b 100) ≡ told_signal b
as_s8-difference b small = elim (Bool-cases (leb 100 b)) [
  | inl e ↦ elim (Bool-cases (ltb b 228)) [
    | inl f ↦
        let m : (b - 100) % 256 ≡ b - 100 = ground arith in
        let t : ltb (b - 100) 128 ≡ true = ground arith in rw (e, f, m, t) refl
    | inr f ↦
        let m : (b - 100) % 256 ≡ b - 100 = ground arith in
        let t : ltb (b - 100) 128 ≡ false = ground arith in
        let u : leb 356 b ≡ false = ground arith in
        let v : 255 - (b - 100) ≡ 356 - b - 1 = ground arith in rw (e, f, m, t, u, v) refl
  ]
  | inr e ↦
      let f : ltb b 228 ≡ true = ground arith in
      let m : (100 - b - 1) % 256 ≡ 100 - b - 1 = ground arith in
      let t : ltb (100 - b - 1) 128 ≡ true = ground arith in rw (e, f, m, t) refl
]

signal_of :
    (bs : List ℕ) → Bytes bs → minus_rssi0 (swap_words rx_bd_words bs) ≡ told_signal (byte_at 28 bs)
unfolding minus_rssi0 phy_stat0
signal_of bs p =
    let top : be32_at 28 bs / 2 ^ 24 % 2 ^ 8 ≡ byte_at 28 bs = omega (
      arith,
      byte_at-Bytes 28 bs p,
      byte_at-Bytes 29 bs p,
      byte_at-Bytes 30 bs p,
      byte_at-Bytes 31 bs p,
    ) in
    ap (λ (w : ℕ). as_s8 (difference (w / 2 ^ 24 % 2 ^ 8) 100)) (word_7 bs p)
    ∙ ap (λ (w : ℕ). as_s8 (difference w 100)) top
    ∙ as_s8-difference (byte_at 28 bs) (byte_at-Bytes 28 bs p)

abbrev nothing : List ℕ
nothing = []

take-nil : (n : ℕ) → take n nothing ≡ nothing
take-nil zero = refl
take-nil (suc n) = refl

drop-take : (m n : ℕ) (xs : List ℕ) → drop m (take (m + n) xs) ≡ take n (drop m xs)
drop-take zero n xs = let e : 0 + n ≡ n = omega arith in rw e refl
drop-take (suc m) n [] = let e : suc m + n ≡ suc (m + n) = omega arith in rw e (sym (take-nil n))
drop-take (suc m) n (x ∷ xs) =
    let e : suc m + n ≡ suc (m + n) = omega arith in rw e (drop-take m n xs)

put-pull :
    (off len : ℕ) (status : RxStatus) (bs : List ℕ)
    → pulled off status (skb_put (off + len) bs)
      ≡ (if leb (off + len) (length bs) then some (status, take len (drop off bs)) else none)
unfolding skb_put pulled
put-pull off len status bs = elim (Bool-cases (leb (off + len) (length bs))) [
  | inl e ↦ rw (e, drop-take off len bs) refl
  | inr e ↦ rw e refl
]

-- The offset and the length of the frame that the BD at the start of these bytes tells.
abbrev pub told_off : List ℕ → ℕ
told_off bs = byte_at 13 bs

abbrev pub told_len : List ℕ → ℕ
told_len bs = byte_at 17 bs + 256 * byte_at 16 bs

-- The status and the frame that are handed up for a buffer.
abbrev pub received : ℕ → Band → List ℕ → RxStatus × List ℕ
received center_freq band bs = (
  record {
    mactime = 10;
    freq = center_freq;
    band = band;
    signal = told_signal (byte_at 28 bs);
    antenna = 1;
    rate_idx = 1;
    flag = iv_stripped ∷ mmic_stripped ∷ decrypted ∷ [];
  },
  take (told_len bs) (drop (told_off bs) bs),
)

as_told :
    (center_freq : ℕ) (band : Band) (bs : List ℕ)
    → Bytes bs
    → rx_skb center_freq band bs
      ≡ pulled
          (told_off bs)
          (received center_freq band bs).0
          (skb_put (told_off bs + told_len bs) (swap_words rx_bd_words bs))
unfolding rx_skb rx_status
as_told center_freq band bs p = rw (header_off bs p, len_of bs p, signal_of bs p) refl

-- On a buffer with a whole BD, which tells in network order a frame that starts behind the BD: if the
-- frame ends inside the buffer, the bytes of the told length at the told offset are handed up,
-- unchanged, with the channel of the hardware and the strength of the signal that the BD tells, less
-- 100 dBm, where a byte of 228 or more comes out 256 lower, as the 8 bits of the field have it;
-- otherwise the call panics.
pub rx_skb-received :
    (center_freq : ℕ) (band : Band) (bs : List ℕ)
    → Bytes bs
    → 76 ≤ length bs
    → 76 ≤ told_off bs
    → rx_skb center_freq band bs ≡ (
        if leb (told_off bs + told_len bs) (length bs)
        then some (received center_freq band bs)
        else none)
rx_skb-received center_freq band bs p whole behind =
    let bd = swap_words rx_bd_words bs in
    let same : length bd ≡ length bs = length-swap_words 19 bs (omega arith) in
    let at : 4 * 19 + (told_off bs - 76) ≡ told_off bs = omega arith in
    let unchanged : drop (told_off bs) bd ≡ drop (told_off bs) bs =
      rw (sym at) (swap_words-rest 19 (told_off bs - 76) bs) in
    as_told center_freq band bs p
    ∙ put-pull (told_off bs) (told_len bs) (received center_freq band bs).0 bd
    ∙ rw (same, unchanged) refl
