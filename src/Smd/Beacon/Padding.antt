-- ===== src/Smd/Beacon/Padding.antt =====
-- The beacon that the firmware gets: a TIM with a short bitmap is padded in place.
use wcn36xx.Common.{
  ℕ, zero, suc, ◌+◌, ◌-◌, ◌%◌, ◌^◌, ◌≤◌, ◌<◌, ◌≡◌, refl, sym, ap, ◌∙◌, true, false, List, [], ◌∷◌,
  ◌++◌, append_assoc, length, length-append, length-take, length-drop, length-replicate, length-set,
  take, drop, take-append, drop-append, take-append-drop, set, get_or-append, zeros, write_at,
  byte_at, ltb, arith,
}
use wcn36xx.Smd.Config.{slice}
use wcn36xx.Smd.Nv.Fragments.{drop-drop, take_msg}
use wcn36xx.Smd.Config.Tlv.{write_at-prefix}
use wcn36xx.Smd.Beacon.{tim_len, pad, beacon_length, tim_end, pad_tim, beacon_template}

-- The frame with the TIM element filled up.
unfoldable pub padded : List ℕ → ℕ → List ℕ
padded bcn tim_off =
    set (take (tim_end bcn tim_off) bcn) (tim_off + 1) 9
    ++ zeros (9 - tim_len bcn tim_off)
    ++ drop (tim_end bcn tim_off) bcn

-- The beacon's length that the firmware is told.
beacon_length_lem :
    (bcn : List ℕ) (tim_off : ℕ)
    → length bcn < 2 ^ 31
    → tim_len bcn tim_off ≤ length bcn
    → beacon_length false bcn tim_off + tim_len bcn tim_off ≡ length bcn + 9
unfolding beacon_length
beacon_length_lem bcn tim_off small within = omega arith

set-append {ℓ} :
    {A : Type ℓ} (xs ys : List A) (i : ℕ) (v : A)
    → i < length xs
    → set (xs ++ ys) i v ≡ set xs i v ++ ys
set-append [] ys i v h = absurd (omega arith)
set-append (x ∷ xs) ys zero v h = refl
set-append (x ∷ xs) ys (suc i) v h = ap (λ r. x ∷ r) (set-append xs ys i v (omega arith))

-- The buffer: `a` up to the end of the element, `b` behind it, and `z` free.
module _ (n : ℕ) (a b z : List ℕ) (fits : n ≤ length z) where
  abbrev buf : List ℕ
  buf = (a ++ b) ++ z

  slice_mid : slice (length a) (length b) buf ≡ b
  slice_mid = rw (append_assoc a b z, drop-append a (b ++ z)) (take-append b z)

  -- What `memmove` writes over.
  abbrev gap : List ℕ
  gap = take n (b ++ z)

  length-gap : length gap ≡ n
  length-gap = omega (arith, length-take n (b ++ z), length-append b z)

  drop_both : drop (length b) (drop n (b ++ z)) ≡ drop n z
  drop_both =
      let swap : n + length b ≡ length b + n = omega arith in
      drop-drop n (length b) (b ++ z)
      ∙ ap (λ k. drop k (b ++ z)) swap
      ∙ sym (drop-drop (length b) n (b ++ z))
      ∙ ap (drop n) (drop-append b z)

  moved : write_at (length a + n) b buf ≡ ((a ++ gap) ++ b) ++ drop n z
  moved =
      let whole : buf ≡ (a ++ gap) ++ drop n (b ++ z) =
        append_assoc a b z
        ∙ ap (λ r. a ++ r) (sym (take-append-drop n (b ++ z)))
        ∙ sym (append_assoc a gap (drop n (b ++ z))) in
      let len : length a + n ≡ length (a ++ gap) = omega (arith, length-gap, length-append a gap) in
      ap (write_at (length a + n) b) whole
      ∙ ap (λ k. write_at k b ((a ++ gap) ++ drop n (b ++ z))) len
      ∙ write_at-prefix (a ++ gap) b (drop n (b ++ z))
      ∙ ap (λ r. ((a ++ gap) ++ b) ++ r) drop_both

  cleared :
      write_at (length a) (zeros n) (((a ++ gap) ++ b) ++ drop n z)
      ≡ a ++ (zeros n ++ (b ++ drop n z))
  cleared =
      let r = b ++ drop n z in
      let same : length (zeros n) ≡ length gap =
        omega (arith, length-gap, length-replicate {A = ℕ} n 0) in
      ap (write_at (length a) (zeros n))
        (append_assoc (a ++ gap) b (drop n z) ∙ append_assoc a gap r)
      ∙ write_at-prefix a (zeros n) (gap ++ r)
      ∙ ap (λ k. a ++ zeros n ++ drop k (gap ++ r)) same
      ∙ ap (λ t. a ++ zeros n ++ t) (drop-append gap r)
      ∙ append_assoc a (zeros n) r

  pub pad_parts :
      (off : ℕ)
      → off < length a
      → (let t =
            write_at
              (length a)
              (zeros n)
              (write_at (length a + n) (slice (length a) (length b) buf) buf) in
          set t off ((byte_at off t + n) % 256))
        ≡ set a off ((byte_at off a + n) % 256) ++ (zeros n ++ (b ++ drop n z))
  pad_parts off inside =
      rw (slice_mid, moved, cleared, get_or-append a (zeros n ++ (b ++ drop n z)) off 0 inside)
        (set-append a (zeros n ++ (b ++ drop n z)) off ((byte_at off a + n) % 256) inside)

-- `pad_tim` with the ends of its parts as arguments.
abbrev pad_at : ℕ → ℕ → ℕ → ℕ → List ℕ → List ℕ
pad_at n off p q buf =
    let t = write_at p (zeros n) (write_at (p + n) (slice p q buf) buf) in
    set t off ((byte_at off t + n) % 256)

-- A beacon that is not of a mesh, whose TIM element ends inside it and is shorter than 9 bytes, and
-- which has room for the padding: the firmware gets the frame with the element filled up to 9 bytes
-- by zeros, its length byte 9, and everything behind it as it was.
beacon_template-padded :
    (bcn : List ℕ) (tim_off : ℕ)
    → tim_end bcn tim_off ≤ length bcn
    → tim_len bcn tim_off < 9
    → length bcn + (9 - tim_len bcn tim_off) ≤ 380
    → take (length bcn + (9 - tim_len bcn tim_off)) (beacon_template false bcn tim_off)
      ≡ padded bcn tim_off
unfolding beacon_template pad pad_tim padded
beacon_template-padded bcn tim_off ends short room =
    let n = 9 - tim_len bcn tim_off in
    let off = tim_off + 1 in
    let p = tim_end bcn tim_off in
    let a = take p bcn in
    let b = drop p bcn in
    let z = zeros (380 - length bcn) in
    let whole : a ++ b ≡ bcn = take-append-drop p bcn in
    let len_a : length a ≡ p = omega (arith, length-take p bcn) in
    let len_b : length b ≡ length bcn - p = omega (arith, length-drop p bcn) in
    let free : n ≤ length z = omega (arith, length-replicate {A = ℕ} (380 - length bcn) 0) in
    let old : byte_at off a ≡ tim_len bcn tim_off =
      sym (get_or-append a b off 0 (omega arith)) ∙ ap (byte_at off) whole in
    let nine : (byte_at off a + n) % 256 ≡ 9 = omega (arith, old) in
    let front = set a off ((byte_at off a + n) % 256) in
    let parts = pad_parts n a b z free off (omega arith) in
    let built : pad_at n off p (length bcn - p) (bcn ++ z) ≡ front ++ (zeros n ++ (b ++ drop n z)) =
      sym (
        ap (λ k. pad_at n off k (length b) ((a ++ b) ++ z)) len_a
        ∙ ap (λ k. pad_at n off p k ((a ++ b) ++ z)) len_b
        ∙ ap (λ w. pad_at n off p (length bcn - p) (w ++ z)) whole)
      ∙ parts in
    let test : ltb 0 n ≡ true = ground arith in
    let whole_len : length bcn + n ≡ length ((front ++ zeros n) ++ b) = omega (
      arith,
      length-append (front ++ zeros n) b,
      length-append front (zeros n),
      length-set a off ((byte_at off a + n) % 256),
      length-replicate {A = ℕ} n 0,
      len_a,
      len_b,
    ) in
    rw test (
      ap (take (length bcn + n)) (
        built
        ∙ sym (append_assoc front (zeros n) (b ++ drop n z))
        ∙ sym (append_assoc (front ++ zeros n) b (drop n z)))
      ∙ take_msg (length bcn + n) ((front ++ zeros n) ++ b) (drop n z) whole_len
      ∙ ap (λ v. (set a off v ++ zeros n) ++ b) nine)

-- A beacon (not of a mesh) whose TIM element ends inside it and is shorter than 9 bytes, with room for
-- the padding, reaches the firmware with the element filled up to 9 bytes by zeros, its length byte
-- 9, and everything behind it as it was. The length that is told for a beacon below 2^31 bytes that
-- is at least as long as the number in the length byte of its TIM is the length of the frame plus 9
-- less that number: when it is above 9 the told length is short of the frame.
pub beacon_template-beacon_length :
    (bcn : List ℕ) (tim_off : ℕ) (bcn' : List ℕ) (tim_off' : ℕ)
    → tim_end bcn tim_off ≤ length bcn
    → tim_len bcn tim_off < 9
    → length bcn + (9 - tim_len bcn tim_off) ≤ 380
    → length bcn' < 2 ^ 31
    → tim_len bcn' tim_off' ≤ length bcn'
    → (take (length bcn + (9 - tim_len bcn tim_off)) (beacon_template false bcn tim_off)
        ≡ padded bcn tim_off)
      × (beacon_length false bcn' tim_off' + tim_len bcn' tim_off' ≡ length bcn' + 9)
beacon_template-beacon_length bcn tim_off bcn' tim_off' ends short room small within = (
  beacon_template-padded bcn tim_off ends short room,
  beacon_length_lem bcn' tim_off' small within,
)
