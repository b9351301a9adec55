-- ===== src/Smd/Config/Tlv.antt =====
-- The TLVs of a configuration message: all of them fit or the message is given up, and the firmware
-- can read them back.
use wcn36xx.Common.{
  ◌≤◌, take, length-take, take-append, drop-append, take-append-drop, Ret, ◌∙◌, ℕ, zero, suc, ◌+◌,
  ◌*◌, ◌<◌, ◌^◌, ◌/◌, ◌%◌, ◌==◌, ◌≡◌, refl, sym, ap, inl, inr, false, Bool-cases, List, [], ◌∷◌,
  ◌++◌, append_assoc, append-nil, length, length-append, drop, leb, ltb, u32, write_at, le16_at,
  le32_at, Option, none, some, if◌then◌else◌, ok, err, enomem, arith,
}
use mathlib.Core.Option
use wcn36xx.Hal.Enums.{hal_buf_size}
use wcn36xx.Smd.Nv.Fragments.{drop-drop}
use wcn36xx.Smd.Config.{tlv, put_cfg_tlv_u32, put_cfg_list}

-- What the firmware should find behind the fixed part.
unfoldable pub tlvs : List (ℕ × ℕ) → List ℕ
tlvs [] = []
tlvs ((id, value) ∷ cfgs) = tlv id value ++ tlvs cfgs

pub write_at-prefix :
    (pre xs tail : List ℕ)
    → write_at (length pre) xs (pre ++ tail) ≡ pre ++ xs ++ drop (length xs) tail
write_at-prefix [] xs tail = refl
write_at-prefix (p ∷ pre) xs tail = ap (λ r. p ∷ r) (write_at-prefix pre xs tail)

put_one :
    (id value len : ℕ) (pre tail : List ℕ)
    → length pre ≡ len
    → len + 12 < hal_buf_size
    → put_cfg_tlv_u32 id value (pre ++ tail) len
      ≡ (ok, (pre ++ tlv id value) ++ drop 12 tail, len + 12)
unfolding put_cfg_tlv_u32
put_one id value len pre tail e fits =
    let room : leb hal_buf_size (len + 8 + 4) ≡ false = ground arith in
    rw (room, sym e)
      (ap (λ buf. (ok, buf, length pre + 12)) (write_at-prefix pre (tlv id value) tail))

-- What the loop leaves in the buffer when there is room for everything.
pub put_cfg_list-fits :
    (cfgs : List (ℕ × ℕ)) (len : ℕ) (pre tail : List ℕ)
    → length pre ≡ len
    → len + 12 * length cfgs < hal_buf_size
    → put_cfg_list cfgs (pre ++ tail) len
      ≡ (ok, (pre ++ tlvs cfgs) ++ drop (12 * length cfgs) tail, len + 12 * length cfgs)
unfolding put_cfg_list tlvs
put_cfg_list-fits [] len pre tail e fits =
    let same : len + 0 ≡ len = omega arith in rw (append-nil pre, same) refl
put_cfg_list-fits ((id, value) ∷ cfgs) len pre tail e fits =
    let longer : length (pre ++ tlv id value) ≡ len + 12 =
      omega (arith, length-append pre (tlv id value)) in
    let far : 12 + 12 * length cfgs ≡ 12 * suc (length cfgs) = omega arith in
    let end : len + 12 + 12 * length cfgs ≡ len + 12 * suc (length cfgs) = omega arith in
    rw
      (
        put_one id value len pre tail e (omega arith),
        put_cfg_list-fits cfgs (len + 12) (pre ++ tlv id value) (drop 12 tail) longer (omega arith),
        append_assoc pre (tlv id value) (tlvs cfgs),
        drop-drop 12 (12 * length cfgs) tail,
        far,
        end,
      )
      refl

-- From an offset below the size of the buffer, the loop ends with 0 exactly when the end of the last
-- TLV is below the size too, and otherwise with -ENOMEM.
pub put_cfg_list_result :
    (cfgs : List (ℕ × ℕ)) (buf : List ℕ) (len : ℕ)
    → len < hal_buf_size
    → (put_cfg_list cfgs buf len).0
      ≡ (if ltb (len + 12 * length cfgs) hal_buf_size then ok else err enomem)
unfolding put_cfg_list put_cfg_tlv_u32
put_cfg_list_result [] buf len h = ground arith
put_cfg_list_result ((id, value) ∷ cfgs) buf len h =
    elim (Bool-cases (leb hal_buf_size (len + 8 + 4))) [
      | inl f ↦ rw f (ground arith)
      | inr f ↦
          let end : len + 12 + 12 * length cfgs ≡ len + 12 * suc (length cfgs) = omega arith in
          rw (f, sym end)
            (put_cfg_list_result cfgs (write_at len (tlv id value) buf) (len + 12) (ground arith))
    ]

-- How the firmware reads the TLVs of 32-bit values, with fuel.
unfoldable pub read_tlvs : ℕ → List ℕ → Option (List (ℕ × ℕ))
read_tlvs fuel [] = some []
read_tlvs zero (x ∷ m) = none
read_tlvs (suc fuel) (x ∷ m) =
    let rest = read_tlvs fuel (drop 12 (x ∷ m)) in
    if le16_at 2 (x ∷ m) == 4
    then Option.map (λ cfgs. (le16_at 0 (x ∷ m), le32_at 8 (x ∷ m)) ∷ cfgs) rest
    else none

abbrev pub AllSmall : List (ℕ × ℕ) → Type 0
AllSmall [] = Unit {0}
AllSmall ((id, value) ∷ cfgs) = (id < 2 ^ 16) × (value < 2 ^ 32) × AllSmall cfgs

-- A reader of the TLVs gets back the table that was written, when its ids fit 16 bits and its values
-- 32 bits.
pub read_tlvs-tlvs :
    (cfgs : List (ℕ × ℕ)) → AllSmall cfgs → read_tlvs (length cfgs) (tlvs cfgs) ≡ some cfgs
unfolding read_tlvs tlvs
read_tlvs-tlvs [] small = refl
read_tlvs-tlvs ((id, value) ∷ cfgs) (id_small, value_small, small) =
    let id_back : id % 256 + 256 * (id / 256 % 256) ≡ id = omega arith in
    let value_back : le32_at 0 (u32 value) ≡ value = omega arith in
    rw (read_tlvs-tlvs cfgs small, id_back, value_back) refl

length-tlvs : (cfgs : List (ℕ × ℕ)) → length (tlvs cfgs) ≡ 12 * length cfgs
unfolding tlvs
length-tlvs [] = omega arith
length-tlvs ((id, value) ∷ cfgs) = omega (arith, length-tlvs cfgs)

-- Where the table stands in a buffer.
in_between :
    (pre t rest : List ℕ) (len n : ℕ)
    → length pre ≡ len
    → length t ≡ n
    → (take len ((pre ++ t) ++ rest) ≡ pre) × (take n (drop len ((pre ++ t) ++ rest)) ≡ t)
in_between pre t rest len n e f =
    rw (sym e, sym f, append_assoc pre t rest, drop-append pre (t ++ rest))
      (take-append pre (t ++ rest), take-append t rest)

written :
    (cfgs : List (ℕ × ℕ)) (buf : List ℕ) (len : ℕ)
    → len ≤ length buf
    → len + 12 * length cfgs < hal_buf_size
    → put_cfg_list cfgs buf len ≡ (
      ok,
      (take len buf ++ tlvs cfgs) ++ drop (12 * length cfgs) (drop len buf),
      len + 12 * length cfgs,
    )
written cfgs buf len inside fits =
    ap (λ b. put_cfg_list cfgs b len) (sym (take-append-drop len buf))
    ∙ put_cfg_list-fits cfgs len (take len buf) (drop len buf) (omega (arith, length-take len buf))
        fits

-- A table whose TLVs end below the size of the buffer is written with 0, the length grows by 12 bytes
-- for each entry, the bytes in front are as they were, and a reader of the bytes behind them gets back
-- the table, when its ids fit 16 bits and its values 32 bits. From an offset below the size of the
-- buffer, writing any table ends with 0 exactly when the end of the last TLV is below the size too, and
-- otherwise with -ENOMEM.
pub put_cfg_list-read_tlvs :
    (cfgs : List (ℕ × ℕ)) (buf : List ℕ) (len : ℕ) (cfgs' : List (ℕ × ℕ)) (buf' : List ℕ) (len' : ℕ)
    → len ≤ length buf
    → len + 12 * length cfgs < hal_buf_size
    → AllSmall cfgs
    → len' < hal_buf_size
    → let w = put_cfg_list cfgs buf len in
      (w.0 ≡ ok)
      × (w.2 ≡ len + 12 * length cfgs)
      × (take len w.1 ≡ take len buf)
      × (read_tlvs (length cfgs) (take (12 * length cfgs) (drop len w.1)) ≡ some cfgs)
      × ((put_cfg_list cfgs' buf' len').0
          ≡ (if ltb (len' + 12 * length cfgs') hal_buf_size then ok else err enomem))
put_cfg_list-read_tlvs cfgs buf len cfgs' buf' len' inside fits small inside' =
    let e = written cfgs buf len inside fits in
    let n = 12 * length cfgs in
    let (front, table) =
      in_between (take len buf) (tlvs cfgs) (drop n (drop len buf)) len n
        (omega (arith, length-take len buf)) (length-tlvs cfgs) in
    (
      ap (λ (w : Ret × List ℕ × ℕ). w.0) e,
      ap (λ (w : Ret × List ℕ × ℕ). w.2) e,
      ap (λ (w : Ret × List ℕ × ℕ). take len w.1) e ∙ front,
      ap (λ (w : Ret × List ℕ × ℕ). read_tlvs (length cfgs) (take n (drop len w.1))) e
          ∙ ap (read_tlvs (length cfgs)) table
          ∙ read_tlvs-tlvs cfgs small,
      put_cfg_list_result cfgs' buf' len' inside',
    )
