-- ===== src/Smd/Nv/Fragments.antt =====
-- One fragment of `wcn36xx_smd_load_nv`, and the rounds of its loop.
use wcn36xx.Common.{
  ℕ, zero, suc, ◌+◌, ◌*◌, ◌%◌, ◌^◌, ◌≤◌, ◌<◌, ◌≡◌, ◌≢◌, refl, sym, ap, ◌∙◌, inl, inr, true, false,
  Bool-cases, none, some, List, [], ◌∷◌, ◌++◌, length, take, drop, overwrite, take-append,
  length-take, length-drop, failed, arith,
}
use wcn36xx.Hal.MsgType.{download_nv_req}
use wcn36xx.Hal.Enums.{nv_fragment_size}
use wcn36xx.Hal.Layout.{header, nv_body}
use wcn36xx.Smd.State.{Hal}
use wcn36xx.Smd.Send.{send_and_wait, then_check, rsp_status_check}
use wcn36xx.Smd.Effects.{send_and_wait-sent, then_check-state}
use wcn36xx.Smd.Nv.{bytes_left, is_last, img_size, flag, fill_fragment, send_fragment, load_nv_loop}
use native.Mathlib.Numerals.{unary_clauses}

-- The largest file whose fragments have offsets below 2 ^ 16.
abbrev pub max_nv_size : ℕ
max_nv_size = 67588

-- A fragment as the firmware gets it.
unfoldable pub fragment_msg : ℕ → ℕ → List ℕ → List ℕ
fragment_msg frag_number last_fragment part =
    header download_nv_req (16 + length part)
    ++ nv_body frag_number last_fragment (length part)
    ++ part

pub drop-drop {ℓ} : {A : Type ℓ} (m n : ℕ) (xs : List A) → drop n (drop m xs) ≡ drop (m + n) xs
drop-drop zero n xs = let e : 0 + n ≡ n = omega arith in rw e
drop-drop (suc m) zero [] = simp unary_clauses
drop-drop (suc m) (suc n) [] = simp unary_clauses
drop-drop (suc m) n (x ∷ xs) =
    let e : suc m + n ≡ suc (m + n) = omega arith in rw e (drop-drop m n xs)

pub length-part :
    (nv : List ℕ) (off : ℕ)
    → off + 4 ≤ length nv
    → length nv < 2 ^ 31
    → length (take (img_size nv off) (drop (4 + off) nv)) ≡ img_size nv off
unfolding img_size is_last bytes_left
length-part nv off enough small =
    rw (length-take (img_size nv off) (drop (4 + off) nv), length-drop (4 + off) nv) (ground arith)

-- `take-append` with the length given as a sum.
pub take_msg : (n : ℕ) (xs ys : List ℕ) → n ≡ length xs → take n (xs ++ ys) ≡ xs
take_msg n xs ys e = rw e (take-append xs ys)

send_part :
    (k f n : ℕ) (part : List ℕ) (h : Hal)
    → n ≡ length part
    → (then_check rsp_status_check (
        send_and_wait
          (record h {
            buf = overwrite (header download_nv_req (16 + n) ++ nv_body k f n ++ part) h.buf;
          })
          (16 + n))).1.sent
      ≡ h.sent ++ (fragment_msg k f part ∷ [])
unfolding fragment_msg header nv_body
send_part k f n part h e = rw e (
    let msg = fragment_msg k f part in
    let filled = record h { buf = overwrite msg h.buf } in
    ap (λ (s : Hal). s.sent)
      (then_check-state rsp_status_check (send_and_wait filled (16 + length part)))
    ∙ send_and_wait-sent filled (16 + length part)
    ∙ ap (λ m. h.sent ++ (m ∷ []))
        (take_msg (16 + length part) msg (drop (length msg) h.buf) (omega arith)))

pub send_fragment-sent :
    (nv : List ℕ) (k off : ℕ) (h : Hal)
    → off + 4 ≤ length nv
    → length nv < 2 ^ 31
    → (send_fragment nv k off h).1.sent
      ≡ h.sent
        ++ (fragment_msg k (flag (is_last nv off)) (take (img_size nv off) (drop (4 + off) nv))
            ∷ [])
unfolding send_fragment fill_fragment
send_fragment-sent nv k off h enough small =
    send_part k (flag (is_last nv off)) (img_size nv off)
      (take (img_size nv off) (drop (4 + off) nv)) h (sym (length-part nv off enough small))

-- The rounds of the loop, seen from outside.
pub loop_failed :
    (fuel : ℕ) (nv : List ℕ) (k off : ℕ) (h : Hal)
    → failed (send_fragment nv k off h).0 ≡ true
    → load_nv_loop (suc fuel) nv k off h ≡ some (send_fragment nv k off h)
unfolding load_nv_loop
loop_failed fuel nv k off h e = rw e refl

pub loop_last :
    (fuel : ℕ) (nv : List ℕ) (k off : ℕ) (h : Hal)
    → is_last nv off ≡ true
    → load_nv_loop (suc fuel) nv k off h ≡ some (send_fragment nv k off h)
unfolding load_nv_loop
loop_last fuel nv k off h e = rw e (elim (Bool-cases (failed (send_fragment nv k off h).0)) [
  | inl f ↦ rw f refl
  | inr f ↦ rw f refl
])

pub loop_next :
    (fuel : ℕ) (nv : List ℕ) (k off : ℕ) (h : Hal)
    → failed (send_fragment nv k off h).0 ≡ false
    → is_last nv off ≡ false
    → load_nv_loop (suc fuel) nv k off h
      ≡ load_nv_loop fuel nv
          ((k + 1) % 2 ^ 16)
          ((off + nv_fragment_size) % 2 ^ 16)
          (send_fragment nv k off h).1
unfolding load_nv_loop
loop_next fuel nv k off h e l = rw (e, l) refl

-- The same, where the offset has not wrapped.
pub loop_more :
    (fuel : ℕ) (nv : List ℕ) (k : ℕ) (h : Hal)
    → 3072 * k ≤ length nv
    → length nv ≤ max_nv_size
    → failed (send_fragment nv k (3072 * k) h).0 ≡ false
    → is_last nv (3072 * k) ≡ false
    → load_nv_loop (suc fuel) nv k (3072 * k) h
      ≡ load_nv_loop fuel nv (suc k) (3072 * suc k) (send_fragment nv k (3072 * k) h).1
unfolding is_last bytes_left
loop_more fuel nv k h within small e l =
    let bound : 3072 * suc k + 4 < length nv = ground arith in
    let next_frag : (k + 1) % 2 ^ 16 ≡ suc k = omega arith in
    let next_offset : (3072 * k + nv_fragment_size) % 2 ^ 16 ≡ 3072 * suc k = omega arith in
    loop_next fuel nv k (3072 * k) h e l ∙ rw (next_frag, next_offset) refl

pub not_last-more :
    (nv : List ℕ) (k : ℕ)
    → 3072 * k ≤ length nv
    → length nv ≤ max_nv_size
    → is_last nv (3072 * k) ≡ false
    → 3072 * suc k + 4 ≤ length nv
unfolding is_last bytes_left
not_last-more nv k within small l = ground arith

-- Enough fuel is one unit for each fragment.
pub loop-total :
    (fuel : ℕ) (nv : List ℕ) (k : ℕ) (h : Hal)
    → 3072 * k ≤ length nv
    → length nv ≤ max_nv_size
    → length nv ≤ 3072 * (k + suc fuel) + 4
    → load_nv_loop (suc fuel) nv k (3072 * k) h ≢ none
unfolding is_last bytes_left
loop-total zero nv k h within small enough =
    let l : is_last nv (3072 * k) ≡ true = ground arith in
    rw (loop_last 0 nv k (3072 * k) h l) (λ e. cc)
loop-total (suc fuel) nv k h within small enough = elim (Bool-cases (is_last nv (3072 * k))) [
  | inl l ↦ rw (loop_last (suc fuel) nv k (3072 * k) h l) (λ e. cc)
  | inr l ↦ elim (Bool-cases (failed (send_fragment nv k (3072 * k) h).0)) [
    | inl f ↦ rw (loop_failed (suc fuel) nv k (3072 * k) h f) (λ e. cc)
    | inr f ↦ rw (loop_more (suc fuel) nv k h within small f l) (
        loop-total fuel nv (suc k) (send_fragment nv k (3072 * k) h).1
          (omega (arith, not_last-more nv k within small l)) small (omega arith))
  ]
]
