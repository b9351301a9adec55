-- ===== src/Smd/Nv/Sent.antt =====
-- What a load sends: the table behind the first four bytes of the file, cut into fragments.
use wcn36xx.Common.{
  ℕ, zero, suc, ◌+◌, ◌-◌, ◌*◌, ◌≤◌, ◌≡◌, sym, ap, ◌∙◌, inl, inr, true, false, Bool-cases, some,
  List, [], ◌∷◌, ◌++◌, append_assoc, append-nil, length, take, drop, length-take, length-drop,
  take_all, take-append-drop, failed, Ret, ok, arith,
}
use mathlib.Core.Option.{some-injective, none-ne-some}
use mathlib.Core.Bool.{true≢false}
use mathlib.Core.Path.{subst}
use wcn36xx.Hal.Enums.{nv_fragment_size}
use wcn36xx.Smd.State.{Hal}
use wcn36xx.Smd.Nv.{bytes_left, is_last, img_size, flag, send_fragment, load_nv_loop}
use wcn36xx.Smd.Nv.Fragments.{
  max_nv_size, fragment_msg, drop-drop, length-part, send_fragment-sent, loop_failed, loop_last,
  loop_more, not_last-more,
}

-- Numbered from `k`; only the last is marked as the last.
unfoldable pub fragments : ℕ → List (List ℕ) → List (List ℕ)
fragments k [] = []
fragments k (p ∷ []) = fragment_msg k 1 p ∷ []
fragments k (p ∷ q ∷ ps) = fragment_msg k 0 p ∷ fragments (suc k) (q ∷ ps)

unfoldable pub concatenated : List (List ℕ) → List ℕ
concatenated [] = []
concatenated (p ∷ ps) = p ++ concatenated ps

-- All parts but the last have the full size, and there is a last.
unfoldable pub AreParts : List (List ℕ) → Type 0
AreParts [] = ⊥
AreParts (p ∷ []) = length p ≤ nv_fragment_size
AreParts (p ∷ q ∷ ps) = (length p ≡ nv_fragment_size) × AreParts (q ∷ ps)

-- `old` was extended by the numbered fragments of `table`.
abbrev pub SentAll : ℕ → List ℕ → List (List ℕ) → List (List ℕ) → Type 0
SentAll k table old new =
    (parts : List (List ℕ)) × AreParts parts
    × (concatenated parts ≡ table)
    × (new ≡ old ++ fragments k parts)

img_size_last :
    (nv : List ℕ) (off : ℕ)
    → off + 4 ≤ length nv
    → length nv ≤ max_nv_size
    → is_last nv off ≡ true
    → (img_size nv off ≡ length nv - 4 - off) × (img_size nv off ≤ 3072)
unfolding img_size is_last bytes_left
img_size_last nv off enough small l = ground arith

img_size_more : (nv : List ℕ) (off : ℕ) → is_last nv off ≡ false → img_size nv off ≡ 3072
unfolding img_size is_last bytes_left
img_size_more nv off l = ground arith

last_part :
    (nv : List ℕ) (k : ℕ) (h : Hal)
    → 3072 * k + 4 ≤ length nv
    → length nv ≤ max_nv_size
    → is_last nv (3072 * k) ≡ true
    → SentAll k (drop (4 + 3072 * k) nv) h.sent (send_fragment nv k (3072 * k) h).1.sent
unfolding fragments concatenated AreParts
last_part nv k h enough small l =
    let off = 3072 * k in
    let table = drop (4 + off) nv in
    let part = take (img_size nv off) table in
    let (exact, short) = img_size_last nv off enough small l in
    (
      part ∷ [],
      omega (arith, short, length-take (img_size nv off) table),
      append-nil part
          ∙ take_all (img_size nv off) table (omega (arith, exact, length-drop (4 + off) nv)),
      send_fragment-sent nv k off h enough (omega arith)
          ∙ ap (λ b. h.sent ++ (fragment_msg k (flag b) part ∷ [])) l,
    )

more_parts :
    (nv : List ℕ) (k : ℕ) (h : Hal) (new : List (List ℕ))
    → 3072 * k + 4 ≤ length nv
    → length nv ≤ max_nv_size
    → is_last nv (3072 * k) ≡ false
    → SentAll (suc k) (drop (4 + 3072 * suc k) nv) (send_fragment nv k (3072 * k) h).1.sent new
    → SentAll k (drop (4 + 3072 * k) nv) h.sent new
unfolding fragments concatenated AreParts
more_parts nv k h new enough small l ([], absurd_parts, c, s) = absurd absurd_parts
more_parts nv k h new enough small l (q ∷ ps, are, c, s) =
    let off = 3072 * k in
    let table = drop (4 + off) nv in
    let n = img_size nv off in
    let part = take n table in
    let full : n ≡ 3072 = img_size_more nv off l in
    let next : 4 + off + n ≡ 4 + 3072 * suc k = omega (arith, full) in
    (
      part ∷ q ∷ ps,
      (length-part nv off enough (omega arith) ∙ full, are),
      ap (λ r. part ++ r) (c ∙ ap (λ m. drop m nv) (sym next) ∙ sym (drop-drop (4 + off) n nv))
          ∙ take-append-drop n table,
      s
          ∙ ap (λ t. t ++ fragments (suc k) (q ∷ ps))
              (send_fragment-sent nv k off h enough (omega arith)
                ∙ ap (λ b. h.sent ++ (fragment_msg k (flag b) part ∷ [])) l)
          ∙ append_assoc h.sent (fragment_msg k 0 part ∷ []) (fragments (suc k) (q ∷ ps)),
    )

-- A load that returns 0 has sent every part.
pub loop-SentAll :
    (fuel : ℕ) (nv : List ℕ) (k : ℕ) (h h' : Hal)
    → 3072 * k + 4 ≤ length nv
    → length nv ≤ max_nv_size
    → load_nv_loop fuel nv k (3072 * k) h ≡ some (ok, h')
    → SentAll k (drop (4 + 3072 * k) nv) h.sent h'.sent
unfolding load_nv_loop is_last bytes_left
loop-SentAll zero nv k h h' enough small e = absurd (none-ne-some (ok, h') e)
loop-SentAll (suc fuel) nv k h h' enough small e =
    let sent_one = send_fragment nv k (3072 * k) h in
    elim (Bool-cases (failed sent_one.0)) [
      | inl f ↦
          let same =
            some-injective sent_one (ok, h') (sym (loop_failed fuel nv k (3072 * k) h f) ∙ e) in
          absurd (true≢false (sym f ∙ ap (λ (p : Ret × Hal). failed p.0) same))
      | inr f ↦ elim (Bool-cases (is_last nv (3072 * k))) [
        | inl l ↦
            let same =
              some-injective sent_one (ok, h') (sym (loop_last fuel nv k (3072 * k) h l) ∙ e) in
            subst (λ (p : Ret × Hal). SentAll k (drop (4 + 3072 * k) nv) h.sent p.1.sent) same
              (last_part nv k h enough small l)
        | inr l ↦ more_parts nv k h h'.sent enough small l (
            loop-SentAll fuel nv (suc k) sent_one.1 h' (not_last-more nv k (omega arith) small l)
              small (sym (loop_more fuel nv k h (omega arith) small f l) ∙ e))
      ]
    ]
