-- ===== src/Smd/Bounds.antt =====
-- How far the writes to `hal_buf` go.
use wcn36xx.Common.{
  ℕ, ◌≤◌, ◌≡◌, refl, ap, ◌∙◌, take, drop, false, List, [], ◌∷◌, ◌++◌, length, max, zeros, overwrite,
  length-overwrite, length-append, length-drop, length-replicate, Ret, arith,
}
use wcn36xx.Hal.Enums.{hal_buf_size}
use wcn36xx.Smd.State.{Hal, Reply, refused, accepted}
use wcn36xx.Smd.Send.{wait_reply, prepare_hal_buf, send_and_wait, command}
use wcn36xx.Smd.Effects.{then_check-state}
use wcn36xx.Smd.Outcome.{responses_of, overwritten, arrivals_after}

abbrev pub HasBuffer : Hal → Type 0
HasBuffer h = length h.buf ≡ hal_buf_size

-- The end of the longest of these messages, if it is behind `n`, and otherwise `n`.
abbrev pub furthest : ℕ → List (List ℕ) → ℕ
furthest n [] = n
furthest n (m ∷ ms) = furthest (max n (length m)) ms

-- The end of `hal_buf`, or of what a command writes behind it, from the start of the buffer.
abbrev pub reach : List Reply → ℕ
reach [] = hal_buf_size
reach (refused n ∷ rs) = hal_buf_size
reach (accepted ms ∷ rs) = furthest hal_buf_size (responses_of ms)

overwrite-max : (xs buf : List ℕ) → length (overwrite xs buf) ≡ max (length buf) (length xs)
overwrite-max xs buf =
    omega (arith, length-append xs (drop (length xs) buf), length-drop (length xs) buf)

overwritten-furthest :
    (rs : List (List ℕ)) (buf : List ℕ) → length (overwritten rs buf) ≡ furthest (length buf) rs
unfolding overwritten
overwritten-furthest [] buf = refl
overwritten-furthest (r ∷ rs) buf =
    overwritten-furthest rs (overwrite r buf) ∙ ap (λ n. furthest n rs) (overwrite-max r buf)

wait_reply-reach :
    (rs : List Reply) (h : Hal) → HasBuffer h → length (wait_reply rs h).1.buf ≡ reach rs
unfolding wait_reply
wait_reply-reach [] h b = b
wait_reply-reach (refused n ∷ rs) h b = b
wait_reply-reach (accepted ms ∷ rs) h b =
    ap length (arrivals_after ms (record h { replies = rs })).0
    ∙ overwritten-furthest (responses_of ms) h.buf
    ∙ ap (λ n. furthest n (responses_of ms)) b

-- A command whose message fits hal_buf writes behind the buffer exactly when a response that comes in
-- is longer than the buffer, and then as far as the end of the longest one. A transport that refuses,
-- and the messages that are no responses, never make it do so.
pub command-reach :
    (msg : List ℕ) (check : List ℕ → ℕ → Ret) (h : Hal)
    → length msg ≤ hal_buf_size
    → HasBuffer h
    → length (command msg check h).1.buf ≡ reach h.replies
unfolding command prepare_hal_buf send_and_wait
command-reach msg check h small b =
    let n = length msg in
    let cleared = overwrite (zeros n) h.buf in
    let clear : length cleared ≡ hal_buf_size =
      length-overwrite (zeros n) h.buf (omega (arith, length-replicate {A = ℕ} n 0)) ∙ b in
    let ready : HasBuffer (prepare_hal_buf n msg h) =
      length-overwrite msg cleared (omega arith) ∙ clear in
    let started : Hal = record (prepare_hal_buf n msg h) {
      sent = h.sent ++ (take n (overwrite msg cleared) ∷ []);
      completed = false;
    } in
    ap (λ (k : Hal). length k.buf) (then_check-state check (wait_reply h.replies started))
    ∙ wait_reply-reach h.replies started ready
