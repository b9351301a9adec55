-- ===== src/Smd/Effects.antt =====
-- What receiving and sending change in the state behind the channel.
use wcn36xx.Common.{
  ℕ, ◌≡◌, refl, ap, ◌∙◌, false, List, [], ◌∷◌, ◌++◌, length, take, drop, zeros, overwrite,
  take-append, Ret, ok, err, code, arith,
}
use wcn36xx.Smd.State.{Hal, Reply, refused, accepted}
use wcn36xx.Smd.Receive.{rsp_process, arrivals}
use wcn36xx.Smd.Send.{wait_reply, prepare_hal_buf, send_and_wait, then_check, command}

-- Messages that come in change neither what was sent nor what is to come.
pub rsp_process-sent : (h : Hal) (m : List ℕ) → (rsp_process h m).sent ≡ h.sent
unfolding rsp_process
rsp_process-sent h m = ground arith

pub rsp_process-replies : (h : Hal) (m : List ℕ) → (rsp_process h m).replies ≡ h.replies
unfolding rsp_process
rsp_process-replies h m = ground arith

pub arrivals-sent : (ms : List (List ℕ)) (h : Hal) → (arrivals ms h).sent ≡ h.sent
unfolding arrivals
arrivals-sent [] h = refl
arrivals-sent (m ∷ ms) h = arrivals-sent ms (rsp_process h m) ∙ rsp_process-sent h m

pub arrivals-replies : (ms : List (List ℕ)) (h : Hal) → (arrivals ms h).replies ≡ h.replies
unfolding arrivals
arrivals-replies [] h = refl
arrivals-replies (m ∷ ms) h = arrivals-replies ms (rsp_process h m) ∙ rsp_process-replies h m

-- One call of `ctrl_ops->tx`, with the first `n` bytes of the buffer.
pub send_and_wait-sent :
    (h : Hal) (n : ℕ) → (send_and_wait h n).1.sent ≡ h.sent ++ (take n h.buf ∷ [])
unfolding send_and_wait
send_and_wait-sent h n = by_reply h.replies
  where
    started : Hal
    started = record h { sent = h.sent ++ (take n h.buf ∷ []); completed = false }

    by_reply : (rs : List Reply) → (wait_reply rs started).1.sent ≡ h.sent ++ (take n h.buf ∷ [])
    by_reply [] = refl
    by_reply (refused k ∷ rs) = refl
    by_reply (accepted ms ∷ rs) = arrivals-sent ms (record started { replies = rs })

pub then_check-state : (check : List ℕ → ℕ → Ret) (p : Ret × Hal) → (then_check check p).1 ≡ p.1
unfolding then_check
then_check-state check (ok, h) = refl
then_check-state check (err e, h) = refl
then_check-state check (code n, h) = refl

-- A command hands its message, whole and alone, to the transport.
pub command-sent :
    (msg : List ℕ) (check : List ℕ → ℕ → Ret) (h : Hal)
    → (command msg check h).1.sent ≡ h.sent ++ (msg ∷ [])
unfolding command prepare_hal_buf
command-sent msg check h =
    let ready = prepare_hal_buf (length msg) msg h in
    ap (λ (s : Hal). s.sent) (then_check-state check (send_and_wait ready (length msg)))
    ∙ send_and_wait-sent ready (length msg)
    ∙ ap (λ m. h.sent ++ (m ∷ []))
        (take-append msg (drop (length msg) (overwrite (zeros (length msg)) h.buf)))
