-- ===== src/Smd/Send.antt =====
-- PREPARE_HAL_BUF, `wcn36xx_smd_send_and_wait`, and the shape that the commands of smd.c share.
use wcn36xx.Common.{
  ℕ, suc, false, List, [], ◌∷◌, ◌++◌, length, take, zeros, overwrite, ltb, le32_at, ◌==◌,
  if◌then◌else◌, Ret, ok, err, code, etime, eio,
}
use wcn36xx.Hal.Enums.{result_success}
use wcn36xx.Smd.State.{Hal, Reply, refused, accepted}
use wcn36xx.Smd.Receive.{arrivals}

-- `n` is `msg_body.header.len`, which can be above `sizeof(msg_body)`.
unfoldable pub prepare_hal_buf : ℕ → List ℕ → Hal → Hal
prepare_hal_buf n msg h = record h { buf = overwrite msg (overwrite (zeros n) h.buf) }

-- `wait_for_completion_timeout`, after the messages that came in.
abbrev pub wait_result : Hal → Ret × Hal
wait_result h = (if h.completed then ok else err etime, h)

unfoldable pub wait_reply : List Reply → Hal → Ret × Hal
wait_reply [] h = (err etime, h)
wait_reply (refused n ∷ rs) h = (code (suc n), record h { replies = rs })
wait_reply (accepted ms ∷ rs) h = wait_result (arrivals ms (record h { replies = rs }))

unfoldable pub send_and_wait : Hal → ℕ → Ret × Hal
unfolding wait_reply arrivals
send_and_wait h len =
    wait_reply h.replies (record h { sent = h.sent ++ (take len h.buf ∷ []); completed = false })

unfoldable pub rsp_status_check : List ℕ → ℕ → Ret
rsp_status_check buf len =
    if ltb len 12
    then err eio
    else if le32_at 8 buf == result_success
    then ok
    else code (le32_at 8 buf)

-- `if (ret) goto out;`, then the check of the response.
unfoldable pub then_check : (List ℕ → ℕ → Ret) → Ret × Hal → Ret × Hal
then_check check (ok, h) = (check h.buf h.rsp_len, h)
then_check check (err e, h) = (err e, h)
then_check check (code n, h) = (code n, h)

-- Prepare the buffer, send `n` bytes of it, check the response.
unfoldable pub request : ℕ → List ℕ → (List ℕ → ℕ → Ret) → Hal → Ret × Hal
unfolding prepare_hal_buf send_and_wait then_check
request n msg check h = then_check check (send_and_wait (prepare_hal_buf n msg h) n)

-- The commands whose header length is `sizeof(msg_body)`.
unfoldable pub command : List ℕ → (List ℕ → ℕ → Ret) → Hal → Ret × Hal
unfolding request
command msg check h = request (length msg) msg check h

unfoldable pub simple : List ℕ → Hal → Ret × Hal
unfolding command rsp_status_check
simple msg h = command msg rsp_status_check h
