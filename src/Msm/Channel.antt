-- ===== src/Msm/Channel.antt =====
-- Sending through the shared memory channel and what it notifies of: `wcn36xx_msm_smd_send_and_wait`
-- and `wcn36xx_msm_smd_notify`.
use wcn36xx.Common.{
  ℤ, pos, negsuc, ℕ, ◌-◌, ◌^◌, ◌≤◌, ◌<◌, ◌≡◌, ◌↔◌, Bool, true, leb, ◌==◌, if◌then◌else◌, List, [],
  ◌∷◌, Ret, ok, err, eagain, enomem, arith,
}

-- The value of an `int` as a `size_t`, which has 32 bits on these chips.
abbrev pub as_size : ℤ → ℕ
as_size (pos n) = n
as_size (negsuc n) = 2 ^ 32 - 1 - n

-- What `smd_write_avail` and `smd_write` give, and the message; the result, and the messages that
-- `smd_write` was called for.
unfoldable pub smd_send_and_wait : ℤ → ℤ → List ℕ → ℕ → Ret × List (List ℕ)
smd_send_and_wait write_avail written buf len =
    if leb len (as_size write_avail)
    then (if as_size written == len then ok else err eagain, buf ∷ [])
    else (err enomem, [])

pub data SmdEvent : Type 0 where
  open_event data_event close_event status_event reopen_ready : SmdEvent
  other : ℕ → SmdEvent

-- `smd_compl`, and whether `smd_work` is queued on `wq`.
pub record Notified : Type 0 where
  pub completed : Bool
  pub work_queued : Bool

unfoldable pub smd_notify : SmdEvent → Notified → Notified
smd_notify open_event s = record s { completed = true }
smd_notify data_event s = record s { work_queued = true }
smd_notify close_event s = s
smd_notify status_event s = s
smd_notify reopen_ready s = s
smd_notify (other n) s = s

-- Room for `len` bytes, as the comparison of an `int` with a `size_t` sees it.
abbrev pub HasRoom : ℤ → ℕ → Type 0
HasRoom (pos n) len = len ≤ n
HasRoom (negsuc n) len = Unit {0}

-- A value of 32 bits.
abbrev pub IsInt : ℤ → Type 0
IsInt (pos n) = n < 2 ^ 31
IsInt (negsuc n) = n < 2 ^ 31

-- For a message below 2^31 bytes: 0 is returned exactly when the channel has room for the message, or
-- gives an error instead of its room, and then takes the whole message.
pub smd_send_and_wait_lem :
    (avail written : ℤ) (buf : List ℕ) (len : ℕ)
    → IsInt avail
    → IsInt written
    → len < 2 ^ 31
    → (((smd_send_and_wait avail written buf len).0 ≡ ok)
        ↔ (HasRoom avail len × (written ≡ pos len)))
unfolding smd_send_and_wait
smd_send_and_wait_lem (pos a) (pos w) buf len ia iw lt = (λ e. ground arith, λ e. ground arith)
smd_send_and_wait_lem (pos a) (negsuc w) buf len ia iw lt = (λ e. ground arith, λ e. ground arith)
smd_send_and_wait_lem (negsuc a) (pos w) buf len ia iw lt = (λ e. ground arith, λ e. ground arith)
smd_send_and_wait_lem (negsuc a) (negsuc w) buf len ia iw lt =
    (λ e. ground arith, λ e. ground arith)
