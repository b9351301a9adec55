-- ===== src/Smd/Outcome.antt =====
-- The result of a command, from what the transport and the firmware did: first with the buffer that
-- the responses are copied over, and then from the last response alone.
use wcn36xx.Common.{
  ℕ, suc, ◌≤◌, ◌≡◌, ◌↔◌, refl, ◌∙◌, inl, inr, Bool, true, false, ◌&&◌, ◌||◌, take, List, [], ◌∷◌,
  ◌++◌, length, get_or-append, drop, zeros, overwrite, Bool-cases, leb, ltb, le32_at, le16_at, ◌==◌,
  if◌then◌else◌, Ret, ok, err, code, etime, arith,
}
use mathlib.Core.Path.{ap₂}
use wcn36xx.Hal.Enums.{result_success}
use wcn36xx.Smd.State.{Hal, Reply, refused, accepted}
use wcn36xx.Smd.Receive.{is_one_of, responses, complete_with, rsp_process, arrivals}
use wcn36xx.Smd.Send.{
  wait_reply, wait_result, prepare_hal_buf, then_check, command, simple, rsp_status_check,
}

abbrev pub is_response : List ℕ → Bool
is_response m = is_one_of (le16_at 0 m) responses

-- The messages that complete a command, in order.
pub responses_of : List (List ℕ) → List (List ℕ)
responses_of [] = []
responses_of (m ∷ ms) = if is_response m then m ∷ responses_of ms else responses_of ms

-- The buffer after the responses `rs` were copied over it one after the other.
unfoldable pub overwritten : List (List ℕ) → List ℕ → List ℕ
overwritten [] buf = buf
overwritten (r ∷ rs) buf = overwritten rs (overwrite r buf)

pub last_length : ℕ → List (List ℕ) → ℕ
last_length n [] = n
last_length n (r ∷ rs) = last_length (length r) rs

-- No response: -ETIME. Otherwise the check reads the buffer with the responses in it, and is given
-- the length of the last.
judged : (List ℕ → ℕ → Ret) → List ℕ → List (List ℕ) → Ret
judged check buf [] = err etime
judged check buf (r ∷ rs) = check (overwritten (r ∷ rs) buf) (last_length 0 (r ∷ rs))

judged_replies : (List ℕ → ℕ → Ret) → List ℕ → List Reply → Ret
judged_replies check buf [] = err etime
judged_replies check buf (refused n ∷ rs) = code (suc n)
judged_replies check buf (accepted ms ∷ rs) = judged check buf (responses_of ms)

rsp_process_response :
    (h : Hal) (m : List ℕ) → is_response m ≡ true → rsp_process h m ≡ complete_with m h
unfolding rsp_process
rsp_process_response h m e = rw e

rsp_process_other :
    (h : Hal) (m : List ℕ)
    → is_response m ≡ false
    → ((rsp_process h m).buf ≡ h.buf)
      × ((rsp_process h m).rsp_len ≡ h.rsp_len)
      × ((rsp_process h m).completed ≡ h.completed)
unfolding rsp_process
rsp_process_other h m e = rw e (ground arith)

abbrev pub any_of : List (List ℕ) → Bool
any_of [] = false
any_of (r ∷ rs) = true

-- The state after the messages `ms` is that of their responses.
pub arrivals_after :
    (ms : List (List ℕ)) (h : Hal)
    → ((arrivals ms h).buf ≡ overwritten (responses_of ms) h.buf)
      × ((arrivals ms h).rsp_len ≡ last_length h.rsp_len (responses_of ms))
      × ((arrivals ms h).completed ≡ (h.completed || any_of (responses_of ms)))
unfolding arrivals responses_of overwritten last_length complete_with
arrivals_after [] h = (refl, refl, ground arith)
arrivals_after (m ∷ ms) h = elim (Bool-cases (is_response m)) [
  | inl e ↦
      rw (e, arrivals)
        (let (b, l, c) = arrivals_after ms (complete_with m h) in (b, l, c ∙ ground arith))
  | inr e ↦ rw e (ground (arith, arrivals_after ms (rsp_process h m), rsp_process_other h m e))
]

-- The wait, once the responses are known.
judged_after :
    (check : List ℕ → ℕ → Ret) (h : Hal) (buf : List ℕ) (rs : List (List ℕ))
    → h.buf ≡ overwritten rs buf
    → (n : ℕ) → h.rsp_len ≡ last_length n rs
    → h.completed ≡ any_of rs
    → (then_check check (wait_result h)).0 ≡ judged check buf rs
unfolding then_check judged overwritten last_length
judged_after check h buf [] b n l c = rw c
judged_after check h buf (r ∷ rs) b n l c = rw c (ap₂ check b l)

command-judged :
    (msg : List ℕ) (check : List ℕ → ℕ → Ret) (h : Hal)
    → (command msg check h).0
      ≡ judged_replies check (overwrite msg (overwrite (zeros (length msg)) h.buf)) h.replies
unfolding command prepare_hal_buf judged_replies then_check
command-judged msg check h = by_reply h.replies
  where
    ready : Hal
    ready = prepare_hal_buf (length msg) msg h

    started : Hal
    started = record ready {
      sent = h.sent ++ (take (length msg) ready.buf ∷ []);
      completed = false;
    }

    by_reply :
        (rs : List Reply)
        → (then_check check (wait_reply rs started)).0 ≡ judged_replies check ready.buf rs
    by_reply [] = refl
    by_reply (refused n ∷ rs) = refl
    by_reply (accepted ms ∷ rs) =
        let (b, l, c) = arrivals_after ms (record started { replies = rs }) in
        judged_after check (arrivals ms (record started { replies = rs })) ready.buf
          (responses_of ms) b started.rsp_len l c

-- The response that a command's check sees: the last that came in.
pub last_of : List ℕ → List (List ℕ) → List ℕ
last_of r [] = r
last_of r (x ∷ rs) = last_of x rs

-- A check that reads nothing behind the response that it is given.
abbrev pub ReadsResponse : (List ℕ → ℕ → Ret) → Type 0
ReadsResponse check = (r rest : List ℕ) → check (r ++ rest) (length r) ≡ check r (length r)

-- What a command returns, from the transport and the messages alone: no buffer takes part.
pub answered : (List ℕ → ℕ → Ret) → List (List ℕ) → Ret
answered check [] = err etime
answered check (r ∷ rs) = check (last_of r rs) (length (last_of r rs))

pub outcome : (List ℕ → ℕ → Ret) → List Reply → Ret
outcome check [] = err etime
outcome check (refused n ∷ rs) = code (suc n)
outcome check (accepted ms ∷ rs) = answered check (responses_of ms)

last_length-last_of :
    (n : ℕ) (r : List ℕ) (rs : List (List ℕ)) → last_length n (r ∷ rs) ≡ length (last_of r rs)
unfolding last_length last_of
last_length-last_of n r [] = refl
last_length-last_of n r (x ∷ rs) = last_length-last_of (length r) x rs

-- The last response stands at the start of the buffer, in front of what earlier ones left.
overwritten-last :
    (r : List ℕ) (rs : List (List ℕ)) (buf : List ℕ)
    → (rest : List ℕ) × (overwritten (r ∷ rs) buf ≡ last_of r rs ++ rest)
unfolding overwritten last_of
overwritten-last r [] buf = (drop (length r) buf, refl)
overwritten-last r (x ∷ rs) buf = overwritten-last x rs (overwrite r buf)

judged-answered :
    (check : List ℕ → ℕ → Ret) (buf : List ℕ) (rs : List (List ℕ))
    → ReadsResponse check
    → judged check buf rs ≡ answered check rs
unfolding judged answered
judged-answered check buf [] reads = refl
judged-answered check buf (r ∷ rs) reads =
    let (rest, e) = overwritten-last r rs buf in
    ap₂ check e (last_length-last_of 0 r rs) ∙ reads (last_of r rs) rest

judged-outcome :
    (check : List ℕ → ℕ → Ret) (buf : List ℕ) (rs : List Reply)
    → ReadsResponse check
    → judged_replies check buf rs ≡ outcome check rs
unfolding judged_replies outcome
judged-outcome check buf [] reads = refl
judged-outcome check buf (refused n ∷ rs) reads = refl
judged-outcome check buf (accepted ms ∷ rs) reads =
    judged-answered check buf (responses_of ms) reads

-- Whatever the transport and the firmware do, and whatever was in the buffer, a command whose check
-- reads nothing behind the response returns the code of a transport that refuses, -ETIME when no
-- response comes in time, and otherwise what the check makes of the last response alone.
pub command-outcome :
    (msg : List ℕ) (check : List ℕ → ℕ → Ret) (h : Hal)
    → ReadsResponse check
    → (command msg check h).0 ≡ outcome check h.replies
command-outcome msg check h reads =
    command-judged msg check h
    ∙ judged-outcome check (overwrite msg (overwrite (zeros (length msg)) h.buf)) h.replies reads

-- The check that most commands have is such a one.
pub rsp_status_check-ReadsResponse : ReadsResponse rsp_status_check
unfolding rsp_status_check
rsp_status_check-ReadsResponse r rest = elim (Bool-cases (ltb (length r) 12)) [
  | inl e ↦ rw e refl
  | inr e ↦
      let same : le32_at 8 (r ++ rest) ≡ le32_at 8 r = omega (
        arith,
        get_or-append r rest 8 0 (ground arith),
        get_or-append r rest 9 0 (ground arith),
        get_or-append r rest 10 0 (ground arith),
        get_or-append r rest 11 0 (ground arith),
      ) in
      rw (e, same) refl
]

status_of_last :
    (r : List ℕ) (rs : List (List ℕ)) (buf : List ℕ)
    → 12 ≤ length (last_of r rs)
    → le32_at 8 (overwritten (r ∷ rs) buf) ≡ le32_at 8 (last_of r rs)
unfolding overwritten last_of
status_of_last r [] buf h =
    let rest = drop (length r) buf in
    omega (
      arith,
      get_or-append r rest 8 0 (omega arith),
      get_or-append r rest 9 0 (omega arith),
      get_or-append r rest 10 0 (omega arith),
      get_or-append r rest 11 0 (omega arith),
    )
status_of_last r (x ∷ rs) buf h = status_of_last x rs (overwrite r buf) h

abbrev pub is_success : List ℕ → Bool
is_success r = leb 12 (length r) && le32_at 8 r == result_success

pub any_success : List (List ℕ) → Bool
any_success [] = false
any_success (r ∷ rs) = is_success (last_of r rs)

-- The transport takes the command, and the last response that comes in time is a success.
pub succeeded : List Reply → Bool
succeeded [] = false
succeeded (refused n ∷ rs) = false
succeeded (accepted ms ∷ rs) = any_success (responses_of ms)

judged-ok_iff :
    (buf : List ℕ) (rs : List (List ℕ))
    → (judged rsp_status_check buf rs ≡ ok) ↔ (any_success rs ≡ true)
unfolding judged any_success rsp_status_check
judged-ok_iff buf [] = ((λ e. cc), (λ e. cc))
judged-ok_iff buf (r ∷ rs) =
    rw (last_length-last_of 0 r rs) (ground (arith, status_of_last r rs buf))

judged_replies-ok_iff :
    (buf : List ℕ) (rs : List Reply)
    → (judged_replies rsp_status_check buf rs ≡ ok) ↔ (succeeded rs ≡ true)
unfolding judged_replies succeeded
judged_replies-ok_iff buf [] = ((λ e. cc), (λ e. cc))
judged_replies-ok_iff buf (refused n ∷ rs) = ((λ e. cc), (λ e. cc))
judged_replies-ok_iff buf (accepted ms ∷ rs) = judged-ok_iff buf (responses_of ms)

-- A command with the common check returns 0 exactly when the transport takes it and the last
-- response in time has at least 12 bytes and status 0, of whatever type that response is.
pub simple-ok_iff :
    (msg : List ℕ) (h : Hal) → ((simple msg h).0 ≡ ok) ↔ (succeeded h.replies ≡ true)
unfolding simple
simple-ok_iff msg h =
    rw (command-judged msg rsp_status_check h)
      (judged_replies-ok_iff (overwrite msg (overwrite (zeros (length msg)) h.buf)) h.replies)
