-- ===== src/Smd/Exchange.antt =====
-- The shape of the commands whose response the driver learns from.
use wcn36xx.Common.{
  ℕ, ◌+◌, ◌≤◌, ◌≡◌, refl, ap, ◌∙◌, ◌⊎◌, inl, inr, Bool, true, false, if◌then◌else◌, etime, List, [],
  ◌∷◌, ◌++◌, length, drop, zeros, overwrite, take-append, arith, failed, Ret, ok, err, code,
}
use wcn36xx.Hal.MsgType.{MsgType}
use wcn36xx.Hal.Layout.{frame}
use wcn36xx.Smd.State.{Hal, Reply, refused, accepted}
use wcn36xx.Smd.Receive.{arrivals}
use wcn36xx.Smd.Send.{wait_reply, prepare_hal_buf, send_and_wait}
use wcn36xx.Smd.Effects.{send_and_wait-sent}
use wcn36xx.Smd.Wire.{Sends, frame-IsFramed}

-- `if (ret) goto out;`, then the response is read.
unfoldable pub then_read : {A : Type 0} → (List ℕ → ℕ → A → Ret × A) → A → Ret × Hal → Ret × Hal × A
then_read read a (ok, h) = let (ret, a') = read h.buf h.rsp_len a in (ret, h, a')
then_read read a (err e, h) = (err e, h, a)
then_read read a (code n, h) = (code n, h, a)

unfoldable pub exchange :
    {A : Type 0} → List ℕ → (List ℕ → ℕ → A → Ret × A) → A → Hal → Ret × Hal × A
unfolding then_read prepare_hal_buf send_and_wait
exchange msg read a h =
    then_read read a (send_and_wait (prepare_hal_buf (length msg) msg h) (length msg))

then_read-state :
    {A : Type 0}
    → (read : List ℕ → ℕ → A → Ret × A) (a : A) (p : Ret × Hal) → (then_read read a p).1 ≡ p.1
unfolding then_read
then_read-state read a (ok, h) = refl
then_read-state read a (err e, h) = refl
then_read-state read a (code n, h) = refl

exchange-sent :
    {A : Type 0}
    → (msg : List ℕ) (read : List ℕ → ℕ → A → Ret × A) (a : A) (h : Hal)
    → (exchange msg read a h).1.sent ≡ h.sent ++ (msg ∷ [])
unfolding exchange prepare_hal_buf
exchange-sent msg read a h =
    let ready = prepare_hal_buf (length msg) msg h in
    ap (λ (s : Hal). s.sent) (then_read-state read a (send_and_wait ready (length msg)))
    ∙ send_and_wait-sent ready (length msg)
    ∙ ap (λ m. h.sent ++ (m ∷ []))
        (take-append msg (drop (length msg) (overwrite (zeros (length msg)) h.buf)))

pub exchange-Sends :
    {A : Type 0}
    → (t : MsgType) (body : List ℕ) (n : ℕ) (read : List ℕ → ℕ → A → Ret × A) (a : A) (h : Hal)
    → 8 + length body ≡ n
    → n ≤ 4096
    → Sends t n 1 h (exchange (frame t body) read a h).1
exchange-Sends t body n read a h e small = record {
  messages = frame t body ∷ [];
  appended = exchange-sent (frame t body) read a h;
  framed = (frame-IsFramed t body n e small, tt);
  counted = refl;
}

-- The command failed, and what it learns into is as it was.
pub record Kept {A : Type 0} (a : A) (r : Ret × Hal × A) : Type 0 where
  pub reported : failed r.0 ≡ true
  pub unchanged : r.2 ≡ a

-- The command succeeded: a response came in time, and `Q` holds of the buffer, of the length of the
-- response and of what was learned.
pub record Learned {A : Type 0} (Q : List ℕ → ℕ → A → Type 0) (r : Ret × Hal × A) : Type 0 where
  pub returned : r.0 ≡ ok
  pub in_time : r.1.completed ≡ true
  pub learned : Q r.1.buf r.1.rsp_len r.2

-- What a reader of responses does with any response.
pub data Reads {A : Type 0} (Q : List ℕ → ℕ → A → Type 0) (a : A) (buf : List ℕ) (len : ℕ)
    : Ret × A → Type 0 where
  refuses : (ret : Ret) → failed ret ≡ true → Reads Q a buf len (ret, a)
  takes : (b : A) → Q buf len b → Reads Q a buf len (ok, b)

data Waited : Ret × Hal → Type 0 where
  gave_up : (ret : Ret) (h : Hal) → failed ret ≡ true → Waited (ret, h)
  answered : (h : Hal) → h.completed ≡ true → Waited (ok, h)

by_completion : (b : Bool) (h : Hal) → h.completed ≡ b → Waited (if b then ok else err etime, h)
by_completion true h e = answered h e
by_completion false h e = gave_up _ h refl

wait_reply-Waited : (rs : List Reply) (h : Hal) → Waited (wait_reply rs h)
unfolding wait_reply
wait_reply-Waited [] h = gave_up _ _ refl
wait_reply-Waited (refused n ∷ rs) h = gave_up _ _ refl
wait_reply-Waited (accepted ms ∷ rs) h =
    by_completion _ (arrivals ms (record h { replies = rs })) refl

send_and_wait-Waited : (h : Hal) (n : ℕ) → Waited (send_and_wait h n)
unfolding send_and_wait
send_and_wait-Waited h n = wait_reply-Waited h.replies _

by_read :
    {A : Type 0}
    → (Q : List ℕ → ℕ → A → Type 0) (a : A) (h : Hal) → h.completed ≡ true
    → (p : Ret × A) → Reads Q a h.buf h.rsp_len p
    → Kept a (p.0, h, p.1) ⊎ Learned Q (p.0, h, p.1)
by_read Q a h c _ (refuses ret f) = inl (record { reported = f; unchanged = refl })
by_read Q a h c _ (takes b q) = inr (record { returned = refl; in_time = c; learned = q })

then_read-Learned :
    {A : Type 0}
    → (read : List ℕ → ℕ → A → Ret × A) (Q : List ℕ → ℕ → A → Type 0) (a : A)
    → ((buf : List ℕ) (len : ℕ) → Reads Q a buf len (read buf len a))
    → (p : Ret × Hal) → Waited p
    → Kept a (then_read read a p) ⊎ Learned Q (then_read read a p)
unfolding then_read
then_read-Learned read Q a reads _ (gave_up (err e) h f) =
    inl (record { reported = f; unchanged = refl })
then_read-Learned read Q a reads _ (gave_up (code n) h f) =
    inl (record { reported = f; unchanged = refl })
then_read-Learned read Q a reads _ (gave_up ok h f) = ground arith
then_read-Learned read Q a reads _ (answered h c) = by_read Q a h c _ (reads h.buf h.rsp_len)

-- Any such command, whatever the transport and the firmware do.
pub exchange-Learned :
    {A : Type 0}
    → (msg : List ℕ) (read : List ℕ → ℕ → A → Ret × A) (Q : List ℕ → ℕ → A → Type 0) (a : A)
      (h : Hal)
    → ((buf : List ℕ) (len : ℕ) → Reads Q a buf len (read buf len a))
    → Kept a (exchange msg read a h) ⊎ Learned Q (exchange msg read a h)
unfolding exchange
exchange-Learned msg read Q a h reads =
    then_read-Learned read Q a reads _
      (send_and_wait-Waited (prepare_hal_buf (length msg) msg h) (length msg))
