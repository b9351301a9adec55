-- ===== src/Txrx/Send/Pending.antt =====
-- A frame that is refused after its status was asked for.
use wcn36xx.Common.{
  ℕ, ◌≡◌, refl, ap, sym, ◌∙◌, Bool, true, false, not, Option, none, some, [], ◌∷◌, ◌++◌, ◌==◌,
  if◌then◌else◌, err, ebusy,
}
use mathlib.Core.Bool.{true≢false}
use wcn36xx.Dxe.State.{Skb, stop_queues, block_at, next, is_some}
use wcn36xx.Dxe.Tx.{Tx, size, tx_frame}
use wcn36xx.Txrx.Fill.{Frame, TxSta, Sender, Filled}
use wcn36xx.Txrx.Send.{
  is_data, channel_of, with_channel, send_filled, fill_and_send, await_status, start_tx,
  free_refused, tx, tx_ack_ind,
}

-- The channel of a frame.
abbrev pub ring_of : Frame → Sender → Tx
ring_of f s = channel_of (is_data f.frame_type) s

-- The block for the frame still has one.
abbrev pub is_full : Tx → Bool
is_full t = is_some (block_at t.ch (next (size t.ch) t.ch.head)).skb

busy :
    (frame : Skb) (is_low bmps : Bool) (t : Tx)
    → is_full t ≡ true
    → (tx_frame frame is_low bmps t).0 ≡ err ebusy
unfolding tx_frame
busy frame is_low bmps t e = rw e refl

-- The frame was freed, and is what the status will be given for.
pub record IsStale (f : Frame) (status : ℕ) (s s' : Sender) : Type 0 where
  pub gone : s'.freed ≡ f.skb ∷ s.freed
  pub awaited : s'.tx_ack_skb ≡ some f.skb
  pub handed_up : (tx_ack_ind status s').0 ≡ some (f.skb, status == 1)

abbrev pub StaleUnless : Frame → ℕ → Sender → Option (Sender × Option TxSta) → Type 0
StaleUnless f status s none = Unit {0}
StaleUnless f status s (some (s', sta)) = IsStale f status s s'

with_channel-kept :
    (is_low : Bool) (t : Tx) (s : Sender)
    → ((with_channel is_low t s).freed ≡ s.freed)
      × ((with_channel is_low t s).tx_ack_skb ≡ s.tx_ack_skb)
with_channel-kept true t s = (refl, refl)
with_channel-kept false t s = (refl, refl)

send_refused :
    (f : Frame) (status : ℕ) (s₀ s : Sender) (x : Option Filled)
    → is_full (ring_of f s) ≡ true
    → s.tx_ack_skb ≡ some f.skb
    → s.freed ≡ s₀.freed
    → StaleUnless f status s₀ (free_refused f (send_filled f s x))
unfolding send_filled free_refused tx_ack_ind
send_refused f status s₀ s none full a g = tt
send_refused f status s₀ s (some x) full a g =
    let is_low = is_data f.frame_type in
    let t = ring_of f s in
    let (freed, ack) = with_channel-kept is_low (tx_frame f.skb is_low x.through.bmps t).1 s in
    rw (busy f.skb is_low x.through.bmps t full) (record {
      gone = ap (λ r. f.skb ∷ r) (freed ∙ g);
      awaited = ack ∙ a;
      handed_up = rw (ack ∙ a) refl;
    })

-- Waiting for the status changes neither the ring nor what was freed.
stays_full :
    (is_low : Bool) (s : Sender) (t : Tx)
    → t.ch ≡ (channel_of is_low s).ch
    → is_full (channel_of is_low s) ≡ true
    → is_full (channel_of is_low (with_channel is_low t s)) ≡ true
unfolding channel_of
stays_full true s t e full = rw e full
stays_full false s t e full = rw e full

last_of_three :
    {A : Type 0}
    → (a b c : Bool) (w x y z : A) → a ≡ true
    → b ≡ true
    → c ≡ false
    → (if not a then w else if not b then x else if c then y else z) ≡ z
last_of_three true true false w x y z d e f = refl
last_of_three true true true w x y z d e f = absurd (true≢false f)
last_of_three true false c w x y z d e f = absurd (true≢false (sym e))
last_of_three false b c w x y z d e f = absurd (true≢false (sym d))

start_tx-await_status :
    (f : Frame) (sta : Option TxSta) (s : Sender)
    → f.skb.wants_status ≡ true
    → s.tx_ack_skb ≡ none
    → is_some (block_at (ring_of f s).ch (ring_of f s).ch.head).bd_cpu_addr ≡ true
    → start_tx f sta s ≡ fill_and_send f sta (await_status f s)
unfolding start_tx
start_tx-await_status f sta s w a b =
    last_of_three _ f.skb.wants_status (is_some s.tx_ack_skb) _ _ _ _ b w (ap is_some a)

awaiting_refused :
    (f : Frame) (sta : Option TxSta) (s : Sender) (status : ℕ)
    → is_full (ring_of f s) ≡ true
    → StaleUnless f status s (free_refused f (fill_and_send f sta (await_status f s)))
unfolding fill_and_send await_status
awaiting_refused f sta s status full =
    let is_low = is_data f.frame_type in
    let t = ring_of f s in
    let stopped : Tx = record t { calls = t.calls ++ (stop_queues ∷ []) } in
    send_refused f status s (await_status f s) _ (stays_full is_low s stopped refl full) refl
      ((with_channel-kept is_low stopped s).0)

-- A frame whose status is asked for, while none is waited for, with a buffer for the BD at the head of
-- its ring but the next block in use: unless the interface is not found, wcn36xx_tx frees the frame and
-- leaves it as the one whose status is waited for, and wcn36xx_dxe_tx_ack_ind hands the freed frame up
-- when a status comes.
pub tx-stale :
    (f : Frame) (sta : Option TxSta) (s : Sender) (status : ℕ)
    → f.skb.wants_status ≡ true
    → s.tx_ack_skb ≡ none
    → is_some (block_at (ring_of f s).ch (ring_of f s).ch.head).bd_cpu_addr ≡ true
    → is_full (ring_of f s) ≡ true
    → StaleUnless f status s (tx f sta s)
unfolding tx
tx-stale f sta s status w a b full =
    rw (start_tx-await_status f sta s w a b) (awaiting_refused f sta s status full)
