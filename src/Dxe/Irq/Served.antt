-- ===== src/Dxe/Irq/Served.antt =====
-- What one channel's part of an interrupt handler of dxe.c does.
use wcn36xx.Common.{
  ℕ, ◌≡◌, ◌⊎◌, refl, ap, ◌∙◌, Bool, true, false, Option, some, List, [], ◌∷◌, ◌++◌, append-nil,
}
use mathlib.Core.Path.{subst}
use wcn36xx.Dxe.State.{Skb, Channel, Event, write_register}
use wcn36xx.Dxe.Cyclic.{ahead, collect}
use wcn36xx.Dxe.Tx.{Tx, size}
use wcn36xx.Dxe.Tx.Write.{skb_at}
use wcn36xx.Dxe.Tx.Invariant.{valid_at, IsRing}
use wcn36xx.Dxe.Tx.Fifo.{frames}
use wcn36xx.Dxe.Tx.Release.{taken_back, taken_back-append}
use wcn36xx.Dxe.Tx.Reap.{reap_tx_dxes-TakenBack}
use wcn36xx.Dxe.Rx.{Rx}
use wcn36xx.Dxe.Rx.Invariant.{delivered, delivered-append, IsRxRing}
use wcn36xx.Dxe.Rx.Walk.{held_after, waiting_frames, rx_handle_packets-HandedUp}
use wcn36xx.Dxe.Irq.{
  TxSide, on_low, on_high, clear_tx, reap_high, reap_low, RxSide, rx_low, rx_high, AreRings,
  AreRxRings,
}
use wcn36xx.Dxe.Irq.Calls.{Grows, TxGrows, RxGrows, reap_tx_dxes-TxGrows, rx_handle_packets-RxGrows}

-- The calls for one channel: when its bit is set, first the interrupt is cleared, and then come calls
-- that clear none.
pub data Cleared (clears before after : List Event) : Bool → Type 0 where
  no_calls : after ≡ before → Cleared clears before after false
  cleared : Grows (before ++ clears) after → Cleared clears before after true

-- A transmit channel, with the frames that were taken back before and after: without its bit it is
-- left alone. With it frames are taken back from the tail in their order, until none is used or the
-- next one is still with the DMA engine.
pub data TxServed (ch ch' : Channel) (back back' : List Skb) : Bool → Type 0 where
  tx_skipped : ch' ≡ ch → back' ≡ back → TxServed ch ch' back back' false
  reaped :
      (left : ℕ)
      → IsRing ch' left
      → ((left ≡ 0) ⊎ (valid_at ch' ch'.tail ≡ true))
      → back' ++ frames ch' ≡ back ++ frames ch
      → TxServed ch ch' back back' true

-- A receive channel with `w` waiting frames, the outcomes of `alloc_skb`, and the frames that were
-- handed up before and after.
pub data RxServed (w : ℕ) (ch ch' : Channel) (os : List (Option Skb)) (up up' : List Skb)
    : Bool → Type 0 where
  rx_skipped : ch' ≡ ch → up' ≡ up → RxServed w ch ch' os up up' false
  handled :
      IsRxRing ch' 0
      → ch'.head ≡ ahead (size ch) ch.head w
      → up' ≡ up ++ waiting_frames w ch
      → collect (size ch) (skb_at ch') w ch.head ≡ held_after os (waiting_frames w ch)
      → RxServed w ch ch' os up up' true

abbrev pub tx_clears : ℕ → List Event
tx_clears mask = write_register 0x202030 mask ∷ write_register 0x202034 mask ∷ []

abbrev pub rx_clears : ℕ → List Event
rx_clears mask = write_register 0x202030 mask ∷ []

-- One channel's part of a handler; `mine` is its channel and `other` the other one.
pub record TxPart (mine other : TxSide → Channel) (mask : ℕ) (d : TxSide) (bit : Bool)
    (r : Option TxSide) : Type 0 where
  pub after : TxSide
  pub returns : r ≡ some after
  pub served : TxServed (mine d) (mine after) (taken_back d.calls) (taken_back after.calls) bit
  pub kept : other after ≡ other d
  pub calls : Cleared (tx_clears mask) d.calls after.calls bit
  pub rings : AreRings after

pub record RxPart (mine other : RxSide → Channel) (w mask : ℕ) (d : RxSide) (bit : Bool)
    (r : Option RxSide) : Type 0 where
  pub after : RxSide
  pub returns : r ≡ some after
  pub served :
      RxServed w (mine d) (mine after) d.skbs (delivered d.calls) (delivered after.calls) bit
  pub kept : other after ≡ other d
  pub calls : Cleared (rx_clears mask) d.calls after.calls bit
  pub rings : AreRxRings after

tx_grown :
    (s : Tx) (used : ℕ) (r : IsRing s.ch used)
    → Grows s.calls (reap_tx_dxes-TakenBack s used r).after.calls
tx_grown s used r =
    subst (TxGrows s.calls) (reap_tx_dxes-TakenBack s used r).returns (reap_tx_dxes-TxGrows s)

rx_grown :
    (s : Rx) (w : ℕ) (r : IsRxRing s.ch w)
    → Grows s.calls (rx_handle_packets-HandedUp s w r).after.calls
rx_grown s w r =
    subst (RxGrows s.calls) (rx_handle_packets-HandedUp s w r).returns (rx_handle_packets-RxGrows s)

nothing_back : (cs : List Event) (mask : ℕ) → taken_back (cs ++ tx_clears mask) ≡ taken_back cs
unfolding taken_back
nothing_back cs mask = taken_back-append cs (tx_clears mask) ∙ append-nil (taken_back cs)

nothing_up : (cs : List Event) (mask : ℕ) → delivered (cs ++ rx_clears mask) ≡ delivered cs
unfolding delivered
nothing_up cs mask = delivered-append cs (rx_clears mask) ∙ append-nil (delivered cs)

tx_served :
    (s : Tx) (used mask : ℕ) (cs : List Event)
    → s.calls ≡ cs ++ tx_clears mask
    → (r : IsRing s.ch used)
    → let after = (reap_tx_dxes-TakenBack s used r).after in
      TxServed s.ch after.ch (taken_back cs) (taken_back after.calls) true
      × Cleared (tx_clears mask) cs after.calls true
tx_served s used mask cs e r =
    let t = reap_tx_dxes-TakenBack s used r in
    (
      reaped t.left t.ring t.finished
          (t.order ∙ ap (λ xs. xs ++ frames s.ch) (ap taken_back e ∙ nothing_back cs mask)),
      cleared (subst (λ xs. Grows xs t.after.calls) e (tx_grown s used r)),
    )

rx_served :
    (s : Rx) (w mask : ℕ) (cs : List Event)
    → s.calls ≡ cs ++ rx_clears mask
    → (r : IsRxRing s.ch w)
    → let after = (rx_handle_packets-HandedUp s w r).after in
      RxServed w s.ch after.ch s.skbs (delivered cs) (delivered after.calls) true
      × Cleared (rx_clears mask) cs after.calls true
rx_served s w mask cs e r =
    let t = rx_handle_packets-HandedUp s w r in
    (
      handled t.ring t.place
          (t.order ∙ ap (λ xs. xs ++ waiting_frames w s.ch) (ap delivered e ∙ nothing_up cs mask))
          t.refilled,
      cleared (subst (λ xs. Grows xs t.after.calls) e (rx_grown s w r)),
    )

pub reap_high-TxPart :
    (d : TxSide)
    → AreRings d
    → TxPart (λ (x : TxSide). x.high) (λ (x : TxSide). x.low) 16 d true (reap_high d)
unfolding reap_high
reap_high-TxPart d r =
    let s = on_high (clear_tx 16 d) in
    let t = reap_tx_dxes-TakenBack s r.high_used r.high_ring in
    let (served, calls) = tx_served s r.high_used 16 d.calls refl r.high_ring in
    record {
      after = record d {
        high = t.after.ch;
        queues_stopped = t.after.queues_stopped;
        calls = t.after.calls;
      };
      returns = rw (t.returns, reap_high) refl;
      served = served;
      kept = refl;
      calls = calls;
      rings = record {
        low_used = r.low_used;
        high_used = t.left;
        low_ring = r.low_ring;
        high_ring = t.ring;
      };
    }

pub reap_low-TxPart :
    (d : TxSide)
    → AreRings d
    → TxPart (λ (x : TxSide). x.low) (λ (x : TxSide). x.high) 1 d true (reap_low d)
unfolding reap_low
reap_low-TxPart d r =
    let s = on_low (clear_tx 1 d) in
    let t = reap_tx_dxes-TakenBack s r.low_used r.low_ring in
    let (served, calls) = tx_served s r.low_used 1 d.calls refl r.low_ring in
    record {
      after = record d {
        low = t.after.ch;
        queues_stopped = t.after.queues_stopped;
        calls = t.after.calls;
      };
      returns = rw (t.returns, reap_low) refl;
      served = served;
      kept = refl;
      calls = calls;
      rings = record {
        low_used = t.left;
        high_used = r.high_used;
        low_ring = t.ring;
        high_ring = r.high_ring;
      };
    }

pub rx_low-RxPart :
    (d : RxSide) (r : AreRxRings d)
    → RxPart (λ (x : RxSide). x.low) (λ (x : RxSide). x.high) r.low_waiting 2 d true (rx_low d)
unfolding rx_low
rx_low-RxPart d r =
    let s : Rx = record { ch = d.low; skbs = d.skbs; calls = d.calls ++ rx_clears 2 } in
    let t = rx_handle_packets-HandedUp s r.low_waiting r.low_ring in
    let (served, calls) = rx_served s r.low_waiting 2 d.calls refl r.low_ring in
    record {
      after = record d { low = t.after.ch; skbs = t.after.skbs; calls = t.after.calls };
      returns = rw (t.returns, rx_low) refl;
      served = served;
      kept = refl;
      calls = calls;
      rings = record {
        low_waiting = 0;
        high_waiting = r.high_waiting;
        low_ring = t.ring;
        high_ring = r.high_ring;
      };
    }

pub rx_high-RxPart :
    (d : RxSide) (r : AreRxRings d)
    → RxPart (λ (x : RxSide). x.high) (λ (x : RxSide). x.low) r.high_waiting 8 d true (rx_high d)
unfolding rx_high
rx_high-RxPart d r =
    let s : Rx = record { ch = d.high; skbs = d.skbs; calls = d.calls ++ rx_clears 8 } in
    let t = rx_handle_packets-HandedUp s r.high_waiting r.high_ring in
    let (served, calls) = rx_served s r.high_waiting 8 d.calls refl r.high_ring in
    record {
      after = record d { high = t.after.ch; skbs = t.after.skbs; calls = t.after.calls };
      returns = rw (t.returns, rx_high) refl;
      served = served;
      kept = refl;
      calls = calls;
      rings = record {
        low_waiting = r.low_waiting;
        high_waiting = 0;
        low_ring = r.low_ring;
        high_ring = t.ring;
      };
    }
