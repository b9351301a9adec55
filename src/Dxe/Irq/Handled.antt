-- ===== src/Dxe/Irq/Handled.antt =====
-- What the interrupt handlers of dxe.c do for each of the channels, by the bits of the register of
-- raw interrupts.
use wcn36xx.Common.{
  ℕ, ◌≡◌, refl, sym, ap, ◌∙◌, inl, inr, Bool, true, Bool-cases, ◌==◌, Option, some, List, bit_at,
}
use mathlib.Core.Path.{subst}
use wcn36xx.Dxe.State.{Channel, Event}
use wcn36xx.Dxe.Tx.Release.{taken_back}
use wcn36xx.Dxe.Rx.Invariant.{delivered, IsRxRing}
use wcn36xx.Dxe.Irq.{
  TxSide, reap_high, reap_low, and_then, on_bit, irq_tx_complete, RxSide, rx_low, rx_high, rx_frame,
  AreRings, AreRxRings,
}
use wcn36xx.Dxe.Irq.Served.{
  TxPart, RxPart, TxServed, RxServed, Cleared, tx_clears, rx_clears, no_calls, tx_skipped,
  rx_skipped, reap_high-TxPart, reap_low-TxPart, rx_low-RxPart, rx_high-RxPart,
}

-- A part whose bit is tested first.
on_bit-TxPart :
    (mine other : TxSide → Channel) (mask k int_src : ℕ) (f : TxSide → Option TxSide) (d : TxSide)
    → AreRings d
    → TxPart mine other mask d true (f d)
    → TxPart mine other mask d (bit_at k int_src == 1) (on_bit k int_src f d)
on_bit-TxPart mine other mask k int_src f d r p = elim (Bool-cases (bit_at k int_src == 1)) [
  | inl e ↦ rw e p
  | inr e ↦ rw e (record {
    after = d;
    returns = refl;
    served = tx_skipped refl refl;
    kept = refl;
    calls = no_calls refl;
    rings = r;
  })
]

on_bit-RxPart :
    (mine other : RxSide → Channel) (w mask k int_src : ℕ) (f : RxSide → Option RxSide) (d : RxSide)
    → AreRxRings d
    → RxPart mine other w mask d true (f d)
    → RxPart mine other w mask d (bit_at k int_src == 1) (on_bit k int_src f d)
on_bit-RxPart mine other w mask k int_src f d r p = elim (Bool-cases (bit_at k int_src == 1)) [
  | inl e ↦ rw e p
  | inr e ↦ rw e (record {
    after = d;
    returns = refl;
    served = rx_skipped refl refl;
    kept = refl;
    calls = no_calls refl;
    rings = r;
  })
]

-- What a run of the handler for the transmit channels leaves, with `high` and `low` the bits of the
-- channels; `between` are the calls when the high channel is done.
pub record TxHandled (high low : Bool) (d : TxSide) (r : Option TxSide) : Type 0 where
  pub after : TxSide
  pub between : List Event
  pub returns : r ≡ some after
  pub high_served : TxServed d.high after.high (taken_back d.calls) (taken_back between) high
  pub low_served : TxServed d.low after.low (taken_back between) (taken_back after.calls) low
  pub high_calls : Cleared (tx_clears 16) d.calls between high
  pub low_calls : Cleared (tx_clears 1) between after.calls low
  pub rings : AreRings after

-- The same for the receive channels: the low one, with `v` waiting frames, comes before the high one,
-- with `w`; `between` is the state when the low channel is done.
pub record RxHandled (v w : ℕ) (low high : Bool) (d : RxSide) (r : Option RxSide) : Type 0 where
  pub after : RxSide
  pub between : RxSide
  pub returns : r ≡ some after
  pub low_served :
      RxServed v d.low after.low d.skbs (delivered d.calls) (delivered between.calls) low
  pub high_served :
      RxServed w d.high after.high between.skbs
        (delivered between.calls)
        (delivered after.calls)
        high
  pub low_calls : Cleared (rx_clears 2) d.calls between.calls low
  pub high_calls : Cleared (rx_clears 8) between.calls after.calls high
  pub rings : AreRxRings after

irq_tx_complete-TxHandled :
    (int_src : ℕ) (d : TxSide)
    → AreRings d
    → TxHandled (bit_at 4 int_src == 1) (bit_at 0 int_src == 1) d (irq_tx_complete int_src d)
unfolding irq_tx_complete
irq_tx_complete-TxHandled int_src d r =
    let one =
      on_bit-TxPart (λ (x : TxSide). x.high) (λ (x : TxSide). x.low) 16 4 int_src reap_high d r
        (reap_high-TxPart d r) in
    let two =
      on_bit-TxPart (λ (x : TxSide). x.low) (λ (x : TxSide). x.high) 1 0 int_src reap_low one.after
        one.rings (reap_low-TxPart one.after one.rings) in
    record {
      after = two.after;
      between = one.after.calls;
      returns = ap (λ o. and_then o (on_bit 0 int_src reap_low)) one.returns ∙ two.returns;
      high_served =
          subst
            (λ ch.
              TxServed d.high ch (taken_back d.calls) (taken_back one.after.calls)
                (bit_at 4 int_src == 1))
            (sym two.kept) one.served;
      low_served =
          subst
            (λ ch.
              TxServed ch two.after.low (taken_back one.after.calls) (taken_back two.after.calls)
                (bit_at 0 int_src == 1))
            one.kept two.served;
      high_calls = one.calls;
      low_calls = two.calls;
      rings = two.rings;
    }

rx_frame-RxHandled :
    (int_src : ℕ) (d : RxSide) (r : AreRxRings d)
    → RxHandled r.low_waiting r.high_waiting
        (bit_at 1 int_src == 1)
        (bit_at 3 int_src == 1)
        d
        (rx_frame int_src d)
unfolding rx_frame
rx_frame-RxHandled int_src d r =
    let one =
      on_bit-RxPart (λ (x : RxSide). x.low) (λ (x : RxSide). x.high) r.low_waiting 2 1 int_src
        rx_low d r (rx_low-RxPart d r) in
    let rings : AreRxRings one.after = record {
      low_waiting = one.rings.low_waiting;
      high_waiting = r.high_waiting;
      low_ring = one.rings.low_ring;
      high_ring = subst (λ ch. IsRxRing ch r.high_waiting) (sym one.kept) r.high_ring;
    } in
    let two =
      on_bit-RxPart (λ (x : RxSide). x.high) (λ (x : RxSide). x.low) r.high_waiting 8 3 int_src
        rx_high one.after rings (rx_high-RxPart one.after rings) in
    record {
      after = two.after;
      between = one.after;
      returns = ap (λ o. and_then o (on_bit 3 int_src rx_high)) one.returns ∙ two.returns;
      low_served =
          subst
            (λ ch.
              RxServed r.low_waiting d.low ch d.skbs (delivered d.calls) (delivered one.after.calls)
                (bit_at 1 int_src == 1))
            (sym two.kept) one.served;
      high_served =
          subst
            (λ ch.
              RxServed r.high_waiting ch two.after.high one.after.skbs (delivered one.after.calls)
                (delivered two.after.calls) (bit_at 3 int_src == 1))
            one.kept two.served;
      low_calls = one.calls;
      high_calls = two.calls;
      rings = two.rings;
    }

-- When both transmit channels are well-formed rings and both receive channels are receive rings, both
-- handlers return and leave them so. A transmit channel is served exactly when its bit is set, 4 for
-- the high channel and then 0 for the low one: its interrupt is cleared in both registers, and then its
-- frames are taken back in order until none is left or the next is with the DMA engine. A receive
-- channel is served exactly when its bit is set, 1 for the low channel and then 3 for the high one: its
-- interrupt is cleared, and then all frames that wait in it are handed up in order and its blocks
-- filled again. No other interrupt is cleared, and a channel without its bit is left alone.
pub irq_tx_complete-rx_frame :
    (int_src : ℕ) (d : TxSide) (e : RxSide)
    → AreRings d
    → (q : AreRxRings e)
    → TxHandled (bit_at 4 int_src == 1) (bit_at 0 int_src == 1) d (irq_tx_complete int_src d)
      × RxHandled q.low_waiting q.high_waiting
          (bit_at 1 int_src == 1)
          (bit_at 3 int_src == 1)
          e
          (rx_frame int_src e)
irq_tx_complete-rx_frame int_src d e r q =
    (irq_tx_complete-TxHandled int_src d r, rx_frame-RxHandled int_src e q)
