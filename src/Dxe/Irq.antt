-- ===== src/Dxe/Irq.antt =====
-- The interrupt handlers `wcn36xx_irq_tx_complete` and `wcn36xx_dxe_rx_frame` over both channels of a
-- direction.
pub mod Calls
pub mod Served
pub mod Handled
use wcn36xx.Common.{
  ℕ, ◌≡◌, refl, inl, inr, Bool, Bool-cases, ◌==◌, if◌then◌else◌, Option, none, some, List, [], ◌∷◌,
  ◌++◌, bit_at,
}
use wcn36xx.Dxe.State.{Skb, Channel, Event, write_register}
use wcn36xx.Dxe.Tx.{Tx, reap_tx_dxes}
use wcn36xx.Dxe.Tx.Invariant.{IsRing}
use wcn36xx.Dxe.Tx.Reap.{reap_tx_dxes-TakenBack}
use wcn36xx.Dxe.Rx.{Rx, rx_handle_packets}
use wcn36xx.Dxe.Rx.Invariant.{IsRxRing}
use wcn36xx.Dxe.Rx.Walk.{rx_handle_packets-HandedUp}

abbrev pub int_clr : ℕ
int_clr = 0x202030

abbrev pub int_ed_clr : ℕ
int_ed_clr = 0x202034

-- Both transmit channels, and what they share.
pub record TxSide : Type 0 where
  pub low : Channel
  pub high : Channel
  pub queues_stopped : Bool
  pub calls : List Event

abbrev pub on_low : TxSide → Tx
on_low d = record { ch = d.low; queues_stopped = d.queues_stopped; calls = d.calls }

abbrev pub on_high : TxSide → Tx
on_high d = record { ch = d.high; queues_stopped = d.queues_stopped; calls = d.calls }

abbrev pub clear_tx : ℕ → TxSide → TxSide
clear_tx mask d = record d {
  calls = d.calls ++ (write_register int_clr mask ∷ write_register int_ed_clr mask ∷ []);
}

unfoldable pub reap_high : TxSide → Option TxSide
reap_high d = elim (reap_tx_dxes (on_high (clear_tx 16 d))) [
  | none ↦ none
  | some s ↦ some (record d { high = s.ch; queues_stopped = s.queues_stopped; calls = s.calls })
]

unfoldable pub reap_low : TxSide → Option TxSide
reap_low d = elim (reap_tx_dxes (on_low (clear_tx 1 d))) [
  | none ↦ none
  | some s ↦ some (record d { low = s.ch; queues_stopped = s.queues_stopped; calls = s.calls })
]

abbrev pub and_then {ℓ} : {A : Type ℓ} → Option A → (A → Option A) → Option A
and_then none f = none
and_then (some a) f = f a

abbrev pub on_bit {ℓ} : {A : Type ℓ} → ℕ → ℕ → (A → Option A) → A → Option A
on_bit k int_src f d = if bit_at k int_src == 1 then f d else some d

-- `int_src` is what the register of raw interrupts gives; the high channel comes first.
unfoldable pub irq_tx_complete : ℕ → TxSide → Option TxSide
unfolding reap_high reap_low
irq_tx_complete int_src d = and_then (on_bit 4 int_src reap_high d) (on_bit 0 int_src reap_low)

pub record RxSide : Type 0 where
  pub low : Channel
  pub high : Channel
  pub skbs : List (Option Skb)
  pub calls : List Event

unfoldable pub rx_low : RxSide → Option RxSide
rx_low d =
    let s : Rx = record {
      ch = d.low;
      skbs = d.skbs;
      calls = d.calls ++ (write_register int_clr 2 ∷ []);
    } in
    elim (rx_handle_packets s) [
      | none ↦ none
      | some s' ↦ some (record d { low = s'.ch; skbs = s'.skbs; calls = s'.calls })
    ]

unfoldable pub rx_high : RxSide → Option RxSide
rx_high d =
    let s : Rx = record {
      ch = d.high;
      skbs = d.skbs;
      calls = d.calls ++ (write_register int_clr 8 ∷ []);
    } in
    elim (rx_handle_packets s) [
      | none ↦ none
      | some s' ↦ some (record d { high = s'.ch; skbs = s'.skbs; calls = s'.calls })
    ]

-- Here the low channel comes first.
unfoldable pub rx_frame : ℕ → RxSide → Option RxSide
unfolding rx_low rx_high
rx_frame int_src d = and_then (on_bit 1 int_src rx_low d) (on_bit 3 int_src rx_high)

-- Well-formed channels of a direction.
pub record AreRings (d : TxSide) : Type 0 where
  pub low_used : ℕ
  pub high_used : ℕ
  pub low_ring : IsRing d.low low_used
  pub high_ring : IsRing d.high high_used

pub record AreRxRings (d : RxSide) : Type 0 where
  pub low_waiting : ℕ
  pub high_waiting : ℕ
  pub low_ring : IsRxRing d.low low_waiting
  pub high_ring : IsRxRing d.high high_waiting
