-- ===== src/Dxe/Rx/Tests.antt =====
-- The receive ring at concrete inputs.
use wcn36xx.Common.{true, ℕ, zero, suc, ◌<◌, ◌≡◌, refl, false, not, ltb, none, some, [], ◌∷◌, arith}
use wcn36xx.Dxe.State.{
  Skb, Block, Channel, rx_l, no_block, no_desc, block_at, update, deliver, write_register,
  unmap_from_device,
}
use wcn36xx.Dxe.Cyclic.{dist}
use wcn36xx.Dxe.Tx.{size}
use wcn36xx.Dxe.Tx.Invariant.{valid_at}
use wcn36xx.Dxe.Rx.{Rx, rx_handle_packets, with_ctrl}
use wcn36xx.Dxe.Rx.Invariant.{Mapped, IsRxRing}
use wcn36xx.Dxe.Rx.Walk.{HandedUp, rx_handle_packets-HandedUp}
use wcn36xx.Dxe.Irq.{TxSide, RxSide, AreRxRings, irq_tx_complete, rx_frame}
use wcn36xx.Dxe.Irq.Handled.{TxHandled, RxHandled, irq_tx_complete-rx_frame}
use wcn36xx.Dxe.Tests.{small_ring, small_ring-IsRing}
use wcn36xx.Dxe.Rx.Run.{
  Receiver, Run, idle, more, arrives, InStep, Kept, history, engine_done, Run-InStep,
}

abbrev buffer : ℕ → Skb
buffer n = record { id = n; len = 0; dma = n; wants_status = false }

abbrev holds : ℕ → ℕ → Block
holds n c = record no_block {
  desc = record no_desc { ctrl = c; dst_addr_l = n };
  skb = some (buffer n);
}

-- Three blocks instead of 512; the last one and the first one hold frames.
abbrev ring : Channel
ring = record {
  ch_type = rx_l;
  blocks = holds 11 0x12ad2e ∷ holds 12 0x12ad2f ∷ holds 13 0x12ad2e ∷ [];
  head = 2;
  tail = 0;
  dxe_wq = 0;
  ctrl_bd = 0;
  ctrl_skb = 0;
  reg_ctrl = 0;
  def_ctrl = 0;
}

-- Memory for the first buffer only.
abbrev receiver : Rx
receiver = record { ch = ring; skbs = some (buffer 21) ∷ none ∷ []; calls = [] }

ring_blocks :
    (i : ℕ) → i < 3 → Mapped (block_at ring i) × (valid_at ring i ≡ not (ltb (dist 3 2 i) 2))
ring_blocks zero lt = ((buffer 11, refl, refl), refl)
ring_blocks (suc zero) lt = ((buffer 12, refl, refl), refl)
ring_blocks (suc (suc zero)) lt = ((buffer 13, refl, refl), refl)
ring_blocks (suc (suc (suc i))) lt = absurd (omega arith)

ring-IsRxRing : IsRxRing ring 2
unfolding size
ring-IsRxRing = record {
  kind = refl;
  head_inside = omega arith;
  waiting_fits = omega arith;
  mapped = λ i lt. (ring_blocks i lt).0;
  filled = λ i lt. (ring_blocks i lt).1;
}

-- The last frame is handed up and its block filled again; the first one is handed up and stays.
abbrev served : Rx
served = record {
  ch = record ring {
    blocks = holds 11 0x12ad2f ∷ holds 12 0x12ad2f ∷ holds 21 0x12ad2f ∷ [];
    head = 1;
  };
  skbs = [];
  calls =
      write_register 0x202004 2
      ∷ unmap_from_device 13
      ∷ deliver (some (buffer 13))
      ∷ write_register 0x202004 2
      ∷ unmap_from_device 11
      ∷ deliver (some (buffer 11))
      ∷ [];
}

handles : rx_handle_packets receiver ≡ some served
unfolding rx_handle_packets
handles = refl

rx_handle_packets-HandedUp_example : HandedUp 2 receiver (rx_handle_packets receiver)
rx_handle_packets-HandedUp_example = rx_handle_packets-HandedUp receiver 2 ring-IsRxRing

abbrev start : Receiver
start = record { rx = receiver; engine = 1 }

start-InStep : InStep 2 start
unfolding size
start-InStep = record { ring = ring-IsRxRing; place = refl }

-- A third frame comes in, and then the interrupt.
abbrev all_waiting : Receiver
all_waiting = record {
  rx = record receiver {
    ch = record ring { blocks = holds 11 0x12ad2e ∷ holds 12 0x12ad2e ∷ holds 13 0x12ad2e ∷ [] };
  };
  engine = 2;
}

three_wait : engine_done 0x12ad2e start ≡ all_waiting
unfolding engine_done size update with_ctrl
three_wait = refl

start-Run : Run start (buffer 12 ∷ []) (engine_done 0x12ad2e start)
start-Run = more idle (arrives 0x12ad2e refl refl)

Run-InStep_example : Kept (history 2 start) (buffer 12 ∷ []) (engine_done 0x12ad2e start)
Run-InStep_example = Run-InStep 2 start-InStep start-Run

abbrev tx_side : TxSide
tx_side = record { low = small_ring; high = small_ring; queues_stopped = false; calls = [] }

abbrev rx_side : RxSide
rx_side = record { low = ring; high = ring; skbs = receiver.skbs; calls = [] }

abbrev both_wait : AreRxRings rx_side
both_wait = record {
  low_waiting = 2;
  high_waiting = 2;
  low_ring = ring-IsRxRing;
  high_ring = ring-IsRxRing;
}

-- The low receive channel alone is pending.
low_only :
    rx_frame 2 rx_side
    ≡ some (record rx_side {
      low = served.ch;
      skbs = [];
      calls = write_register 0x202030 2 ∷ served.calls;
    })
unfolding rx_frame rx_handle_packets
low_only = refl

-- All four interrupts are pending.
irq_tx_complete-rx_frame_example :
    TxHandled true true tx_side (irq_tx_complete 27 tx_side)
    × RxHandled 2 2 true true rx_side (rx_frame 27 rx_side)
irq_tx_complete-rx_frame_example =
    irq_tx_complete-rx_frame 27 tx_side rx_side
      (record {
        low_used = 0;
        high_used = 0;
        low_ring = small_ring-IsRing;
        high_ring = small_ring-IsRing;
      })
      both_wait
