-- ===== src/Dxe/Tests.antt =====
-- Runs of the transmit ring at concrete inputs.
use wcn36xx.Common.{
  ℕ, zero, suc, ◌+◌, ◌*◌, ◌%◌, ◌<◌, ◌≡◌, refl, true, false, ◌==◌, none, some, [], ◌∷◌, replicate,
  ok, err, ebusy, arith,
}
use wcn36xx.Dxe.State.{Skb, Block, Channel, tx_l, no_block}
use wcn36xx.Dxe.Tx.{Tx, size, notify, tx_frame, reap_tx_dxes}
use wcn36xx.Dxe.Init.{Pool, first_desc}
use wcn36xx.Dxe.Init.Ring.{set_up, set_up-IsRing}
use wcn36xx.Dxe.Tx.Write.{after_tx, bd_at, skb_at}
use wcn36xx.Dxe.Tx.Invariant.{IsRing, valid_at}
use wcn36xx.Dxe.Tx.Fifo.{tx_frame_lem}
use wcn36xx.Dxe.Tx.Reap.{TakenBack, reap_tx_dxes-TakenBack}
use wcn36xx.Dxe.Tx.Run.{Run, Kept, taken, dma, idle, more, dma_done, Run-Kept}

abbrev with_bd_at : ℕ → Block
with_bd_at a = record no_block { bd_cpu_addr = some a; bd_phy_addr = a }

-- The low-priority channel with four blocks instead of 128.
abbrev pub small_ring : Channel
small_ring = record {
  ch_type = tx_l;
  blocks = with_bd_at 4096 ∷ no_block ∷ with_bd_at 4232 ∷ no_block ∷ [];
  head = 0;
  tail = 0;
  dxe_wq = 0x17;
  ctrl_bd = 0x308a45;
  ctrl_skb = 0x328a4d;
  reg_ctrl = 0x202400;
  def_ctrl = 0x843e8b4d;
}

small_ring-bds : (i : ℕ) → i < 4 → bd_at small_ring i ≡ (i % 2 == 0)
small_ring-bds zero lt = refl
small_ring-bds (suc zero) lt = refl
small_ring-bds (suc (suc zero)) lt = refl
small_ring-bds (suc (suc (suc zero))) lt = refl
small_ring-bds (suc (suc (suc (suc i)))) lt = absurd (omega arith)

small_ring-empty : (i : ℕ) → i < 4 → (skb_at small_ring i ≡ none) × (valid_at small_ring i ≡ false)
small_ring-empty zero lt = (refl, refl)
small_ring-empty (suc zero) lt = (refl, refl)
small_ring-empty (suc (suc zero)) lt = (refl, refl)
small_ring-empty (suc (suc (suc zero))) lt = (refl, refl)
small_ring-empty (suc (suc (suc (suc i)))) lt = absurd (omega arith)

pub small_ring-IsRing : IsRing small_ring 0
unfolding size
small_ring-IsRing = record {
  even_size = refl;
  not_small = omega arith;
  head_inside = omega arith;
  tail_inside = omega arith;
  even_head = refl;
  used_fits = omega arith;
  span = refl;
  bds = small_ring-bds;
  no_skb = λ i lt even. (small_ring-empty i lt).0;
  busy = λ i lt odd d. absurd (omega arith);
  free = λ i lt d. (small_ring-empty i lt).0;
  idle = λ i lt d. (small_ring-empty i lt).1;
}

abbrev quiet : Tx
quiet = record { ch = small_ring; queues_stopped = false; calls = [] }

abbrev frame_of : ℕ → Skb
frame_of k = record { id = k; len = 100 + k; dma = 65536 + 4096 * k; wants_status = false }

abbrev one_sent : Tx
one_sent = (tx_frame (frame_of 1) true false quiet).1

abbrev two_sent : Tx
two_sent = (tx_frame (frame_of 2) true false one_sent).1

abbrev one_done : Tx
one_done = dma_done 1 0x328a4c (dma_done 0 0x308a44 two_sent)

-- Two frames fill the ring, the first is finished and taken back.
full-Run : Run quiet (frame_of 1 ∷ frame_of 2 ∷ []) one_done
unfolding tx_frame dma_done
full-Run =
    more {fs = frame_of 1 ∷ frame_of 2 ∷ []} {gs = []}
      (more {fs = frame_of 1 ∷ frame_of 2 ∷ []} {gs = []}
        (more {fs = frame_of 1 ∷ []} {gs = frame_of 2 ∷ []}
          (more {fs = []} {gs = frame_of 1 ∷ []} idle (taken (frame_of 1) true false refl))
          (taken (frame_of 2) true false refl))
        (dma 0 0x308a44 (omega arith) refl))
      (dma 1 0x328a4c (omega arith) refl)

Run-Kept_example : Kept quiet (frame_of 1 ∷ frame_of 2 ∷ []) one_done
Run-Kept_example = Run-Kept 0 small_ring-IsRing full-Run

reap_tx_dxes-TakenBack_example : TakenBack quiet (reap_tx_dxes quiet)
reap_tx_dxes-TakenBack_example = reap_tx_dxes-TakenBack quiet 0 small_ring-IsRing

tx_frame_lem_example : tx_frame (frame_of 1) true false quiet ≡ (
  ok,
  record quiet { ch = after_tx (frame_of 1) small_ring; calls = notify true false small_ring ∷ [] },
)
unfolding size
tx_frame_lem_example = tx_frame_lem (frame_of 1) true false quiet 0 small_ring-IsRing

-- The third frame is turned away.
third : (tx_frame (frame_of 3) true false two_sent).0 ≡ err ebusy
unfolding tx_frame
third = refl

-- The channel as it was allocated.
abbrev allocated : Channel
allocated = record small_ring { blocks = replicate 4 no_block }

allocated-empty : (j : ℕ) → j < 4 → (skb_at allocated j ≡ none) × (valid_at allocated j ≡ false)
allocated-empty zero lt = (refl, refl)
allocated-empty (suc zero) lt = (refl, refl)
allocated-empty (suc (suc zero)) lt = (refl, refl)
allocated-empty (suc (suc (suc zero))) lt = (refl, refl)
allocated-empty (suc (suc (suc (suc i)))) lt = absurd (omega arith)

abbrev pool : Pool
pool = record { chunk_size = 144; virt_addr = 4096; phy_addr = 8192 }

small_set_up : IsRing (set_up 65536 pool allocated) 0
unfolding size first_desc
small_set_up = set_up-IsRing 65536 pool allocated refl refl (omega arith) refl refl allocated-empty
