-- ===== src/Dxe/Rx.antt =====
-- Receiving through a channel: `wcn36xx_rx_handle_packets`, `wcn36xx_dxe_fill_skb` and the loops that
-- give the blocks their first buffers and free the last ones.
pub mod Invariant
pub mod Walk
pub mod Run
mod Tests
use wcn36xx.Common.{
  ℕ, zero, suc, Bool, true, false, Option, none, some, List, [], ◌∷◌, ◌++◌, if◌then◌else◌, Ret, ok,
  err, enomem,
}
use wcn36xx.Dxe.State.{
  Skb, Block, Channel, ChType, tx_l, tx_h, rx_l, rx_h, Event, write_register, unmap_from_device,
  deliver, kfree_skb, block_at, next, valid, update,
}
use wcn36xx.Dxe.Tx.{size}

-- A receive channel. `skbs` has what the coming calls of `alloc_skb` give, each buffer with the bus
-- address that `dma_map_single` gives for it; when it is used up there is no memory.
pub record Rx : Type 0 where
  pub ch : Channel
  pub skbs : List (Option Skb)
  pub calls : List Event

abbrev pub ench_addr : ℕ
ench_addr = 0x202004

abbrev pub int_ch1_mask : ℕ
int_ch1_mask = 2

abbrev pub int_ch3_mask : ℕ
int_ch3_mask = 8

unfoldable pub with_buffer : Skb → Block → Block
with_buffer f b = record b { skb = some f; desc = record b.desc { dst_addr_l = f.dma } }

-- By what `alloc_skb` gives: without memory the block is left alone.
unfoldable pub fill_from : List (Option Skb) → ℕ → Rx → Ret × Rx
unfolding update with_buffer
fill_from [] ctl s = (err enomem, s)
fill_from (none ∷ rest) ctl s = (err enomem, record s { skbs = rest })
fill_from (some f ∷ rest) ctl s =
    (ok, record s { skbs = rest; ch = update ctl (with_buffer f (block_at s.ch ctl)) s.ch })

unfoldable pub fill_skb : ℕ → Rx → Ret × Rx
unfolding fill_from
fill_skb ctl s = fill_from s.skbs ctl s

unfoldable pub with_ctrl : ℕ → Block → Block
with_ctrl c b = record b { desc = record b.desc { ctrl = c } }

-- The `switch` on the type of the channel: the descriptor is valid again, and the engine is told.
unfoldable pub rearm : ChType → ℕ → Rx → Rx
unfolding update with_ctrl
rearm tx_l ctl s = s
rearm tx_h ctl s = s
rearm rx_l ctl s = record s {
  ch = update ctl (with_ctrl 0x12ad2f (block_at s.ch ctl)) s.ch;
  calls = s.calls ++ (write_register ench_addr int_ch1_mask ∷ []);
}
rearm rx_h ctl s = record s {
  ch = update ctl (with_ctrl 0x12d12f (block_at s.ch ctl)) s.ch;
  calls = s.calls ++ (write_register ench_addr int_ch3_mask ∷ []);
}

-- One round of the loop. The result of filling the block is dropped.
unfoldable pub rx_one : ℕ → Rx → Rx
unfolding fill_skb rearm
rx_one ctl s =
    let b = block_at s.ch ctl in
    let armed = rearm s.ch.ch_type ctl (fill_skb ctl s).1 in
    record armed {
      calls = armed.calls ++ (unmap_from_device b.desc.dst_addr_l ∷ deliver b.skb ∷ []);
    }

-- `while` with fuel; `none` means that the fuel ran out.
unfoldable pub rx_loop : ℕ → ℕ → Rx → Option (ℕ × Rx)
unfolding rx_one size
rx_loop zero ctl s = none
rx_loop (suc fuel) ctl s =
    let rest = rx_loop fuel (next (size s.ch) ctl) (rx_one ctl s) in
    if valid (block_at s.ch ctl).desc then some (ctl, s) else rest

-- One test more than the ring has blocks.
unfoldable pub rx_handle_packets : Rx → Option Rx
unfolding rx_loop size
rx_handle_packets s = elim (rx_loop (suc (size s.ch)) s.ch.head s) [
  | none ↦ none
  | some (ctl, s') ↦ some (record s' { ch = record s'.ch { head = ctl } })
]

-- `k` rounds of `wcn36xx_dxe_ch_alloc_skb`.
unfoldable pub alloc_loop : ℕ → ℕ → Rx → Rx
unfolding fill_skb size
alloc_loop zero cur s = s
alloc_loop (suc k) cur s = alloc_loop k (next (size s.ch) cur) (fill_skb cur s).1

unfoldable pub ch_alloc_skb : Rx → Ret × Rx
unfolding alloc_loop size
ch_alloc_skb s = (ok, alloc_loop (size s.ch) s.ch.head s)

-- `k` rounds of `wcn36xx_dxe_ch_free_skbs`. `kfree_skb` does nothing with a null pointer.
unfoldable pub free_loop : ℕ → ℕ → Rx → Rx
unfolding size
free_loop zero cur s = s
free_loop (suc k) cur s =
    free_loop k (next (size s.ch) cur)
      (record s { calls = s.calls ++ (kfree_skb (block_at s.ch cur).skb ∷ []) })

unfoldable pub ch_free_skbs : Rx → Rx
unfolding free_loop size
ch_free_skbs s = free_loop (size s.ch) s.ch.head s
