-- ===== src/Dxe/Init.antt =====
-- Setting up a transmit channel: `wcn36xx_dxe_init_descs` and `wcn36xx_dxe_init_tx_bd`.
pub mod Bds
pub mod Descs
pub mod Ring
use wcn36xx.Common.{
  ℕ, zero, suc, ◌+◌, ◌-◌, ◌*◌, ◌%◌, Option, none, some, ltb, ◌==◌, if◌then◌else◌, Ret, ok, err,
  enomem,
}
use wcn36xx.Dxe.State.{
  Desc, Block, Channel, ChType, tx_l, tx_h, rx_l, rx_h, no_desc, block_at, next, update,
}
use wcn36xx.Dxe.Tx.{size}

-- `sizeof(struct wcn36xx_dxe_desc)`
abbrev pub desc_size : ℕ
desc_size = 32

-- The `switch` on the type of the channel; the descriptor was zero.
unfoldable pub first_desc : ChType → Desc
first_desc tx_l = record no_desc { ctrl = 0x328a44; dst_addr_l = 0x17 }
first_desc tx_h = record no_desc { ctrl = 0x32ce44; dst_addr_l = 0x17 }
first_desc rx_l = record no_desc { ctrl = 0x12ad2f; src_addr_l = 0xB }
first_desc rx_h = record no_desc { ctrl = 0x12d12f; src_addr_l = 0x4 }

unfoldable pub link_to : ℕ → Block → Block
link_to addr b = record b { desc = record b.desc { phy_next_l = addr } }

-- Block `i` is given its descriptor.
unfoldable pub place_desc : ℕ → ℕ → ℕ → Channel → Channel
unfolding update first_desc
place_desc dma_addr i cur ch =
    update cur
      (record (block_at ch cur) {
        desc = first_desc ch.ch_type;
        desc_phy_addr = dma_addr + i * desc_size;
      })
      ch

-- The descriptor before it is linked to it, and the last one also to the first.
unfoldable pub link_desc : ℕ → ℕ → ℕ → Channel → Channel
unfolding update link_to size
link_desc i cur prev ch =
    let to_cur = update prev (link_to (block_at ch cur).desc_phy_addr (block_at ch prev)) ch in
    if i == 0
    then update cur (link_to 0 (block_at ch cur)) ch
    else if ltb i (size ch - 1)
    then to_cur
    else if i == size ch - 1
    then update cur (link_to (block_at to_cur ch.head).desc_phy_addr (block_at to_cur cur)) to_cur
    else ch

-- `k` rounds from the `i`-th.
unfoldable pub descs_loop : ℕ → ℕ → ℕ → ℕ → ℕ → Channel → Channel
unfolding place_desc link_desc size
descs_loop dma_addr zero i cur prev ch = ch
descs_loop dma_addr (suc k) i cur prev ch =
    descs_loop dma_addr k (suc i) (next (size ch) cur) cur
      (link_desc i cur prev (place_desc dma_addr i cur ch))

-- `none` is a `dma_alloc_coherent` that fails.
unfoldable pub init_descs : Option ℕ → Channel → Ret × Channel
unfolding descs_loop size
init_descs none ch = (err enomem, ch)
init_descs (some dma_addr) ch = (ok, descs_loop dma_addr (size ch) 0 ch.head ch.head ch)

-- `struct wcn36xx_dxe_mem_pool`
pub record Pool : Type 0 where
  pub chunk_size : ℕ
  pub virt_addr : ℕ
  pub phy_addr : ℕ

unfoldable pub with_pool_bd : ℕ → ℕ → ℕ → Block → Block
with_pool_bd i phy cpu b =
    if i % 2 == 0
    then record b { bd_phy_addr = phy; bd_cpu_addr = some cpu }
    else record b { bd_phy_addr = 0; bd_cpu_addr = none }

-- `k` rounds from the `i`-th; every second one uses up a chunk of the pool.
unfoldable pub tx_bd_loop : ℕ → ℕ → ℕ → ℕ → ℕ → ℕ → Channel → Channel
unfolding update with_pool_bd size
tx_bd_loop chunk zero i cur phy cpu ch = ch
tx_bd_loop chunk (suc k) i cur phy cpu ch =
    let used = if i % 2 == 0 then chunk else 0 in
    tx_bd_loop chunk k (suc i) (next (size ch) cur) (phy + used) (cpu + used)
      (update cur (with_pool_bd i phy cpu (block_at ch cur)) ch)

unfoldable pub init_tx_bd : Pool → Channel → Channel
unfolding tx_bd_loop size
init_tx_bd pool ch = tx_bd_loop pool.chunk_size (size ch) 0 ch.head pool.phy_addr pool.virt_addr ch
