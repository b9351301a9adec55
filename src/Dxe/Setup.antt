-- ===== src/Dxe/Setup.antt =====
-- Starting and stopping the DMA engine: `wcn36xx_dxe_init`, `wcn36xx_dxe_request_irqs`,
-- `wcn36xx_dxe_enable_ch_int` and `wcn36xx_dxe_deinit` of dxe.c, with the registers of dxe.h.
pub mod Placed
pub mod Buffers
pub mod Fresh
pub mod Writes
pub mod Ready
mod Tests
use wcn36xx.Common.{
  ℕ, ◌+◌, Bool, if◌then◌else◌, bit_or, Option, none, some, List, [], ◌∷◌, ◌++◌, Ret, ok, err, Errno,
}
use mathlib.Core.List.{map}
use wcn36xx.Dxe.State.{Skb, Block, Channel, Event, write_register, block_at, is_some}
use wcn36xx.Dxe.Init.{Pool, init_descs, init_tx_bd}
use wcn36xx.Dxe.Rx.{Rx, ch_alloc_skb, ch_free_skbs}

-- WCN36XX_DXE_MEM_REG
abbrev pub mem_reg : ℕ
mem_reg = 0x202000

abbrev pub reg_csr_reset : ℕ
reg_csr_reset = mem_reg + 0x00

abbrev pub int_mask_reg : ℕ
int_mask_reg = mem_reg + 0x18

abbrev pub reg_reset : ℕ
reg_reset = 0x5c89

abbrev pub ccu_int : ℕ
ccu_int = 0xA0011

-- WCN36XX_DXE_REG_CCU_INT_3680 and WCN36XX_DXE_REG_CCU_INT_3660, as the macro
-- `wcn36xx_dxe_write_register_x` chooses.
abbrev pub reg_ccu_int : Bool → ℕ
reg_ccu_int is_3680 = if is_3680 then 0x2050dc else 0x200b10

-- WCN36XX_DXE_CH_NEXT_DESC_ADDR of a channel by its offset.
abbrev pub next_desc_addr : ℕ → ℕ
next_desc_addr offset = mem_reg + offset + 0x1C

abbrev pub src_addr : ℕ → ℕ
src_addr offset = mem_reg + offset + 0xC

abbrev pub dest_addr : ℕ → ℕ
dest_addr offset = mem_reg + offset + 0x14

abbrev pub reg_ctl : ℕ → ℕ
reg_ctl offset = mem_reg + offset

abbrev pub tx_low_offset : ℕ
tx_low_offset = 0x400

abbrev pub tx_high_offset : ℕ
tx_high_offset = 0x500

abbrev pub rx_low_offset : ℕ
rx_low_offset = 0x440

abbrev pub rx_high_offset : ℕ
rx_high_offset = 0x4C0

abbrev pub wq_tx : ℕ
wq_tx = 0x17

abbrev pub wq_rx_l : ℕ
wq_rx_l = 0xB

abbrev pub wq_rx_h : ℕ
wq_rx_h = 0x4

abbrev pub default_ctl_rx_l : ℕ
default_ctl_rx_l = 0x847EAD2F

abbrev pub default_ctl_rx_h : ℕ
default_ctl_rx_h = 0x84FED12F

abbrev pub mask_tx_l : ℕ
mask_tx_l = 1

abbrev pub mask_rx_l : ℕ
mask_rx_l = 2

abbrev pub mask_rx_h : ℕ
mask_rx_h = 8

abbrev pub mask_tx_h : ℕ
mask_tx_h = 16

pub data Irq : Type 0 where
  tx_irq rx_irq : Irq

-- The calls that leave the two functions, those of the channel code among them.
pub data Call : Type 0 where
  channel : Event → Call
  request_irq : Irq → Call
  enable_irq_wake : Irq → Call
  free_irq : Irq → Call
  tx_status : Skb → Call

-- The part of `struct wcn36xx` behind the engine. `is_3680` is `chip_version`; `coherent`, `skbs`,
-- `reads` and `irqs` have what the coming calls of `dma_alloc_coherent`, `alloc_skb`, `readl` and
-- `request_irq` give: without an entry there is no memory, `readl` gives 0, and the line is granted.
pub record Engine : Type 0 where
  pub tx_l : Channel
  pub tx_h : Channel
  pub rx_l : Channel
  pub rx_h : Channel
  pub data_pool : Pool
  pub mgmt_pool : Pool
  pub is_3680 : Bool
  pub tx_ack_skb : Option Skb
  pub coherent : List (Option ℕ)
  pub skbs : List (Option Skb)
  pub reads : List ℕ
  pub irqs : List (Option Errno)
  pub calls : List Call

abbrev pub first_of {ℓ} : {A : Type ℓ} → List (Option A) → Option A
first_of [] = none
first_of (o ∷ os) = o

abbrev pub others {ℓ} : {A : Type ℓ} → List A → List A
others [] = []
others (o ∷ os) = os

abbrev pub first_read : List ℕ → ℕ
first_read [] = 0
first_read (v ∷ vs) = v

abbrev pub log : List Call → Engine → Engine
log cs e = record e { calls = e.calls ++ cs }

abbrev pub write : ℕ → ℕ → Call
write addr value = channel (write_register addr value)

-- `wcn36xx_dxe_read_register`, of which the value is not used.
unfoldable pub drop_read : Engine → Engine
drop_read e = record e { reads = others e.reads }

unfoldable pub enable_ch_int : ℕ → Engine → Engine
unfolding drop_read
enable_ch_int wcn_ch e =
    drop_read (log (write int_mask_reg (bit_or (first_read e.reads) wcn_ch) ∷ []) e)

abbrev pub head_block : Channel → Block
head_block ch = block_at ch ch.head

-- `Init descriptors for TX LOW channel`
unfoldable pub init_tx_l : Engine → Engine
unfolding init_descs init_tx_bd drop_read enable_ch_int
init_tx_l e =
    let ch = init_tx_bd e.data_pool (init_descs (first_of e.coherent) e.tx_l).1 in
    enable_ch_int mask_tx_l (
      drop_read (
        log
          (write (next_desc_addr tx_low_offset) (head_block ch).desc_phy_addr
            ∷ write (dest_addr tx_low_offset) wq_tx
            ∷ [])
          (record e { tx_l = ch; coherent = others e.coherent })))

-- `Init descriptors for TX HIGH channel`
unfoldable pub init_tx_h : Engine → Engine
unfolding init_descs init_tx_bd drop_read enable_ch_int
init_tx_h e =
    let ch = init_tx_bd e.mgmt_pool (init_descs (first_of e.coherent) e.tx_h).1 in
    enable_ch_int mask_tx_h (
      drop_read (
        log
          (write (next_desc_addr tx_high_offset) (head_block ch).desc_phy_addr
            ∷ write (dest_addr tx_high_offset) wq_tx
            ∷ [])
          (record e { tx_h = ch; coherent = others e.coherent })))

-- A receive channel with its descriptors and its first buffers, and the `alloc_skb` calls left.
unfoldable pub with_buffers : Option ℕ → List (Option Skb) → Channel → Rx
unfolding init_descs ch_alloc_skb
with_buffers coherent skbs ch =
    (ch_alloc_skb (record { ch = (init_descs coherent ch).1; skbs = skbs; calls = [] })).1

-- The writes that a receive channel is started by.
abbrev pub rx_writes : ℕ → ℕ → ℕ → Channel → List Call
rx_writes offset wq default_ctl ch =
    write (next_desc_addr offset) (head_block ch).desc_phy_addr
    ∷ write (src_addr offset) wq
    ∷ write (dest_addr offset) (head_block ch).desc.phy_next_l
    ∷ write (reg_ctl offset) default_ctl
    ∷ []

-- `Init descriptors for RX LOW channel`. Without descriptors `desc` of the blocks is a null pointer,
-- and it is followed: `none`.
unfoldable pub init_rx_l : Engine → Option Engine
unfolding with_buffers enable_ch_int
init_rx_l e =
    let s = with_buffers (first_of e.coherent) e.skbs e.rx_l in
    if is_some (first_of e.coherent)
    then some (
        enable_ch_int mask_rx_l (
          log (rx_writes rx_low_offset wq_rx_l default_ctl_rx_l s.ch)
            (record e { rx_l = s.ch; skbs = s.skbs; coherent = others e.coherent })))
    else none

-- `Init descriptors for RX HIGH channel`
unfoldable pub init_rx_h : Engine → Option Engine
unfolding with_buffers enable_ch_int
init_rx_h e =
    let s = with_buffers (first_of e.coherent) e.skbs e.rx_h in
    if is_some (first_of e.coherent)
    then some (
        enable_ch_int mask_rx_h (
          log (rx_writes rx_high_offset wq_rx_h default_ctl_rx_h s.ch)
            (record e { rx_h = s.ch; skbs = s.skbs; coherent = others e.coherent })))
    else none

unfoldable pub request_rx_irq : Option Errno → Engine → Ret × Engine
request_rx_irq (some why) e = (err why, log (request_irq rx_irq ∷ free_irq tx_irq ∷ []) e)
request_rx_irq none e = (ok, log (request_irq rx_irq ∷ enable_irq_wake rx_irq ∷ []) e)

unfoldable pub request_tx_irq : Option Errno → Engine → Ret × Engine
unfolding request_rx_irq
request_tx_irq (some why) e = (err why, log (request_irq tx_irq ∷ []) e)
request_tx_irq none e =
    request_rx_irq (first_of e.irqs)
      (log (request_irq tx_irq ∷ []) (record e { irqs = others e.irqs }))

unfoldable pub request_irqs : Engine → Ret × Engine
unfolding request_tx_irq
request_irqs e = request_tx_irq (first_of e.irqs) (record e { irqs = others e.irqs })

unfoldable pub then_engine {ℓ} : {A : Type ℓ} → Option Engine → (Engine → Option A) → Option A
then_engine none f = none
then_engine (some e) f = f e

-- The engine is reset and its interrupt path set.
unfoldable pub reset : Engine → Engine
reset e = log (write reg_csr_reset reg_reset ∷ write (reg_ccu_int e.is_3680) ccu_int ∷ []) e

-- Of the results only that of `request_irqs` is looked at.
unfoldable pub dxe_init : Engine → Option (Ret × Engine)
unfolding init_tx_l init_tx_h init_rx_l init_rx_h request_irqs then_engine reset
dxe_init e =
    then_engine (init_rx_l (init_tx_h (init_tx_l (reset e))))
      λ r. then_engine (init_rx_h r) λ r'. some (request_irqs r')

-- The status of a frame that still waits for it.
unfoldable pub flush_ack : Option Skb → Engine → Engine
flush_ack none e = e
flush_ack (some f) e = log (tx_status f ∷ []) (record e { tx_ack_skb = none })

unfoldable pub free_skbs : Channel → Engine → Engine
unfolding ch_free_skbs
free_skbs ch e =
    log (map channel (ch_free_skbs (record { ch = ch; skbs = []; calls = [] })).calls) e

unfoldable pub dxe_deinit : Engine → Engine
unfolding flush_ack free_skbs
dxe_deinit e =
    let quiet = log (free_irq tx_irq ∷ free_irq rx_irq ∷ []) e in
    free_skbs e.rx_h (free_skbs e.rx_l (flush_ack e.tx_ack_skb quiet))
