-- ===== src/Dxe/State.antt =====
-- The structs of dxe.h, and what the channel code does outside the driver.
use wcn36xx.Common.{
  ℕ, suc, ◌%◌, Bool, true, false, Option, none, some, List, get_or, set, ◌==◌, if◌then◌else◌,
}

-- What the channel code reads of a `struct sk_buff`: a number that tells frames apart, `len`, the bus
-- address that `dma_map_single` gives for its data, and IEEE80211_TX_CTL_REQ_TX_STATUS of its flags.
pub record Skb : Type 0 where
  pub id : ℕ
  pub len : ℕ
  pub dma : ℕ
  pub wants_status : Bool

-- `struct wcn36xx_dxe_desc`, less the high words, which the driver leaves 0
pub record Desc : Type 0 where
  pub ctrl : ℕ
  pub fr_len : ℕ
  pub src_addr_l : ℕ
  pub dst_addr_l : ℕ
  pub phy_next_l : ℕ

-- `struct wcn36xx_dxe_ctl` with its descriptor
pub record Block : Type 0 where
  pub desc : Desc
  pub desc_phy_addr : ℕ
  pub skb : Option Skb
  pub bd_cpu_addr : Option ℕ
  pub bd_phy_addr : ℕ

pub data ChType : Type 0 where
  tx_l tx_h rx_l rx_h : ChType

-- `struct wcn36xx_dxe_ch`: the ring is the list of its blocks in the order of `ctl_blk_order`, the
-- pointers to its head and tail are places in the list, and `next` of the last block is the first.
pub record Channel : Type 0 where
  pub ch_type : ChType
  pub blocks : List Block
  pub head : ℕ
  pub tail : ℕ
  pub dxe_wq : ℕ
  pub ctrl_bd : ℕ
  pub ctrl_skb : ℕ
  pub reg_ctrl : ℕ
  pub def_ctrl : ℕ

-- The calls that leave the channel code.
pub data Event : Type 0 where
  stop_queues wake_queues : Event
  unmap : ℕ → Skb → Event
  free_txskb : Skb → Event
  smsm_change_state : ℕ → ℕ → Event
  write_register : ℕ → ℕ → Event
  -- `dma_unmap_single` of a receive buffer by its bus address, and `wcn36xx_rx_skb`
  unmap_from_device : ℕ → Event
  deliver : Option Skb → Event
  kfree_skb : Option Skb → Event

abbrev pub no_desc : Desc
no_desc = record { ctrl = 0; fr_len = 0; src_addr_l = 0; dst_addr_l = 0; phy_next_l = 0 }

abbrev pub no_block : Block
no_block = record {
  desc = no_desc;
  desc_phy_addr = 0;
  skb = none;
  bd_cpu_addr = none;
  bd_phy_addr = 0;
}

abbrev pub block_at : Channel → ℕ → Block
block_at ch i = get_or ch.blocks i no_block

-- `ctl->next`
abbrev pub next : ℕ → ℕ → ℕ
next n i = if suc i == n then 0 else suc i

-- WCN36XX_DXE_CTRL_VALID_MASK is the lowest bit.
abbrev pub valid : Desc → Bool
valid d = d.ctrl % 2 == 1

abbrev pub is_some {ℓ} : {A : Type ℓ} → Option A → Bool
is_some none = false
is_some (some a) = true

unfoldable pub update : ℕ → Block → Channel → Channel
update i b ch = record ch { blocks = set ch.blocks i b }
