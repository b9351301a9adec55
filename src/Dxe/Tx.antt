-- ===== src/Dxe/Tx.antt =====
-- Sending through a channel and taking back what was sent: `wcn36xx_dxe_tx_frame` and
-- `reap_tx_dxes`.
pub mod Write
pub mod Invariant
pub mod Fifo
pub mod Release
pub mod Reap
pub mod Run
use wcn36xx.Common.{
  ℕ, zero, suc, ◌%◌, Bool, true, false, ◌&&◌, Option, none, some, List, [], ◌∷◌, ◌++◌, length, ◌==◌,
  if◌then◌else◌, Ret, ok, err, ebusy, einval,
}
use wcn36xx.Dxe.State.{
  Skb, Block, Channel, Event, stop_queues, wake_queues, unmap, free_txskb, smsm_change_state,
  write_register, block_at, next, valid, is_some, update,
}

-- One transmit channel and the fields of `struct wcn36xx` that go with it. `calls` has the calls that
-- left the driver, oldest first.
pub record Tx : Type 0 where
  pub ch : Channel
  pub queues_stopped : Bool
  pub calls : List Event

-- `sizeof(struct wcn36xx_tx_bd)`
abbrev pub tx_bd_size : ℕ
tx_bd_size = 40

abbrev pub smsm_wlan_tx_enable : ℕ
smsm_wlan_tx_enable = 0x400

unfoldable pub size : Channel → ℕ
size ch = length ch.blocks

-- The descriptor of the BD.
unfoldable pub with_bd : Channel → Block → Block
with_bd ch b = record b {
  skb = none;
  desc = record b.desc {
    src_addr_l = b.bd_phy_addr;
    dst_addr_l = ch.dxe_wq;
    fr_len = tx_bd_size;
    ctrl = ch.ctrl_bd;
  };
}

unfoldable pub with_skb : Skb → Block → Block
with_skb frame b = record b { skb = some frame }

-- The descriptor of the frame, valid from here on.
unfoldable pub with_desc : Channel → Skb → Block → Block
with_desc ch frame b = record b {
  desc = record b.desc {
    src_addr_l = frame.dma;
    dst_addr_l = ch.dxe_wq;
    fr_len = frame.len;
    ctrl = ch.ctrl_skb;
  };
}

unfoldable pub put_bd : Channel → Channel
unfolding update with_bd
put_bd ch = update ch.head (with_bd ch (block_at ch ch.head)) ch

unfoldable pub put_skb : ℕ → Skb → Channel → Channel
unfolding update with_skb
put_skb i frame ch = update i (with_skb frame (block_at ch i)) ch

-- With the move of the head.
unfoldable pub put_desc : ℕ → Skb → Channel → Channel
unfolding update with_desc size
put_desc i frame ch = record (update i (with_desc ch frame (block_at ch i)) ch) {
  head = next (size ch) i;
}

-- A sleeping chip is told on the SMSM bus, an awake one by a register. `bmps` is
-- `vif_priv->pw_state == WCN36XX_BMPS`.
unfoldable pub notify : Bool → Bool → Channel → Event
notify is_low bmps ch =
    if is_low && bmps
    then smsm_change_state 0 smsm_wlan_tx_enable
    else write_register ch.reg_ctrl ch.def_ctrl

unfoldable pub tx_frame : Skb → Bool → Bool → Tx → Ret × Tx
unfolding put_bd put_skb put_desc notify size
tx_frame frame is_low bmps s =
    let ch = s.ch in
    let ctl = next (size ch) ch.head in
    let started = put_skb ctl frame (put_bd ch) in
    if is_some (block_at ch ctl).skb
    then (err ebusy, record s { queues_stopped = true; calls = s.calls ++ (stop_queues ∷ []) })
    else if is_some (block_at started ctl).bd_cpu_addr
    then (err einval, record s { ch = started })
    else (
      ok,
      record s {
        ch = put_desc ctl frame started;
        calls = s.calls ++ (notify is_low bmps started ∷ []);
      },
    )

-- A frame whose status was asked for is kept until the status comes.
abbrev pub free_calls : Skb → List Event
free_calls frame = if frame.wants_status then [] else free_txskb frame ∷ []

abbrev pub wake_calls : Bool → List Event
wake_calls queues_stopped = if queues_stopped then wake_queues ∷ [] else []

-- The body of the loop for one block.
unfoldable pub release_skb : ℕ → Option Skb → Tx → Tx
unfolding update
release_skb i none s = s
release_skb i (some frame) s =
    let b = block_at s.ch i in
    record s {
      ch = update i (record b { skb = none }) s.ch;
      queues_stopped = false;
      calls =
          s.calls
          ++ (unmap b.desc.src_addr_l frame ∷ [])
          ++ free_calls frame
          ++ wake_calls s.queues_stopped;
    }

unfoldable pub release : ℕ → Tx → Tx
unfolding release_skb
release i s = release_skb i (block_at s.ch i).skb s

-- `do … while` with fuel; `none` means that the fuel ran out.
unfoldable pub reap_loop : ℕ → ℕ → Tx → Option (ℕ × Tx)
unfolding release size
reap_loop zero ctl s = none
reap_loop (suc fuel) ctl s =
    let s' = release ctl s in
    let ctl' = next (size s.ch) ctl in
    let rest = reap_loop fuel ctl' s' in
    if valid (block_at s.ch ctl).desc
    then some (ctl, s)
    else if ctl' == s.ch.head
    then some (ctl', s')
    else if valid (block_at s'.ch ctl').desc
    then some (ctl', s')
    else rest

-- The ring has `desc_num` blocks, and the walk visits no block twice.
unfoldable pub reap_tx_dxes : Tx → Option Tx
unfolding reap_loop size
reap_tx_dxes s = elim (reap_loop (size s.ch) s.ch.tail s) [
  | none ↦ none
  | some (ctl, s') ↦ some (record s' { ch = record s'.ch { tail = ctl } })
]
