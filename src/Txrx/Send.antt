-- ===== src/Txrx/Send.antt =====
-- `wcn36xx_start_tx` of txrx.c, `wcn36xx_tx` of main.c, and `wcn36xx_dxe_tx_ack_ind` of dxe.c.
pub mod Pending
mod Tests
use wcn36xx.Common.{
  ℕ, Bool, true, false, not, Option, none, some, List, [], ◌∷◌, ◌++◌, ◌==◌, zeros, failed,
  if◌then◌else◌, Ret, ok, err, einval,
}
use wcn36xx.Dxe.State.{Skb, Event, stop_queues, block_at, is_some}
use wcn36xx.Dxe.Tx.{Tx, tx_frame}
use wcn36xx.Txrx.Bd.{TxBd, no_bd, tx_bd_buffer}
use wcn36xx.Txrx.Fill.{
  FrameType, data_frame, mgmt_frame, ctl_frame, ext_frame, Frame, TxSta, Sender, Filled,
  get_vif_by_addr, set_tx_data, set_tx_mgmt,
}

abbrev pub is_data : FrameType → Bool
is_data data_frame = true
is_data mgmt_frame = false
is_data ctl_frame = false
is_data ext_frame = false

unfoldable pub channel_of : Bool → Sender → Tx
channel_of is_low s = if is_low then s.low else s.high

abbrev pub with_channel : Bool → Tx → Sender → Sender
with_channel is_low t s = if is_low then record s { low = t } else record s { high = t }

-- The BD is written, and the frame is put on its ring.
unfoldable pub send_filled : Frame → Sender → Option Filled → Option (Ret × Sender × Option TxSta)
unfolding channel_of tx_bd_buffer tx_frame
send_filled f s none = none
send_filled f s (some x) =
    let is_low = is_data f.frame_type in
    let (ret, t) = tx_frame f.skb is_low x.through.bmps (channel_of is_low s) in
    some (ret, record (with_channel is_low t s) { bd = tx_bd_buffer x.filled }, x.sta)

-- The BD's first fields; 25 is WCN36XX_BMU_WQ_TX.
abbrev pub first_bd : Frame → TxBd
first_bd f = record no_bd { dpu_rf = 25; tx_comp = if f.skb.wants_status then 1 else 0 }

unfoldable pub fill_and_send : Frame → Option TxSta → Sender → Option (Ret × Sender × Option TxSta)
unfolding set_tx_data set_tx_mgmt send_filled get_vif_by_addr
fill_and_send f sta s =
    let bd = first_bd f in
    send_filled f s (
      if is_data f.frame_type
      then set_tx_data s f sta bd
      else set_tx_mgmt s f sta bd (get_vif_by_addr s.vifs f.addr2))

-- The frame is remembered for its status, and the queues are stopped until it comes.
unfoldable pub await_status : Frame → Sender → Sender
unfolding channel_of
await_status f s =
    let is_low = is_data f.frame_type in
    let t = channel_of is_low s in
    record (with_channel is_low (record t { calls = t.calls ++ (stop_queues ∷ []) }) s) {
      tx_ack_skb = some f.skb;
    }

unfoldable pub start_tx : Frame → Option TxSta → Sender → Option (Ret × Sender × Option TxSta)
unfolding channel_of fill_and_send await_status tx_bd_buffer
start_tx f sta s =
    let ch = (channel_of (is_data f.frame_type) s).ch in
    let cleared : Sender = record s { bd = zeros 10 } in
    if not (is_some (block_at ch ch.head).bd_cpu_addr)
    then some (err einval, s, sta)
    else if not f.skb.wants_status
    then fill_and_send f sta s
    else if is_some s.tx_ack_skb
    then some (err einval, cleared, sta)
    else fill_and_send f sta (await_status f s)

-- `wcn36xx_tx`: a frame that is not taken is freed.
unfoldable pub free_refused :
    Frame → Option (Ret × Sender × Option TxSta) → Option (Sender × Option TxSta)
free_refused f none = none
free_refused f (some (ret, s, sta)) =
    some (if failed ret then record s { freed = f.skb ∷ s.freed } else s, sta)

unfoldable pub tx : Frame → Option TxSta → Sender → Option (Sender × Option TxSta)
unfolding start_tx free_refused
tx f sta s = free_refused f (start_tx f sta s)

-- `wcn36xx_dxe_tx_ack_ind`: the frame that is handed up with its status, whether it was
-- acknowledged, and that the queues are woken; or nothing, when none is waited for.
unfoldable pub tx_ack_ind : ℕ → Sender → Option (Skb × Bool) × Sender
tx_ack_ind status s = elim s.tx_ack_skb [
  | none ↦ (none, s)
  | some skb ↦ (some (skb, status == 1), record s { tx_ack_skb = none })
]
