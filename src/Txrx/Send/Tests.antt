-- ===== src/Txrx/Send/Tests.antt =====
-- Runs of sending.
use wcn36xx.Common.{◌≡◌, refl, true, false, none, some, [], ◌∷◌, replicate}
use wcn36xx.Mac.Rates.{band_2ghz}
use wcn36xx.Dxe.State.{Skb, tx_l, no_block}
use wcn36xx.Dxe.Tx.{Tx, size}
use wcn36xx.Smd.Bss.Sample.{vif, sta}
use wcn36xx.Txrx.Ampdu.{ampdu_none}
use wcn36xx.Txrx.Bd.{no_bd, tx_bd_buffer}
use wcn36xx.Txrx.Fill.{data_frame, Frame, TxVif, TxSta, Sender}
use wcn36xx.Txrx.Send.{tx, channel_of}
use wcn36xx.Txrx.Send.Pending.{StaleUnless, tx-stale}

abbrev frame : Skb
frame = record { id = 1; len = 100; dma = 4096; wants_status = true }

-- Two blocks, the first with a buffer for its BD, the second with a frame that is still to be sent.
abbrev full : Tx
full = record {
  ch = record {
    ch_type = tx_l;
    blocks =
        record no_block { bd_cpu_addr = some 512 }
        ∷ record no_block { skb = some (record frame { id = 0 }) }
        ∷ [];
    head = 0;
    tail = 1;
    dxe_wq = 23;
    ctrl_bd = 1;
    ctrl_skb = 1;
    reg_ctrl = 0;
    def_ctrl = 0;
  };
  queues_stopped = false;
  calls = [];
}

abbrev tx_vif : TxVif
tx_vif = record { iface = vif; bmps = false }

abbrev tx_sta : TxSta
tx_sta = record {
  peer = sta;
  vif = tx_vif;
  tx = record { ampdu_state = replicate 16 ampdu_none; non_agg_frame_ct = 0; sessions = [] };
}

abbrev sender : Sender
sender = record {
  low = full;
  high = full;
  tx_ack_skb = none;
  vifs = tx_vif ∷ [];
  band = band_2ghz;
  ht = false;
  bd = [];
  freed = [];
}

abbrev plain_data : Frame
plain_data = record {
  skb = frame;
  frame_type = data_frame;
  nullfunc = false;
  probe_req = false;
  multicast = false;
  addr2 = vif.addr;
  qos = record { data_qos = false; voice = false; qc = 0 };
}

-- The signature, and the word that has the length of the frame.
signed :
    tx_bd_buffer (record no_bd { mpdu_len = 258; dpu_rf = 25 })
    ≡ 25 ∷ 0 ∷ 0 ∷ 0 ∷ 513 ∷ 0 ∷ 0xbdbdbdbd ∷ 0 ∷ 0 ∷ 0 ∷ []
unfolding tx_bd_buffer
signed = refl

tx-stale_example : StaleUnless plain_data 1 sender (tx plain_data (some tx_sta) sender)
unfolding channel_of size
tx-stale_example = tx-stale plain_data (some tx_sta) sender 1 refl refl refl refl
