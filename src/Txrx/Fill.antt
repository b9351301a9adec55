-- ===== src/Txrx/Fill.antt =====
-- What `wcn36xx_start_tx` of txrx.c reads, and how it fills in the buffer descriptor. Following the
-- pointer of an interface that is not found has no result.
use wcn36xx.Common.{
  ℕ, ◌+◌, Bool, true, false, not, ◌&&◌, ◌||◌, Option, none, some, List, [], ◌∷◌, ◌==◌,
  if◌then◌else◌,
}
use wcn36xx.Mac.Rates.{Band, band_2ghz, band_5ghz}
use wcn36xx.Dxe.State.{Skb}
use wcn36xx.Dxe.Tx.{Tx, tx_bd_size}
use wcn36xx.Smd.Objects.{IfType, Iface, Peer}
use wcn36xx.Smd.Sta.Fill.{owns_bss, is_station}
use wcn36xx.Txrx.Ampdu.{StaTx, QosFrame, tx_start_ampdu}
use wcn36xx.Txrx.Bd.{TxBd}

-- The type in the frame control field.
pub data FrameType : Type 0 where
  data_frame mgmt_frame ctl_frame ext_frame : FrameType

-- What is read of a frame. `multicast` is that of `addr1`, broadcast included.
pub record Frame : Type 0 where
  pub skb : Skb
  pub frame_type : FrameType
  pub nullfunc : Bool
  pub probe_req : Bool
  pub multicast : Bool
  pub addr2 : List ℕ
  pub qos : QosFrame

-- An interface, and whether it is in power save.
pub record TxVif : Type 0 where
  pub iface : Iface
  pub bmps : Bool

-- A station with its interface and its states for sending.
pub record TxSta : Type 0 where
  pub peer : Peer
  pub vif : TxVif
  pub tx : StaTx

-- `tx_ack_skb` is the frame whose status is waited for. `bd` is what was last written to the buffer
-- of a BD.
pub record Sender : Type 0 where
  pub low : Tx
  pub high : Tx
  pub tx_ack_skb : Option Skb
  pub vifs : List TxVif
  pub band : Band
  pub ht : Bool
  pub bd : List ℕ
  pub freed : List Skb

-- `sizeof` of the headers of mac80211
abbrev pub hdr_size : Bool → ℕ
hdr_size qos = if qos then 26 else 24

unfoldable pub set_tx_pdu : ℕ → ℕ → ℕ → TxBd → TxBd
set_tx_pdu mpdu_header_len len tid bd = record bd {
  mpdu_header_len = mpdu_header_len;
  mpdu_header_off = tx_bd_size;
  mpdu_data_off = mpdu_header_len + tx_bd_size;
  mpdu_len = len;
  tid = tid;
  bd_ssn = 2;
}

abbrev pub same_addr : List ℕ → List ℕ → Bool
same_addr [] [] = true
same_addr [] (y ∷ ys) = false
same_addr (x ∷ xs) [] = false
same_addr (x ∷ xs) (y ∷ ys) = x == y && same_addr xs ys

unfoldable pub get_vif_by_addr : List TxVif → List ℕ → Option TxVif
get_vif_by_addr [] addr = none
get_vif_by_addr (v ∷ vs) addr =
    let rest = get_vif_by_addr vs addr in if same_addr v.iface.addr addr then some v else rest

-- The indices of a station, by the kind of its interface.
unfoldable pub sta_indices : IfType → Peer → TxBd → TxBd
sta_indices kind sta bd =
    let signed : TxBd = record bd { dpu_sign = sta.ucast_dpu_sign } in
    if is_station kind
    then record signed { sta_index = sta.bss_sta_index; dpu_desc_idx = sta.bss_dpu_desc_index }
    else if owns_bss kind
    then record signed { sta_index = sta.sta_index; dpu_desc_idx = sta.dpu_desc_index }
    else signed

unfoldable pub self_indices : Iface → TxBd → TxBd
self_indices v bd = record bd {
  sta_index = v.self_sta_index;
  dpu_desc_idx = v.self_dpu_desc_index;
  dpu_sign = v.self_ucast_dpu_sign;
}

-- Behind the indices: no encryption, no acknowledgement of a multicast, the place of the frame.
unfoldable pub finish_data : Frame → Bool → ℕ → TxBd → TxBd
unfolding set_tx_pdu
finish_data f clear tid bd =
    let plain : TxBd = record bd { dpu_ne = if f.nullfunc || clear then 1 else 0 } in
    let acked : TxBd = if f.multicast then record plain { ub = 1; ack_policy = 1 } else plain in
    set_tx_pdu (hdr_size f.qos.data_qos) f.skb.len tid acked

-- What the BD and the station become, and the interface.
pub record Filled : Type 0 where
  pub filled : TxBd
  pub through : TxVif
  pub sta : Option TxSta

unfoldable pub count_ampdu : Bool → QosFrame → TxSta → TxSta
unfolding tx_start_ampdu
count_ampdu ht q sta = if q.data_qos then record sta { tx = tx_start_ampdu ht q sta.tx } else sta

unfoldable pub set_tx_self : Frame → TxBd → Option TxVif → Option Filled
unfolding self_indices finish_data
set_tx_self f bd none = none
set_tx_self f bd (some v) =
    some
      (record { filled = finish_data f false 0 (self_indices v.iface bd); through = v; sta = none })

unfoldable pub set_tx_data : Sender → Frame → Option TxSta → TxBd → Option Filled
unfolding sta_indices finish_data count_ampdu set_tx_self get_vif_by_addr
set_tx_data s f (some sta) bd = some (record {
  filled =
      finish_data f (not sta.peer.is_data_encrypted) sta.peer.tid
        (sta_indices sta.vif.iface.kind sta.peer bd);
  through = sta.vif;
  sta = some (count_ampdu s.ht f.qos sta);
})
set_tx_data s f none bd = set_tx_self f bd (get_vif_by_addr s.vifs f.addr2)

abbrev pub mgmt_rate : FrameType → Band → ℕ
mgmt_rate mgmt_frame band_5ghz = 3
mgmt_rate mgmt_frame band_2ghz = 2
mgmt_rate ctl_frame band = 3
mgmt_rate data_frame band = 0
mgmt_rate ext_frame band = 0

-- While joining, a probe goes out as a unicast. The broadcast queue is 10, the other one 9.
unfoldable pub set_tx_mgmt : Sender → Frame → Option TxSta → TxBd → Option TxVif → Option Filled
unfolding set_tx_pdu
set_tx_mgmt s f sta bd none = none
set_tx_mgmt s f sta bd (some v) =
    let bcast = f.multicast && not (v.iface.is_joining && f.probe_req) in
    let rated : TxBd = record bd {
      sta_index = v.iface.self_sta_index;
      dpu_desc_idx = v.iface.self_dpu_desc_index;
      dpu_ne = 1;
      bd_rate = mgmt_rate f.frame_type s.band;
      ub = if bcast then 1 else 0;
      ack_policy = if bcast then 1 else 0;
      queue_id = if bcast then 10 else 9;
    } in
    some (record {
      filled = set_tx_pdu (hdr_size f.qos.data_qos) f.skb.len 7 rated;
      through = v;
      sta = sta;
    })
