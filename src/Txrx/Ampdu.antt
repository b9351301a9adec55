-- ===== src/Txrx/Ampdu.antt =====
-- txrx.c: when the driver asks mac80211 for a block-ack session (`wcn36xx_tx_start_ampdu`).
use wcn36xx.Common.{ℕ, suc, ◌%◌, Bool, not, ◌||◌, leb, if◌then◌else◌, List, [], ◌∷◌, set, get_or}

-- `enum wcn36xx_ampdu_state`
pub data AmpduState : Type 0 where
  ampdu_none ampdu_init ampdu_start ampdu_operational : AmpduState

-- The fields of `struct wcn36xx_sta` for sending: a state for each of the 16 traffic identifiers, one
-- count for all of them, and the sessions that mac80211 was asked for, the last one first.
pub record StaTx : Type 0 where
  pub ampdu_state : List AmpduState
  pub non_agg_frame_ct : ℕ
  pub sessions : List ℕ

-- What is read from a frame: whether it is QoS data, whether it is in the queue for voice, and the
-- first byte of its QoS control field.
pub record QosFrame : Type 0 where
  pub data_qos : Bool
  pub voice : Bool
  pub qc : ℕ

-- `WCN36XX_AMPDU_START_THRESH`
abbrev pub start_thresh : ℕ
start_thresh = 20

-- `qc[0] & 0x0f`
unfoldable pub frame_tid : QosFrame → ℕ
frame_tid f = f.qc % 16

unfoldable pub state_of : ℕ → StaTx → AmpduState
state_of tid s = get_or s.ampdu_state tid ampdu_none

unfoldable pub start_session : ℕ → StaTx → StaTx
start_session tid s = record s {
  ampdu_state = set s.ampdu_state tid ampdu_start;
  non_agg_frame_ct = 0;
  sessions = tid ∷ s.sessions;
}

unfoldable pub one_more : StaTx → StaTx
one_more s = record s { non_agg_frame_ct = suc s.non_agg_frame_ct }

-- Under the lock of the station, by the state of the identifier.
unfoldable pub count_frame : ℕ → AmpduState → StaTx → StaTx
unfolding start_session one_more
count_frame tid ampdu_none s =
    if leb start_thresh s.non_agg_frame_ct then start_session tid s else one_more s
count_frame tid ampdu_init s = s
count_frame tid ampdu_start s = s
count_frame tid ampdu_operational s = s

-- `ht` is `conf_is_ht` of the channel.
unfoldable pub tx_start_ampdu : Bool → QosFrame → StaTx → StaTx
unfolding frame_tid state_of count_frame
tx_start_ampdu ht f s =
    if not ht || not f.data_qos || f.voice
    then s
    else count_frame (frame_tid f) (state_of (frame_tid f) s) s

-- Frames to one station, one after the other.
unfoldable pub send_frames : Bool → List QosFrame → StaTx → StaTx
unfolding tx_start_ampdu
send_frames ht [] s = s
send_frames ht (f ∷ fs) s = send_frames ht fs (tx_start_ampdu ht f s)
