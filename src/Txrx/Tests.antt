-- ===== src/Txrx/Tests.antt =====
-- Block-ack sessions at concrete inputs.
use wcn36xx.Common.{
  some, none, zeros, arith, ℕ, ◌≤◌, ◌≡◌, refl, true, List, [], ◌∷◌, ◌++◌, replicate,
}
use wcn36xx.Txrx.Ampdu.{
  ampdu_none, ampdu_operational, StaTx, QosFrame, start_session, state_of, send_frames,
}
use wcn36xx.Mac.Rates.{band_2ghz}
use wcn36xx.Txrx.Receive.{rx_skb}
use wcn36xx.Txrx.Receive.Told.{all_bytes-Bytes, received, rx_skb-received}
use wcn36xx.Txrx.Sessions.{budget, plain_frame, send_frames-sessions}

-- 18 frames since the last session; a session of the identifier 5 is in use.
abbrev station : StaTx
station = record {
  ampdu_state = replicate 5 ampdu_none ++ ampdu_operational ∷ replicate 10 ampdu_none;
  non_agg_frame_ct = 18;
  sessions = 5 ∷ [];
}

-- Frames for the identifiers 3, 5, 0, 3 and 3; the third counted one starts the session.
abbrev frames : List QosFrame
frames = plain_frame 3 ∷ plain_frame 5 ∷ plain_frame 16 ∷ plain_frame 19 ∷ plain_frame 3 ∷ []

one_session : (send_frames true frames station).sessions ≡ 3 ∷ 5 ∷ []
unfolding send_frames
one_session = refl

send_frames-sessions_example :
    (budget 3 (send_frames true frames station) ≡ budget 3 station)
    × ((m : ℕ) → m ≤ 2 → (send_frames true (replicate m (plain_frame 3)) station).sessions ≡ 5 ∷ [])
    × (send_frames true (replicate 3 (plain_frame 3)) station ≡ start_session 3 station)
unfolding state_of
send_frames-sessions_example = send_frames-sessions true frames station 3 2 3 station refl refl refl

-- A BD of 76 bytes that tells a frame of 5 bytes behind it and the strength -45 dBm, the frame, and
-- room behind it.
abbrev received_buffer : List ℕ
received_buffer =
    zeros 13 ++ 76 ∷ 0 ∷ 0 ∷ 0 ∷ 5 ∷ zeros 10 ++ 55 ∷ zeros 47 ++ 0x88 ∷ 1 ∷ 2 ∷ 3 ∷ 4 ∷ 5 ∷ 6 ∷ []

-- The same with a length that does not fit.
abbrev too_long : List ℕ
too_long = zeros 13 ++ 76 ∷ 0 ∷ 0 ∷ 1 ∷ 5 ∷ zeros 60

panics : rx_skb 2412 band_2ghz too_long ≡ none
unfolding rx_skb
panics = refl

up_to : (received 2412 band_2ghz received_buffer).1 ≡ 0x88 ∷ 1 ∷ 2 ∷ 3 ∷ 4 ∷ []
up_to = refl

rx_skb-received_example :
    rx_skb 2412 band_2ghz received_buffer ≡ some (received 2412 band_2ghz received_buffer)
rx_skb-received_example =
    rx_skb-received 2412 band_2ghz received_buffer (all_bytes-Bytes received_buffer refl)
      (omega arith) (omega arith)
