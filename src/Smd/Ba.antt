-- ===== src/Smd/Ba.antt =====
-- The block-ack commands of smd.c.
use wcn36xx.Common.{
  ℕ, List, ◌++◌, Option, none, some, take, drop, u8, u16, ltb, le32_at, if◌then◌else◌, Ret, err,
  einval, ret_of,
}
use wcn36xx.Hal.MsgType.{add_ba_session_req, add_ba_req, del_ba_req, trigger_ba_req}
use wcn36xx.Hal.Enums.{aggr_buffer_size}
use wcn36xx.Hal.Layout.{frame, header, add_ba_session_body, del_ba_body}
use wcn36xx.Smd.State.{Hal}
use wcn36xx.Smd.Send.{simple, prepare_hal_buf, send_and_wait, then_check}

abbrev pub or_zero : Option ℕ → ℕ
or_zero none = 0
or_zero (some n) = n

-- `ssn` is the sequence number behind the pointer, if there is one.
unfoldable pub add_ba_session_msg : List ℕ → ℕ → Option ℕ → ℕ → ℕ → List ℕ
add_ba_session_msg sta_addr tid ssn direction sta_index =
    frame add_ba_session_req
      (add_ba_session_body sta_index sta_addr 0x10 tid 1 aggr_buffer_size 0 (or_zero ssn) direction)

unfoldable pub smd_add_ba_session : List ℕ → ℕ → Option ℕ → ℕ → ℕ → Hal → Ret × Hal
smd_add_ba_session sta_addr tid ssn direction sta_index h =
    simple (add_ba_session_msg sta_addr tid ssn direction sta_index) h

unfoldable pub add_ba_msg : List ℕ
add_ba_msg = frame add_ba_req (u8 0 ++ u8 aggr_buffer_size)

unfoldable pub smd_add_ba : Hal → Ret × Hal
smd_add_ba h = simple add_ba_msg h

unfoldable pub del_ba_msg : ℕ → ℕ → List ℕ
del_ba_msg tid sta_index = frame del_ba_req (del_ba_body sta_index tid 0)

unfoldable pub smd_del_ba : ℕ → ℕ → Hal → Ret × Hal
smd_del_ba tid sta_index h = simple (del_ba_msg tid sta_index) h

-- The status stands behind the six bytes of `bssid`.
unfoldable pub smd_trigger_ba_rsp : List ℕ → ℕ → Ret
smd_trigger_ba_rsp buf len = if ltb len 20 then err einval else ret_of (le32_at 14 buf)

-- The message without its candidate, whose header already counts the candidate's two bytes.
unfoldable pub trigger_ba_msg : List ℕ
trigger_ba_msg = header trigger_ba_req 13 ++ u8 0 ++ u16 1

-- `*candidate = {sta_index, 1}`, behind the message
unfoldable pub write_candidate : ℕ → Hal → Hal
write_candidate sta_index h = record h {
  buf = take 11 h.buf ++ (u8 sta_index ++ u8 1) ++ drop 13 h.buf;
}

unfoldable pub smd_trigger_ba : ℕ → Hal → Ret × Hal
unfolding write_candidate
smd_trigger_ba sta_index h =
    let ready = write_candidate sta_index (prepare_hal_buf 13 trigger_ba_msg h) in
    then_check smd_trigger_ba_rsp (send_and_wait ready 13)
