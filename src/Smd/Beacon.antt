-- ===== src/Smd/Beacon.antt =====
-- The commands of smd.c that hand frames of mac80211 to the firmware as templates.
pub mod Padding
pub mod Framed
use wcn36xx.Common.{
  ℕ, ◌+◌, ◌-◌, ◌%◌, ◌^◌, Bool, true, false, List, ◌++◌, length, take, drop, set, zeros, field,
  write_at, byte_at, ltb, if◌then◌else◌, Ret, err, enomem, e2big, Option, none, some, ◌||◌, ◌&&◌,
}
use wcn36xx.Hal.MsgType.{send_beacon_req, update_probe_rsp_template_req}
use wcn36xx.Hal.Enums.{beacon_template_size, tim_min_pvm_size}
use wcn36xx.Hal.Layout.{frame, send_beacon_body, probe_resp_body}
use wcn36xx.Smd.State.{Hal}
use wcn36xx.Smd.Send.{simple}
use wcn36xx.Smd.Config.{slice}

-- The length byte of the TIM element. `pvm_len` is the `int` 3 less.
abbrev pub tim_len : List ℕ → ℕ → ℕ
tim_len bcn tim_off = byte_at (tim_off + 1) bcn

-- `pad` when it is positive, otherwise 0; on a mesh it is 0.
unfoldable pub pad : Bool → List ℕ → ℕ → ℕ
pad mesh bcn tim_off = if mesh then 0 else tim_min_pvm_size + 3 - tim_len bcn tim_off

-- `msg_body.beacon_length`, a `u32`: a negative `pad` makes it less than the length of the frame.
unfoldable pub beacon_length : Bool → List ℕ → ℕ → ℕ
beacon_length mesh bcn tim_off =
    if mesh
    then length bcn
    else (length bcn + 2 ^ 32 + tim_min_pvm_size + 3 - tim_len bcn tim_off) % 2 ^ 32

-- `tim_off + 5 + pvm_len`, the end of the TIM element.
abbrev pub tim_end : List ℕ → ℕ → ℕ
tim_end bcn tim_off = tim_off + 2 + tim_len bcn tim_off

-- `memmove`, `memset`, and the new length of the element.
unfoldable pub pad_tim : ℕ → List ℕ → ℕ → List ℕ → List ℕ
pad_tim n bcn tim_off beacon =
    let p = tim_end bcn tim_off in
    let moved = write_at (p + n) (slice p (length bcn - p) beacon) beacon in
    let cleared = write_at p (zeros n) moved in
    set cleared (tim_off + 1) ((byte_at (tim_off + 1) cleared + n) % 256)

-- `msg_body.beacon`
unfoldable pub beacon_template : Bool → List ℕ → ℕ → List ℕ
unfolding pad pad_tim
beacon_template mesh bcn tim_off =
    let copied = bcn ++ zeros (beacon_template_size - length bcn) in
    let n = pad mesh bcn tim_off in if ltb 0 n then pad_tim n bcn tim_off copied else copied

unfoldable pub send_beacon_msg : Bool → List ℕ → List ℕ → ℕ → ℕ → List ℕ
unfolding beacon_length beacon_template
send_beacon_msg mesh addr bcn tim_off p2p_off =
    let n = beacon_length mesh bcn tim_off in
    frame send_beacon_req (
      send_beacon_body ((n + 6) % 2 ^ 32) n (beacon_template mesh bcn tim_off) addr
        (if mesh then 256 else tim_off + 4) p2p_off)

-- What C leaves undefined: `memcpy` of the frame over the end of `beacon`, and `memmove` of a negative
-- length, when the element that is padded does not end inside the frame.
unfoldable pub overruns : Bool → List ℕ → ℕ → Bool
unfolding pad
overruns mesh bcn tim_off =
    ltb beacon_template_size (length bcn)
    || (ltb 0 (pad mesh bcn tim_off) && ltb (length bcn) (tim_end bcn tim_off))

-- `none`: the driver has written outside the message.
unfoldable pub smd_send_beacon : Bool → List ℕ → List ℕ → ℕ → ℕ → Hal → Option (Ret × Hal)
unfolding send_beacon_msg beacon_length overruns
smd_send_beacon mesh addr bcn tim_off p2p_off h =
    if ltb beacon_template_size (beacon_length mesh bcn tim_off)
    then some (err enomem, h)
    else if overruns mesh bcn tim_off
    then none
    else some (simple (send_beacon_msg mesh addr bcn tim_off p2p_off) h)

unfoldable pub proberesp_msg : List ℕ → List ℕ → List ℕ
proberesp_msg addr bcn = frame update_probe_rsp_template_req (probe_resp_body bcn (length bcn) addr)

unfoldable pub smd_update_proberesp_tmpl : List ℕ → List ℕ → Hal → Ret × Hal
unfolding proberesp_msg
smd_update_proberesp_tmpl addr bcn h =
    if ltb beacon_template_size (length bcn)
    then (err e2big, h)
    else simple (proberesp_msg addr bcn) h
