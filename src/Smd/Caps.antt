-- ===== src/Smd/Caps.antt =====
-- The capability bitmap of smd.c and the exchange of it with the firmware.
pub mod Bitmap
use wcn36xx.Common.{
  ℕ, zero, suc, ◌+◌, ◌*◌, ◌/◌, ◌%◌, ◌^◌, List, [], ◌∷◌, ◌++◌, length, get_or, set, replicate, drop,
  ltb, u32, le32_at, ◌==◌, if◌then◌else◌, Option, none, some, bit_and, bit_or, complement, Ret, ok,
  err, code,
}
use wcn36xx.Hal.Layout.{frame}
use wcn36xx.Hal.MsgType.{feature_caps_exchange_req}
use wcn36xx.Smd.State.{Hal}
use wcn36xx.Smd.Send.{prepare_hal_buf, send_and_wait}

-- WCN36XX_HAL_CAPS_SIZE
abbrev pub caps_size : ℕ
caps_size = 4

-- `enum place_holder_in_cap_bitmap`: those that the driver names.
abbrev pub dot11ac : ℕ
dot11ac = 2

abbrev pub sta_powersave : ℕ
sta_powersave = 13

-- The words are `u32`; `int` shifts by less than 32 give the same word.
unfoldable pub set_feat_caps : List ℕ → ℕ → List ℕ
set_feat_caps bitmap cap =
    let arr_idx = cap / 32 in
    let bit_idx = cap % 32 in
    if ltb 127 cap
    then bitmap
    else set bitmap arr_idx (bit_or (get_or bitmap arr_idx 0) (2 ^ bit_idx))

-- `none` is -EINVAL.
unfoldable pub get_feat_caps : List ℕ → ℕ → Option ℕ
get_feat_caps bitmap cap =
    let arr_idx = cap / 32 in
    let bit_idx = cap % 32 in
    if ltb 127 cap
    then none
    else some (if bit_and (get_or bitmap arr_idx 0) (2 ^ bit_idx) == 0 then 0 else 1)

unfoldable pub clear_feat_caps : List ℕ → ℕ → List ℕ
clear_feat_caps bitmap cap =
    let arr_idx = cap / 32 in
    let bit_idx = cap % 32 in
    if ltb 127 cap
    then bitmap
    else set bitmap arr_idx (bit_and (get_or bitmap arr_idx 0) (complement 32 (2 ^ bit_idx)))

-- An array of `u32` as it goes over the channel, and back.
abbrev pub words_bytes : List ℕ → List ℕ
words_bytes [] = []
words_bytes (w ∷ ws) = u32 w ++ words_bytes ws

abbrev pub read_words : ℕ → ℕ → List ℕ → List ℕ
read_words zero off buf = []
read_words (suc n) off buf = le32_at off buf ∷ read_words n (off + 4) buf

-- `msg_body` is not cleared by more than INIT_HAL_MSG, whose `memset` covers the bitmap.
unfoldable pub caps_msg : List ℕ
unfolding frame set_feat_caps
caps_msg =
    frame feature_caps_exchange_req
      (words_bytes (set_feat_caps (replicate caps_size 0) sta_powersave))

-- A response of another length leaves the bitmap as it was, and the result is still 0.
unfoldable pub caps_rsp : Ret × Hal → List ℕ → Ret × Hal × List ℕ
caps_rsp (ok, h) caps = (ok, h, if h.rsp_len == 24 then read_words caps_size 8 h.buf else caps)
caps_rsp (err e, h) caps = (err e, h, caps)
caps_rsp (code n, h) caps = (code n, h, caps)

unfoldable pub smd_feature_caps_exchange : Hal → List ℕ → Ret × Hal × List ℕ
unfolding prepare_hal_buf send_and_wait caps_msg caps_rsp
smd_feature_caps_exchange h fw_feat_caps =
    caps_rsp (send_and_wait (prepare_hal_buf (length caps_msg) caps_msg h) (length caps_msg))
      fw_feat_caps
