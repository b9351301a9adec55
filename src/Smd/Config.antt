-- ===== src/Smd/Config.antt =====
-- The commands of smd.c whose messages end in configuration TLVs: start and update_cfg.
pub mod Tlv
pub mod Start
use wcn36xx.Common.{
  ℕ, ◌+◌, ◌-◌, ◌≤◌, List, [], ◌∷◌, ◌++◌, length, take, drop, leb, ltb, u16, u32, zeros, overwrite,
  write_at, byte_at, le16_at, ◌==◌, Bool, ◌&&◌, failed, if◌then◌else◌, Ret, ok, err, code, enomem,
  eio,
}
use wcn36xx.Hal.Enums.{hal_buf_size, result_success, DriverType, production, driver_code}
use wcn36xx.Hal.Layout.{header, frame}
use wcn36xx.Hal.MsgType.{start_req, update_cfg_req}
use wcn36xx.Smd.State.{Hal}
use wcn36xx.Smd.Send.{prepare_hal_buf, send_and_wait, then_check, rsp_status_check}

-- `wcn36xx_cfg_vals`: the numbers of the WCN36XX_HAL_CFG_ constants, and the values.
unfoldable pub cfg_vals : List (ℕ × ℕ)
cfg_vals =
    (1, 1)
    ∷ (2, 1)
    ∷ (3, 0)
    ∷ (4, 785)
    ∷ (5, 5)
    ∷ (6, 1)
    ∷ (7, 0)
    ∷ (8, 3)
    ∷ (9, 6000)
    ∷ (10, 64)
    ∷ (11, 2347)
    ∷ (12, 6)
    ∷ (13, 6)
    ∷ (14, 8000)
    ∷ (15, 5)
    ∷ (16, 10)
    ∷ (17, 15)
    ∷ (18, 0)
    ∷ (19, 4)
    ∷ (20, 0)
    ∷ (21, 0)
    ∷ (22, 5)
    ∷ (23, 1)
    ∷ (24, 5)
    ∷ (26, 5)
    ∷ (27, 40)
    ∷ (28, 200)
    ∷ (29, 1)
    ∷ (30, 1)
    ∷ (31, 20)
    ∷ (32, 10)
    ∷ (33, 30000)
    ∷ (34, 0)
    ∷ (40, 128)
    ∷ (41, 2560)
    ∷ (57, 0)
    ∷ (64, 1)
    ∷ (75, 1)
    ∷ (99, 0)
    ∷ (98, 10)
    ∷ (100, 0)
    ∷ []

-- `struct wcn36xx_hal_cfg` and the value behind it
abbrev pub tlv : ℕ → ℕ → List ℕ
tlv id value = u16 id ++ u16 4 ++ u16 0 ++ u16 0 ++ u32 value

-- The result, the buffer and `*len`.
unfoldable pub put_cfg_tlv_u32 : ℕ → ℕ → List ℕ → ℕ → Ret × List ℕ × ℕ
put_cfg_tlv_u32 id value buf len =
    if leb hal_buf_size (len + 8 + 4)
    then (err enomem, buf, len)
    else (ok, write_at len (tlv id value) buf, len + 12)

-- The loop of `wcn36xx_smd_start`, which ends at the first failure.
unfoldable pub put_cfg_list : List (ℕ × ℕ) → List ℕ → ℕ → Ret × List ℕ × ℕ
unfolding put_cfg_tlv_u32
put_cfg_list [] buf len = (ok, buf, len)
put_cfg_list ((id, value) ∷ cfgs) buf len =
    let (ret, buf', len') = put_cfg_tlv_u32 id value buf len in
    let rest = put_cfg_list cfgs buf' len' in if failed ret then (ret, buf', len') else rest

-- `crm_version`, `wlan_version` and the four version bytes of `struct wcn36xx`
pub record FwInfo : Type 0 where
  pub crm_version : List ℕ
  pub wlan_version : List ℕ
  pub fw_revision : ℕ
  pub fw_version : ℕ
  pub fw_minor : ℕ
  pub fw_major : ℕ

abbrev pub version_length : ℕ
version_length = 64

abbrev pub slice : ℕ → ℕ → List ℕ → List ℕ
slice off n buf = take n (drop off buf)

-- The response struct has 144 bytes: the status at 8, the version at 12, the strings at 16 and 80.
unfoldable pub start_rsp : List ℕ → ℕ → FwInfo → Ret × FwInfo
start_rsp buf len info =
    if ltb len 144
    then (err eio, info)
    else if le16_at 8 buf == result_success
    then (
      ok,
      record {
        crm_version = slice 16 version_length buf ++ (0 ∷ []);
        wlan_version = slice 80 version_length buf ++ (0 ∷ []);
        fw_revision = byte_at 12 buf;
        fw_version = byte_at 13 buf;
        fw_minor = byte_at 14 buf;
        fw_major = byte_at 15 buf;
      },
    )
    else (err eio, info)

-- `wcn36xx_is_fw_version`
unfoldable pub is_fw_version : FwInfo → ℕ → ℕ → ℕ → ℕ → Bool
is_fw_version info major minor version revision =
    info.fw_major == major
    && info.fw_minor == minor
    && info.fw_version == version
    && info.fw_revision == revision

unfoldable pub start_msg : List ℕ
unfolding frame
start_msg = frame start_req (u32 (driver_code production) ++ u32 0)

-- The response is read when it came in.
unfoldable pub start_checked : Ret × Hal → FwInfo → Ret × Hal × FwInfo
unfolding start_rsp
start_checked (ok, h) info = let (ret, info') = start_rsp h.buf h.rsp_len info in (ret, h, info')
start_checked (err e, h) info = (err e, h, info)
start_checked (code n, h) info = (code n, h, info)

-- `body->header.len` and `body->params.len`, then the wait.
unfoldable pub start_send : ℕ → Hal → Ret × Hal
start_send len h =
    send_and_wait (record h { buf = write_at 12 (u32 (len - 16)) (write_at 4 (u32 len) h.buf) }) len

unfoldable pub start_after : Ret × List ℕ × ℕ → Hal → FwInfo → Ret × Hal × FwInfo
unfolding start_checked start_send
start_after (ok, buf, len) h info = start_checked (start_send len (record h { buf = buf })) info
start_after (err e, buf, len) h info = (err e, record h { buf = buf }, info)
start_after (code n, buf, len) h info = (code n, record h { buf = buf }, info)

unfoldable pub smd_start : Hal → FwInfo → Ret × Hal × FwInfo
unfolding prepare_hal_buf start_msg put_cfg_list cfg_vals start_after
smd_start h info =
    let ready = prepare_hal_buf (length start_msg) start_msg h in
    start_after (put_cfg_list cfg_vals ready.buf 16) ready info

unfoldable pub update_cfg_msg : List ℕ
unfolding frame
update_cfg_msg = frame update_cfg_req (u32 0)

-- The result of `put_cfg_tlv_u32` is dropped.
unfoldable pub smd_update_cfg : ℕ → ℕ → Hal → Ret × Hal
unfolding prepare_hal_buf update_cfg_msg put_cfg_tlv_u32 send_and_wait then_check rsp_status_check
smd_update_cfg cfg_id value h =
    let ready = prepare_hal_buf (length update_cfg_msg) update_cfg_msg h in
    let (ret, buf, len) = put_cfg_tlv_u32 cfg_id value ready.buf 12 in
    then_check rsp_status_check (
      send_and_wait (record h { buf = write_at 8 (u32 (len - 12)) (write_at 4 (u32 len) buf) }) len)
