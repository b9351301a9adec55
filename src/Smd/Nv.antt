-- ===== src/Smd/Nv.antt =====
-- `wcn36xx_smd_load_nv`: the calibration file goes to the firmware in fragments.
pub mod Fragments
pub mod Sent
pub mod Load
pub mod Endless
use wcn36xx.Common.{
  ℕ, zero, suc, ◌+◌, ◌-◌, ◌%◌, ◌^◌, Bool, true, false, not, ◌&&◌, Option, none, some, List, ◌++◌,
  length, take, drop, overwrite, ltb, failed, if◌then◌else◌, Ret, ok, err, code,
}
use wcn36xx.Hal.MsgType.{download_nv_req}
use wcn36xx.Hal.Enums.{nv_fragment_size}
use wcn36xx.Hal.Layout.{header, nv_body}
use wcn36xx.Smd.State.{Hal}
use wcn36xx.Smd.Send.{send_and_wait, then_check, rsp_status_check}

-- `sizeof(msg_body)`
abbrev pub nv_msg_size : ℕ
nv_msg_size = 16

-- `nv->size - fm_offset - 4`, modulo 2 ^ 32: the table stands behind the four bytes of `is_valid`.
unfoldable pub bytes_left : List ℕ → ℕ → ℕ
bytes_left nv fm_offset = (length nv + 2 ^ 32 - fm_offset - 4) % 2 ^ 32

-- Not `fw_bytes_left > WCN36XX_NV_FRAGMENT_SIZE`, where `fw_bytes_left` is an `int`.
unfoldable pub is_last : List ℕ → ℕ → Bool
unfolding bytes_left
is_last nv fm_offset =
    let left = bytes_left nv fm_offset in not (ltb left (2 ^ 31) && ltb nv_fragment_size left)

-- `nv_img_buffer_size`; the last is `fw_bytes_left`, as a `u32`.
unfoldable pub img_size : List ℕ → ℕ → ℕ
unfolding is_last bytes_left
img_size nv fm_offset = if is_last nv fm_offset then bytes_left nv fm_offset else nv_fragment_size

abbrev pub flag : Bool → ℕ
flag true = 1
flag false = 0

-- The two `memcpy` calls that fill the buffer.
unfoldable pub fill_fragment : List ℕ → ℕ → ℕ → Hal → Hal
fill_fragment nv frag_number fm_offset h =
    let n = img_size nv fm_offset in
    let msg =
      header download_nv_req (nv_msg_size + n)
      ++ nv_body frag_number (flag (is_last nv fm_offset)) n in
    record h { buf = overwrite (msg ++ take n (drop (4 + fm_offset) nv)) h.buf }

-- One round of the loop: fill, send, check.
unfoldable pub send_fragment : List ℕ → ℕ → ℕ → Hal → Ret × Hal
unfolding fill_fragment
send_fragment nv frag_number fm_offset h =
    then_check rsp_status_check (
      send_and_wait (fill_fragment nv frag_number fm_offset h)
        (nv_msg_size + img_size nv fm_offset))

-- `do … while (last_fragment != 1)` with fuel; `none` means that the fuel ran out. `frag_number` and
-- `fm_offset` are `u16`.
unfoldable pub load_nv_loop : ℕ → List ℕ → ℕ → ℕ → Hal → Option (Ret × Hal)
load_nv_loop zero nv frag_number fm_offset h = none
load_nv_loop (suc fuel) nv frag_number fm_offset h =
    let (ret, h') = send_fragment nv frag_number fm_offset h in
    let next_frag = (frag_number + 1) % 2 ^ 16 in
    let next_offset = (fm_offset + nv_fragment_size) % 2 ^ 16 in
    let rest = load_nv_loop fuel nv next_frag next_offset h' in
    if failed ret then some (ret, h') else if is_last nv fm_offset then some (ret, h') else rest

-- What `request_firmware` finds: the file, or a nonzero code.
pub data Firmware : Type 0 where
  found : List ℕ → Firmware
  missing : ℕ → Firmware

-- `wcn->nv` is asked for once and kept.
pub record NvState : Type 0 where
  pub nv : Option (List ℕ)
  pub hal : Hal

unfoldable pub keep_nv : List ℕ → Option (Ret × Hal) → Option (Ret × NvState)
keep_nv nv none = none
keep_nv nv (some (ret, h)) = some (ret, record { nv = some nv; hal = h })

unfoldable pub with_nv : ℕ → List ℕ → Hal → Option (Ret × NvState)
unfolding keep_nv
with_nv fuel nv h = keep_nv nv (load_nv_loop fuel nv 0 0 h)

unfoldable pub request_nv : ℕ → Firmware → Hal → Option (Ret × NvState)
request_nv fuel (found nv) h = with_nv fuel nv h
request_nv fuel (missing n) h = some (code (suc n), record { nv = none; hal = h })

unfoldable pub load_cached : ℕ → Option (List ℕ) → Firmware → Hal → Option (Ret × NvState)
load_cached fuel (some nv) firmware h = with_nv fuel nv h
load_cached fuel none firmware h = request_nv fuel firmware h

unfoldable pub smd_load_nv : ℕ → Firmware → NvState → Option (Ret × NvState)
unfolding load_cached request_nv with_nv
smd_load_nv fuel firmware s = load_cached fuel s.nv firmware s.hal
