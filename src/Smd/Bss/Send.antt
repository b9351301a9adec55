-- ===== src/Smd/Bss/Send.antt =====
-- `wcn36xx_smd_config_bss` and `wcn36xx_smd_set_mc_list`.
use wcn36xx.Common.{
  ℕ, Bool, List, ◌++◌, Option, none, some, ltb, u8, u32, field, zeros, le32_at, byte_at, ◌==◌,
  if◌then◌else◌, Ret, ok, err, einval, eio,
}
use wcn36xx.Hal.MsgType.{config_bss_req, multicast_list_req_8023}
use wcn36xx.Hal.Enums.{result_success}
use wcn36xx.Hal.Layout.{frame}
use wcn36xx.Smd.State.{Hal}
use wcn36xx.Smd.Send.{simple}
use wcn36xx.Smd.Exchange.{exchange}
use wcn36xx.Smd.Config.{is_fw_version}
use wcn36xx.Smd.Objects.{Iface, Peer, Radio}
use wcn36xx.Smd.Bss.{BssParams, bss_params_body, bss_params_v1_body}
use wcn36xx.Smd.Bss.Convert.{convert_bss_to_v1}
use wcn36xx.Smd.Bss.Fill.{set_bss_params}

-- The message behind the header, by the version of the firmware.
unfoldable pub config_bss_body : Radio → BssParams → List ℕ
unfolding bss_params_body bss_params_v1_body convert_bss_to_v1 is_fw_version
config_bss_body wcn p =
    if is_fw_version wcn.info 1 2 2 24
    then bss_params_body p
    else bss_params_v1_body (convert_bss_to_v1 p)

-- What the BSS response tells of the station, when there is one.
unfoldable pub learn_bss_sta : List ℕ → Option Peer → Option Peer
learn_bss_sta buf none = none
learn_bss_sta buf (some sta) =
    some (record sta { bss_sta_index = byte_at 19 buf; bss_dpu_desc_index = byte_at 13 buf })

-- What the command learns into.
pub record Net : Type 0 where
  pub vif : Iface
  pub sta : Option Peer

unfoldable pub smd_config_bss_rsp : List ℕ → ℕ → Net → Ret × Net
unfolding learn_bss_sta
smd_config_bss_rsp buf len net =
    if ltb len 29
    then (err einval, net)
    else if le32_at 8 buf == result_success
    then (
      ok,
      record {
        vif = record net.vif { bss_index = byte_at 12 buf; self_ucast_dpu_sign = byte_at 14 buf };
        sta = learn_bss_sta buf net.sta;
      },
    )
    else (err eio, net)

unfoldable pub smd_config_bss : Radio → Net → List ℕ → Bool → Hal → Ret × Hal × Net
unfolding set_bss_params config_bss_body smd_config_bss_rsp exchange
smd_config_bss wcn net bssid update h =
    let p = set_bss_params wcn net.vif net.sta bssid update in
    exchange (frame config_bss_req (config_bss_body wcn p)) smd_config_bss_rsp net h

-- `struct wcn36xx_hal_rcv_flt_mc_addr_list_type`, up to `bss_index`; `mc_addrs` are the bytes of
-- `mc_addr`.
pub record McList : Type 0 where
  pub data_offset : ℕ
  pub mc_addr_count : ℕ
  pub mc_addrs : List ℕ

-- 240 addresses
abbrev pub mc_addrs_size : ℕ
mc_addrs_size = 1440

-- No list is all zero: all multicast traffic is received.
unfoldable pub mc_list_body : Option McList → ℕ → List ℕ
mc_list_body (some fp) bss_index =
    u8 fp.data_offset ++ u32 fp.mc_addr_count ++ field mc_addrs_size fp.mc_addrs ++ u8 bss_index
mc_list_body none bss_index = u8 0 ++ u32 0 ++ zeros mc_addrs_size ++ u8 bss_index

-- The message is built in `hal_buf` itself.
unfoldable pub smd_set_mc_list : Iface → Option McList → Hal → Ret × Hal
unfolding mc_list_body simple
smd_set_mc_list vif fp h = simple (frame multicast_list_req_8023 (mc_list_body fp vif.bss_index)) h
