-- ===== src/Smd/Sta/Send.antt =====
-- `wcn36xx_smd_config_sta` and `wcn36xx_smd_add_sta_self`.
use wcn36xx.Common.{
  ℕ, List, ltb, le32_at, byte_at, ◌==◌, u32, ◌++◌, some, if◌then◌else◌, Ret, ok, err, code, einval,
  eio,
}
use wcn36xx.Hal.MsgType.{config_sta_req, add_sta_self_req}
use wcn36xx.Hal.Enums.{result_success}
use wcn36xx.Hal.Layout.{frame, mac}
use wcn36xx.Smd.State.{Hal}
use wcn36xx.Smd.Exchange.{exchange}
use wcn36xx.Smd.Config.{is_fw_version}
use wcn36xx.Smd.Objects.{Iface, Peer, Radio}
use wcn36xx.Smd.Sta.{
  StaParams, no_sta_params, sta_params_body, sta_params_v1_body, convert_sta_to_v1,
}
use wcn36xx.Smd.Sta.Fill.{set_sta_params}

-- The message behind the header, by the version of the firmware.
unfoldable pub config_sta_body : Radio → StaParams → List ℕ
unfolding sta_params_body sta_params_v1_body convert_sta_to_v1 is_fw_version
config_sta_body wcn p =
    if is_fw_version wcn.info 1 2 2 24
    then sta_params_body p
    else sta_params_v1_body (convert_sta_to_v1 p)

-- The indices that the firmware gives the station.
unfoldable pub smd_config_sta_rsp : List ℕ → ℕ → Peer → Ret × Peer
smd_config_sta_rsp buf len sta =
    if ltb len 21
    then (err einval, sta)
    else if le32_at 8 buf == result_success
    then (
      ok,
      record sta {
        sta_index = byte_at 12 buf;
        dpu_desc_index = byte_at 14 buf;
        ucast_dpu_sign = byte_at 17 buf;
      },
    )
    else (err eio, sta)

unfoldable pub smd_config_sta : Radio → Iface → Peer → Hal → Ret × Hal × Peer
unfolding set_sta_params config_sta_body smd_config_sta_rsp exchange
smd_config_sta wcn vif sta h =
    let p = set_sta_params wcn vif (some sta) no_sta_params in
    exchange (frame config_sta_req (config_sta_body wcn p)) smd_config_sta_rsp sta h

-- `struct wcn36xx_hal_add_sta_self_req`
unfoldable pub add_sta_self_body : List ℕ → List ℕ
add_sta_self_body addr = mac addr ++ u32 0

-- A status other than 0 is the result.
unfoldable pub smd_add_sta_self_rsp : List ℕ → ℕ → Iface → Ret × Iface
smd_add_sta_self_rsp buf len vif =
    if ltb len 15
    then (err einval, vif)
    else if le32_at 8 buf == result_success
    then (ok, record vif { self_sta_index = byte_at 12 buf; self_dpu_desc_index = byte_at 13 buf })
    else (code (le32_at 8 buf), vif)

unfoldable pub smd_add_sta_self : Iface → Hal → Ret × Hal × Iface
unfolding add_sta_self_body smd_add_sta_self_rsp exchange
smd_add_sta_self vif h =
    exchange (frame add_sta_self_req (add_sta_self_body vif.addr)) smd_add_sta_self_rsp vif h
