-- ===== src/Smd/Scan.antt =====
-- The scan and channel commands of smd.c, and dump_cmd.
use wcn36xx.Common.{
  ℕ, List, ◌++◌, le32_at, u8, u32, bit_and, complement, ◌==◌, if◌then◌else◌, Ret, ok, code,
}
use wcn36xx.Hal.MsgType.{
  init_scan_req, start_scan_req, end_scan_req, finish_scan_req, ch_switch_req,
  update_scan_param_req, dump_command_req,
}
use wcn36xx.Hal.Enums.{SysMode, mode_code, result_success, pno_version_mask}
use wcn36xx.Hal.Layout.{
  frame, init_scan_body, finish_scan_body, switch_channel_body, update_scan_params_body,
}
use wcn36xx.Smd.State.{Hal}
use wcn36xx.Smd.Send.{simple, command, rsp_status_check}

unfoldable pub init_scan_msg : SysMode → List ℕ
init_scan_msg mode = frame init_scan_req (init_scan_body (mode_code mode))

unfoldable pub smd_init_scan : SysMode → Hal → Ret × Hal
smd_init_scan mode h = simple (init_scan_msg mode) h

unfoldable pub start_scan_msg : ℕ → List ℕ
start_scan_msg hw_channel = frame start_scan_req (u8 hw_channel)

unfoldable pub smd_start_scan : ℕ → Hal → Ret × Hal
smd_start_scan hw_channel h = simple (start_scan_msg hw_channel) h

unfoldable pub end_scan_msg : ℕ → List ℕ
end_scan_msg hw_channel = frame end_scan_req (u8 hw_channel)

unfoldable pub smd_end_scan : ℕ → Hal → Ret × Hal
smd_end_scan hw_channel h = simple (end_scan_msg hw_channel) h

unfoldable pub finish_scan_msg : SysMode → List ℕ
finish_scan_msg mode = frame finish_scan_req (finish_scan_body (mode_code mode))

unfoldable pub smd_finish_scan : SysMode → Hal → Ret × Hal
smd_finish_scan mode h = simple (finish_scan_msg mode) h

-- The handler returns what the status check returns: the rest only prints.
unfoldable pub smd_switch_channel_rsp : List ℕ → ℕ → Ret
smd_switch_channel_rsp buf len = rsp_status_check buf len

unfoldable pub switch_channel_msg : List ℕ → ℕ → List ℕ
switch_channel_msg vif_addr ch = frame ch_switch_req (switch_channel_body ch 0xbf 0xbf vif_addr)

unfoldable pub smd_switch_channel : List ℕ → ℕ → Hal → Ret × Hal
unfolding smd_switch_channel_rsp
smd_switch_channel vif_addr ch h = command (switch_channel_msg vif_addr ch) smd_switch_channel_rsp h

-- The length of the response is not looked at; the PNO version bit is cleared first.
unfoldable pub smd_update_scan_params_rsp : List ℕ → ℕ → Ret
smd_update_scan_params_rsp buf len =
    let status = bit_and (le32_at 8 buf) (complement 32 pno_version_mask) in
    if status == result_success then ok else code status

unfoldable pub update_scan_params_msg : List ℕ
update_scan_params_msg =
    frame update_scan_param_req (update_scan_params_body 0 0 26 60 120 60 110 0)

unfoldable pub smd_update_scan_params : Hal → Ret × Hal
smd_update_scan_params h = command update_scan_params_msg smd_update_scan_params_rsp h

unfoldable pub dump_cmd_msg : ℕ → ℕ → ℕ → ℕ → ℕ → List ℕ
dump_cmd_msg arg1 arg2 arg3 arg4 arg5 =
    frame dump_command_req (u32 arg1 ++ u32 arg2 ++ u32 arg3 ++ u32 arg4 ++ u32 arg5)

unfoldable pub smd_dump_cmd_req : ℕ → ℕ → ℕ → ℕ → ℕ → Hal → Ret × Hal
smd_dump_cmd_req arg1 arg2 arg3 arg4 arg5 h = simple (dump_cmd_msg arg1 arg2 arg3 arg4 arg5) h
