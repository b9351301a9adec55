-- ===== src/Smd/Power.antt =====
-- The power-save commands of smd.c.
use wcn36xx.Common.{ℕ, Bool, List, ◌==◌, if◌then◌else◌, Ret, ok, err, einval, Option, none, some}
use wcn36xx.Hal.MsgType.{enter_bmps_req, exit_bmps_req, set_power_params_req, keep_alive_req}
use wcn36xx.Hal.Enums.{keep_alive_null_pkt, keep_alive_unsolicit_arp_rsp, keep_alive_time_period}
use wcn36xx.Hal.Layout.{
  frame, enter_bmps_body, exit_bmps_body, set_power_params_body, keep_alive_body,
}
use wcn36xx.Smd.State.{Hal}
use wcn36xx.Smd.Send.{simple, command}

unfoldable pub enter_bmps_msg : ℕ → ℕ → ℕ → List ℕ
enter_bmps_msg bss_index sync_tsf dtim_period =
    frame enter_bmps_req (enter_bmps_body bss_index sync_tsf dtim_period)

unfoldable pub smd_enter_bmps : ℕ → ℕ → ℕ → Hal → Ret × Hal
smd_enter_bmps bss_index sync_tsf dtim_period h =
    simple (enter_bmps_msg bss_index sync_tsf dtim_period) h

unfoldable pub exit_bmps_msg : ℕ → List ℕ
exit_bmps_msg bss_index = frame exit_bmps_req (exit_bmps_body bss_index)

unfoldable pub smd_exit_bmps : ℕ → Hal → Ret × Hal
smd_exit_bmps bss_index h = simple (exit_bmps_msg bss_index) h

-- While the host is down every second DTIM is ignored.
unfoldable pub set_power_params_msg : Bool → ℕ → List ℕ
set_power_params_msg ignore_dtim listen_interval = frame set_power_params_req (
    set_power_params_body (if ignore_dtim then 1 else 0) (if ignore_dtim then 2 else 0)
      listen_interval)

-- The response of this command is not checked.
abbrev pub no_check : List ℕ → ℕ → Ret
no_check buf len = ok

unfoldable pub smd_set_power_params : Bool → ℕ → Hal → Ret × Hal
smd_set_power_params ignore_dtim listen_interval h =
    command (set_power_params_msg ignore_dtim listen_interval) no_check h

-- `none` is the unknown packet type. For an ARP response nothing is filled in.
unfoldable pub keep_alive_msg : ℕ → ℕ → Option (List ℕ)
keep_alive_msg bss_index packet_type =
    if packet_type == keep_alive_null_pkt
    then some (
        frame keep_alive_req (keep_alive_body keep_alive_null_pkt keep_alive_time_period bss_index))
    else if packet_type == keep_alive_unsolicit_arp_rsp
    then some (frame keep_alive_req (keep_alive_body 0 0 0))
    else none

send_if : Option (List ℕ) → Hal → Ret × Hal
send_if none h = (err einval, h)
send_if (some msg) h = simple msg h

unfoldable pub smd_keep_alive_req : ℕ → ℕ → Hal → Ret × Hal
unfolding send_if keep_alive_msg
smd_keep_alive_req bss_index packet_type h = send_if (keep_alive_msg bss_index packet_type) h
