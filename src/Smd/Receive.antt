-- ===== src/Smd/Receive.antt =====
-- `wcn36xx_smd_rsp_process`: what the driver does with a message from the firmware.
use wcn36xx.Common.{
  ℕ, Bool, true, false, ◌||◌, List, [], ◌∷◌, ◌++◌, length, overwrite, le16_at, ◌==◌, if◌then◌else◌,
}
use wcn36xx.Hal.MsgType.{
  MsgType, msg_code, start_rsp, config_sta_rsp, config_bss_rsp, add_sta_self_rsp, stop_rsp,
  del_sta_self_rsp, delete_sta_rsp, init_scan_rsp, start_scan_rsp, end_scan_rsp, finish_scan_rsp,
  download_nv_rsp, delete_bss_rsp, send_beacon_rsp, set_link_st_rsp, update_probe_rsp_template_rsp,
  set_bsskey_rsp, set_stakey_rsp, rmv_stakey_rsp, rmv_bsskey_rsp, enter_bmps_rsp,
  set_power_params_rsp, exit_bmps_rsp, keep_alive_rsp, dump_command_rsp, add_ba_session_rsp,
  add_ba_rsp, del_ba_rsp, trigger_ba_rsp, update_cfg_rsp, join_rsp, update_scan_param_rsp,
  ch_switch_rsp, feature_caps_exchange_rsp, multicast_list_rsp_8023, ota_tx_compl_ind,
  missed_beacon_ind, delete_sta_context_ind,
}
use wcn36xx.Smd.State.{Hal, first_or_true, tail_of}

-- The case labels of the `switch` that complete a command.
abbrev pub responses : List MsgType
responses =
    start_rsp ∷ config_sta_rsp ∷ config_bss_rsp ∷ add_sta_self_rsp ∷ stop_rsp ∷ del_sta_self_rsp
    ∷ delete_sta_rsp ∷ init_scan_rsp ∷ start_scan_rsp ∷ end_scan_rsp ∷ finish_scan_rsp
    ∷ download_nv_rsp ∷ delete_bss_rsp ∷ send_beacon_rsp ∷ set_link_st_rsp
    ∷ update_probe_rsp_template_rsp ∷ set_bsskey_rsp ∷ set_stakey_rsp ∷ rmv_stakey_rsp
    ∷ rmv_bsskey_rsp ∷ enter_bmps_rsp ∷ set_power_params_rsp ∷ exit_bmps_rsp ∷ keep_alive_rsp
    ∷ dump_command_rsp ∷ add_ba_session_rsp ∷ add_ba_rsp ∷ del_ba_rsp ∷ trigger_ba_rsp
    ∷ update_cfg_rsp ∷ join_rsp ∷ update_scan_param_rsp ∷ ch_switch_rsp ∷ feature_caps_exchange_rsp
    ∷ multicast_list_rsp_8023 ∷ []

-- The case labels that queue an indication.
abbrev pub indications : List MsgType
indications = ota_tx_compl_ind ∷ missed_beacon_ind ∷ delete_sta_context_ind ∷ []

unfoldable pub is_one_of : ℕ → List MsgType → Bool
unfolding msg_code
is_one_of n [] = false
is_one_of n (t ∷ ts) = n == msg_code t || is_one_of n ts

-- `memcpy(wcn->hal_buf, buf, len)`: the length is not compared with the size of the buffer.
unfoldable pub complete_with : List ℕ → Hal → Hal
complete_with m h = record h { buf = overwrite m h.buf; rsp_len = length m; completed = true }

-- The second of the two `kmalloc` calls, for the copy of the message.
unfoldable pub queue_copy : List ℕ → Hal → Hal
queue_copy m h =
    let rest = record h { allocs = tail_of h.allocs } in
    if first_or_true h.allocs
    then record rest { ind_queue = h.ind_queue ++ (m ∷ []); ind_pending = true }
    else rest

unfoldable pub queue_indication : List ℕ → Hal → Hal
unfolding queue_copy
queue_indication m h =
    let rest = record h { allocs = tail_of h.allocs } in
    if first_or_true h.allocs then queue_copy m rest else rest

unfoldable pub rsp_process : Hal → List ℕ → Hal
unfolding complete_with queue_indication
rsp_process h m =
    let t = le16_at 0 m in
    if is_one_of t responses
    then complete_with m h
    else if is_one_of t indications
    then queue_indication m h
    else h

unfoldable pub arrivals : List (List ℕ) → Hal → Hal
unfolding rsp_process
arrivals [] h = h
arrivals (m ∷ ms) h = arrivals ms (rsp_process h m)
