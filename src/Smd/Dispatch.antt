-- ===== src/Smd/Dispatch.antt =====
-- The commands of smd.h as data, with what each puts on the wire.
use wcn36xx.Common.{ℕ, Bool, List, Option, Ret}
use wcn36xx.Hal.MsgType.{MsgType}
use wcn36xx.Hal.Enums.{SysMode, LinkState, EdType}
use wcn36xx.Smd.State.{Hal}
use wcn36xx.Smd.Scan.{
  smd_init_scan, smd_start_scan, smd_end_scan, smd_finish_scan, smd_switch_channel,
  smd_update_scan_params, smd_dump_cmd_req,
}
use wcn36xx.Smd.Link.{
  smd_stop, smd_delete_sta_self, smd_delete_sta, smd_join, smd_set_link_st, smd_delete_bss,
}
use wcn36xx.Smd.Keys.{smd_set_stakey, smd_set_bsskey, smd_remove_stakey, smd_remove_bsskey}
use wcn36xx.Smd.Power.{smd_enter_bmps, smd_exit_bmps, smd_set_power_params, smd_keep_alive_req}
use wcn36xx.Smd.Ba.{smd_add_ba_session, smd_add_ba, smd_del_ba, smd_trigger_ba}

-- One constructor for each command, with the values that it is called with.
pub data Request : Type 0 where
  init_scan : SysMode → Request
  start_scan : ℕ → Request
  end_scan : ℕ → Request
  finish_scan : SysMode → Request
  switch_channel : List ℕ → ℕ → Request
  update_scan_params : Request
  dump_cmd : ℕ → ℕ → ℕ → ℕ → ℕ → Request
  stop : Request
  delete_sta_self : List ℕ → Request
  delete_sta : ℕ → Request
  join : Bool → Bool → List ℕ → List ℕ → ℕ → Request
  set_link_st : List ℕ → List ℕ → LinkState → Request
  delete_bss : ℕ → Request
  set_stakey : EdType → ℕ → ℕ → List ℕ → ℕ → Request
  set_bsskey : EdType → ℕ → ℕ → List ℕ → Request
  remove_stakey : EdType → ℕ → ℕ → Request
  remove_bsskey : EdType → ℕ → Request
  enter_bmps : ℕ → ℕ → ℕ → Request
  exit_bmps : ℕ → Request
  set_power_params : Bool → ℕ → Request
  keep_alive : ℕ → ℕ → Request
  add_ba_session : List ℕ → ℕ → Option ℕ → ℕ → ℕ → Request
  add_ba : Request
  del_ba : ℕ → ℕ → Request
  trigger_ba : ℕ → Request

unfoldable pub run_request : Request → Hal → Ret × Hal
run_request (init_scan mode) h = smd_init_scan mode h
run_request (start_scan ch) h = smd_start_scan ch h
run_request (end_scan ch) h = smd_end_scan ch h
run_request (finish_scan mode) h = smd_finish_scan mode h
run_request (switch_channel addr ch) h = smd_switch_channel addr ch h
run_request update_scan_params h = smd_update_scan_params h
run_request (dump_cmd a b c d e) h = smd_dump_cmd_req a b c d e h
run_request stop h = smd_stop h
run_request (delete_sta_self addr) h = smd_delete_sta_self addr h
run_request (delete_sta i) h = smd_delete_sta i h
run_request (join minus plus bssid addr ch) h = smd_join minus plus bssid addr ch h
run_request (set_link_st bssid addr state) h = smd_set_link_st bssid addr state h
run_request (delete_bss i) h = smd_delete_bss i h
run_request (set_stakey ed idx len key i) h = smd_set_stakey ed idx len key i h
run_request (set_bsskey ed idx len key) h = smd_set_bsskey ed idx len key h
run_request (remove_stakey ed idx i) h = smd_remove_stakey ed idx i h
run_request (remove_bsskey ed idx) h = smd_remove_bsskey ed idx h
run_request (enter_bmps i tsf dtim) h = smd_enter_bmps i tsf dtim h
run_request (exit_bmps i) h = smd_exit_bmps i h
run_request (set_power_params ignore interval) h = smd_set_power_params ignore interval h
run_request (keep_alive i kind) h = smd_keep_alive_req i kind h
run_request (add_ba_session addr tid ssn dir i) h = smd_add_ba_session addr tid ssn dir i h
run_request add_ba h = smd_add_ba h
run_request (del_ba tid i) h = smd_del_ba tid i h
run_request (trigger_ba i) h = smd_trigger_ba i h

-- The type that the firmware reads in the header.
unfoldable pub kind_of : Request → MsgType
kind_of (init_scan mode) = MsgType.init_scan_req
kind_of (start_scan ch) = MsgType.start_scan_req
kind_of (end_scan ch) = MsgType.end_scan_req
kind_of (finish_scan mode) = MsgType.finish_scan_req
kind_of (switch_channel addr ch) = MsgType.ch_switch_req
kind_of update_scan_params = MsgType.update_scan_param_req
kind_of (dump_cmd a b c d e) = MsgType.dump_command_req
kind_of stop = MsgType.stop_req
kind_of (delete_sta_self addr) = MsgType.del_sta_self_req
kind_of (delete_sta i) = MsgType.delete_sta_req
kind_of (join minus plus bssid addr ch) = MsgType.join_req
kind_of (set_link_st bssid addr state) = MsgType.set_link_st_req
kind_of (delete_bss i) = MsgType.delete_bss_req
kind_of (set_stakey ed idx len key i) = MsgType.set_stakey_req
kind_of (set_bsskey ed idx len key) = MsgType.set_bsskey_req
kind_of (remove_stakey ed idx i) = MsgType.rmv_stakey_req
kind_of (remove_bsskey ed idx) = MsgType.rmv_bsskey_req
kind_of (enter_bmps i tsf dtim) = MsgType.enter_bmps_req
kind_of (exit_bmps i) = MsgType.exit_bmps_req
kind_of (set_power_params ignore interval) = MsgType.set_power_params_req
kind_of (keep_alive i kind) = MsgType.keep_alive_req
kind_of (add_ba_session addr tid ssn dir i) = MsgType.add_ba_session_req
kind_of add_ba = MsgType.add_ba_req
kind_of (del_ba tid i) = MsgType.del_ba_req
kind_of (trigger_ba i) = MsgType.trigger_ba_req

-- `sizeof` of the request structs of hal.h, with the candidate of trigger_ba.
unfoldable pub size_of : Request → ℕ
size_of (init_scan mode) = 48
size_of (start_scan ch) = 9
size_of (end_scan ch) = 9
size_of (finish_scan mode) = 53
size_of (switch_channel addr ch) = 28
size_of update_scan_params = 49
size_of (dump_cmd a b c d e) = 28
size_of stop = 12
size_of (delete_sta_self addr) = 14
size_of (delete_sta i) = 9
size_of (join minus plus bssid addr ch) = 31
size_of (set_link_st bssid addr state) = 24
size_of (delete_bss i) = 9
size_of (set_stakey ed idx len key i) = 248
size_of (set_bsskey ed idx len key) = 243
size_of (remove_stakey ed idx i) = 16
size_of (remove_bsskey ed idx) = 18
size_of (enter_bmps i tsf dtim) = 28
size_of (exit_bmps i) = 10
size_of (set_power_params ignore interval) = 32
size_of (keep_alive i kind) = 28
size_of (add_ba_session addr tid ssn dir i) = 26
size_of add_ba = 10
size_of (del_ba tid i) = 12
size_of (trigger_ba i) = 13
