-- ===== src/Smd/Framed.antt =====
-- The commands one by one: each sends the message of its struct.
use wcn36xx.Common.{
  ℕ, refl, inl, inr, Bool-cases, [], ◌∷◌, ◌++◌, u8, arith, ap, ◌∙◌, sym, append-nil, ◌==◌,
}
use wcn36xx.Hal.Enums.{keep_alive_null_pkt, keep_alive_unsolicit_arp_rsp}
use wcn36xx.Hal.MsgType.{keep_alive_req, trigger_ba_req}
use wcn36xx.Hal.Layout.{
  header, keys, init_scan_body, finish_scan_body, switch_channel_body, update_scan_params_body,
  join_body, set_link_state_body, set_stakey_body, set_bsskey_body, remove_stakey_body,
  remove_bsskey_body, enter_bmps_body, exit_bmps_body, set_power_params_body, keep_alive_body,
  add_ba_session_body, del_ba_body,
}
use wcn36xx.Smd.State.{Hal}
use wcn36xx.Smd.Send.{prepare_hal_buf, send_and_wait}
use wcn36xx.Smd.Effects.{send_and_wait-sent, then_check-state}
use wcn36xx.Smd.Dispatch.{
  Request, run_request, kind_of, size_of, init_scan, start_scan, end_scan, finish_scan,
  switch_channel, update_scan_params, dump_cmd, stop, delete_sta_self, delete_sta, join,
  set_link_st, delete_bss, set_stakey, set_bsskey, remove_stakey, remove_bsskey, enter_bmps,
  exit_bmps, set_power_params, keep_alive, add_ba_session, add_ba, del_ba, trigger_ba,
}
use wcn36xx.Smd.Scan.{
  smd_init_scan, init_scan_msg, smd_start_scan, start_scan_msg, smd_end_scan, end_scan_msg,
  smd_finish_scan, finish_scan_msg, smd_switch_channel, switch_channel_msg, smd_update_scan_params,
  update_scan_params_msg, smd_dump_cmd_req, dump_cmd_msg,
}
use wcn36xx.Smd.Link.{
  smd_stop, stop_msg, smd_delete_sta_self, delete_sta_self_msg, smd_delete_sta, delete_sta_msg,
  smd_join, join_msg, smd_set_link_st, set_link_st_msg, smd_delete_bss, delete_bss_msg,
}
use wcn36xx.Smd.Keys.{
  smd_set_stakey, set_stakey_msg, smd_set_bsskey, set_bsskey_msg, smd_remove_stakey,
  remove_stakey_msg, smd_remove_bsskey, remove_bsskey_msg,
}
use wcn36xx.Smd.Power.{
  smd_enter_bmps, enter_bmps_msg, smd_exit_bmps, exit_bmps_msg, smd_set_power_params,
  set_power_params_msg, smd_keep_alive_req,
}
use wcn36xx.Smd.Ba.{
  smd_add_ba_session, add_ba_session_msg, smd_add_ba, add_ba_msg, smd_del_ba, del_ba_msg,
  smd_trigger_ba, smd_trigger_ba_rsp, write_candidate, trigger_ba_msg,
}
use wcn36xx.Smd.Wire.{Sends, sizes, messages_of, one_command, one_simple}

trigger_ba-Sends : (i : ℕ) (h : Hal) → Sends trigger_ba_req 13 1 h (smd_trigger_ba i h).1
unfolding smd_trigger_ba trigger_ba_msg prepare_hal_buf header
trigger_ba-Sends i h =
    let ready = write_candidate i (prepare_hal_buf 13 trigger_ba_msg h) in
    record {
      messages = (trigger_ba_msg ++ u8 i ++ u8 1) ∷ [];
      appended =
          ap (λ (s : Hal). s.sent) (then_check-state smd_trigger_ba_rsp (send_and_wait ready 13))
          ∙ send_and_wait-sent ready 13;
      framed = (record { kind = refl; version = refl; counted = refl; whole = refl }, tt);
      counted = refl;
    }

keep_alive-Sends :
    (i kind : ℕ) (h : Hal)
    → Sends keep_alive_req 28 (messages_of (keep_alive i kind)) h (smd_keep_alive_req i kind h).1
unfolding smd_keep_alive_req keep_alive_body
keep_alive-Sends i kind h = elim (Bool-cases (kind == keep_alive_null_pkt)) [
  | inl e ↦ rw e (one_simple _ _ _ h refl (omega arith))
  | inr e ↦ elim (Bool-cases (kind == keep_alive_unsolicit_arp_rsp)) [
    | inl f ↦ rw (e, f) (one_simple _ _ _ h refl (omega arith))
    | inr f ↦
        rw (e, f)
          (record {
            messages = [];
            appended = sym (append-nil h.sent);
            framed = tt;
            counted = refl;
          })
  ]
]

-- Every command sends one message, and a keep-alive of an unknown kind sends none: the header has
-- the command's type, version 0 and, as its length, the size of the command's struct in hal.h, which
-- is the number of bytes sent.
pub run_request-Sends :
    (q : Request) (h : Hal) → Sends (kind_of q) (size_of q) (messages_of q) h (run_request q h).1
unfolding run_request kind_of size_of smd_init_scan smd_start_scan smd_end_scan smd_finish_scan
    smd_switch_channel smd_update_scan_params smd_dump_cmd_req smd_stop smd_delete_sta_self
    smd_delete_sta smd_join smd_set_link_st smd_delete_bss smd_set_stakey smd_set_bsskey
    smd_remove_stakey smd_remove_bsskey smd_enter_bmps smd_exit_bmps smd_set_power_params
    smd_add_ba_session smd_add_ba smd_del_ba smd_keep_alive_req smd_trigger_ba init_scan_msg
    start_scan_msg end_scan_msg finish_scan_msg switch_channel_msg update_scan_params_msg
    dump_cmd_msg stop_msg delete_sta_self_msg delete_sta_msg join_msg set_link_st_msg delete_bss_msg
    set_stakey_msg set_bsskey_msg remove_stakey_msg remove_bsskey_msg enter_bmps_msg exit_bmps_msg
    set_power_params_msg add_ba_session_msg add_ba_msg del_ba_msg init_scan_body finish_scan_body
    switch_channel_body update_scan_params_body join_body set_link_state_body keys set_stakey_body
    set_bsskey_body remove_stakey_body remove_bsskey_body enter_bmps_body exit_bmps_body
    set_power_params_body add_ba_session_body del_ba_body
run_request-Sends (init_scan mode) h = one_simple _ _ _ h refl (omega arith)
run_request-Sends (start_scan ch) h = one_simple _ _ _ h refl (omega arith)
run_request-Sends (end_scan ch) h = one_simple _ _ _ h refl (omega arith)
run_request-Sends (finish_scan mode) h = one_simple _ _ _ h refl (omega arith)
run_request-Sends (switch_channel addr ch) h = one_command _ _ _ _ h (simp sizes) (omega arith)
run_request-Sends update_scan_params h = one_command _ _ _ _ h refl (omega arith)
run_request-Sends (dump_cmd a b c d e) h = one_simple _ _ _ h refl (omega arith)
run_request-Sends stop h = one_simple _ _ _ h refl (omega arith)
run_request-Sends (delete_sta_self addr) h = one_simple _ _ _ h (simp sizes) (omega arith)
run_request-Sends (delete_sta i) h = one_simple _ _ _ h refl (omega arith)
run_request-Sends (join minus plus bssid addr ch) h =
    one_command _ _ _ _ h (simp sizes) (omega arith)
run_request-Sends (set_link_st bssid addr state) h = one_simple _ _ _ h (simp sizes) (omega arith)
run_request-Sends (delete_bss i) h = one_simple _ _ _ h refl (omega arith)
run_request-Sends (set_stakey ed idx len key i) h = one_simple _ _ _ h (simp sizes) (omega arith)
run_request-Sends (set_bsskey ed idx len key) h = one_simple _ _ _ h (simp sizes) (omega arith)
run_request-Sends (remove_stakey ed idx i) h = one_simple _ _ _ h refl (omega arith)
run_request-Sends (remove_bsskey ed idx) h = one_simple _ _ _ h refl (omega arith)
run_request-Sends (enter_bmps i tsf dtim) h = one_simple _ _ _ h refl (omega arith)
run_request-Sends (exit_bmps i) h = one_simple _ _ _ h refl (omega arith)
run_request-Sends (set_power_params ignore interval) h = one_command _ _ _ _ h refl (omega arith)
run_request-Sends (add_ba_session addr tid ssn dir i) h =
    one_simple _ _ _ h (simp sizes) (omega arith)
run_request-Sends add_ba h = one_simple _ _ _ h refl (omega arith)
run_request-Sends (del_ba tid i) h = one_simple _ _ _ h refl (omega arith)
run_request-Sends (keep_alive i kind) h = keep_alive-Sends i kind h
run_request-Sends (trigger_ba i) h = trigger_ba-Sends i h
