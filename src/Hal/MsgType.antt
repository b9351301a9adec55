-- ===== src/Hal/MsgType.antt =====
-- `enum wcn36xx_hal_host_msg_type` of hal.h: the kinds of message on the control channel.
use wcn36xx.Common.{ℕ}

pub data MsgType : Type 0 where
  start_req start_rsp stop_req stop_rsp init_scan_req init_scan_rsp start_scan_req : MsgType
  start_scan_rsp end_scan_req end_scan_rsp finish_scan_req finish_scan_rsp config_sta_req : MsgType
  config_sta_rsp delete_sta_req delete_sta_rsp config_bss_req config_bss_rsp delete_bss_req :
      MsgType
  delete_bss_rsp join_req join_rsp post_assoc_req post_assoc_rsp set_bsskey_req set_bsskey_rsp :
      MsgType
  set_stakey_req set_stakey_rsp rmv_bsskey_req rmv_bsskey_rsp rmv_stakey_req rmv_stakey_rsp :
      MsgType
  add_ts_req add_ts_rsp del_ts_req del_ts_rsp upd_edca_params_req upd_edca_params_rsp : MsgType
  add_ba_req add_ba_rsp del_ba_req del_ba_rsp ch_switch_req ch_switch_rsp set_link_st_req : MsgType
  set_link_st_rsp get_stats_req get_stats_rsp update_cfg_req update_cfg_rsp missed_beacon_ind :
      MsgType
  unknown_addr2_frame_rx_ind mic_failure_ind fatal_error_ind set_keydone_msg download_nv_req :
      MsgType
  download_nv_rsp add_ba_session_req add_ba_session_rsp trigger_ba_req trigger_ba_rsp : MsgType
  update_beacon_req update_beacon_rsp send_beacon_req send_beacon_rsp set_bcastkey_req : MsgType
  set_bcastkey_rsp delete_sta_context_ind update_probe_rsp_template_req : MsgType
  update_probe_rsp_template_rsp process_ptt_req process_ptt_rsp signal_btamp_event_req : MsgType
  signal_btamp_event_rsp tl_hal_flush_ac_req tl_hal_flush_ac_rsp enter_imps_req exit_imps_req :
      MsgType
  enter_bmps_req exit_bmps_req enter_uapsd_req exit_uapsd_req update_uapsd_param_req : MsgType
  configure_rxp_filter_req add_bcn_filter_req rem_bcn_filter_req add_wowl_bcast_ptrn : MsgType
  del_wowl_bcast_ptrn enter_wowl_req exit_wowl_req host_offload_req set_rssi_thresh_req : MsgType
  get_rssi_req set_uapsd_ac_params_req configure_apps_cpu_wakeup_state_req enter_imps_rsp : MsgType
  exit_imps_rsp enter_bmps_rsp exit_bmps_rsp enter_uapsd_rsp exit_uapsd_rsp : MsgType
  set_uapsd_ac_params_rsp update_uapsd_param_rsp configure_rxp_filter_rsp add_bcn_filter_rsp :
      MsgType
  rem_bcn_filter_rsp set_rssi_thresh_rsp host_offload_rsp add_wowl_bcast_ptrn_rsp : MsgType
  del_wowl_bcast_ptrn_rsp enter_wowl_rsp exit_wowl_rsp rssi_notification_ind get_rssi_rsp : MsgType
  configure_apps_cpu_wakeup_state_rsp set_max_tx_power_req set_max_tx_power_rsp aggr_add_ts_req :
      MsgType
  aggr_add_ts_rsp set_p2p_gonoa_req set_p2p_gonoa_rsp dump_command_req dump_command_rsp : MsgType
  start_oem_data_req start_oem_data_rsp add_sta_self_req add_sta_self_rsp del_sta_self_req : MsgType
  del_sta_self_rsp coex_ind ota_tx_compl_ind host_suspend_ind host_resume_req host_resume_rsp :
      MsgType
  set_tx_power_req set_tx_power_rsp get_tx_power_req get_tx_power_rsp p2p_noa_attr_ind : MsgType
  enable_radar_detect_req enable_radar_detect_rsp get_tpc_report_req get_tpc_report_rsp : MsgType
  radar_detect_ind radar_detect_intr_ind keep_alive_req keep_alive_rsp set_pref_network_req :
      MsgType
  set_pref_network_rsp set_rssi_filter_req set_rssi_filter_rsp update_scan_param_req : MsgType
  update_scan_param_rsp pref_netw_found_ind set_tx_per_tracking_req set_tx_per_tracking_rsp :
      MsgType
  tx_per_hit_ind multicast_list_req_8023 multicast_list_rsp_8023 set_packet_filter_req : MsgType
  set_packet_filter_rsp packet_filter_match_count_req packet_filter_match_count_rsp : MsgType
  clear_packet_filter_req clear_packet_filter_rsp init_scan_con_req set_power_params_req : MsgType
  set_power_params_rsp tsm_stats_req tsm_stats_rsp wake_reason_ind gtk_offload_req : MsgType
  gtk_offload_rsp gtk_offload_getinfo_req gtk_offload_getinfo_rsp feature_caps_exchange_req :
      MsgType
  feature_caps_exchange_rsp exclude_unencrypted_ind set_thermal_mitigation_req : MsgType
  set_thermal_mitigation_rsp update_vht_op_mode_req update_vht_op_mode_rsp p2p_noa_start_ind :
      MsgType
  get_roam_rssi_req get_roam_rssi_rsp class_b_stats_ind del_ba_ind dhcp_start_ind : MsgType
  dhcp_stop_ind : MsgType

-- The number that goes into the 16-bit field `msg_type`.
unfoldable pub msg_code : MsgType → ℕ
msg_code start_req = 0
msg_code start_rsp = 1
msg_code stop_req = 2
msg_code stop_rsp = 3
msg_code init_scan_req = 4
msg_code init_scan_rsp = 5
msg_code start_scan_req = 6
msg_code start_scan_rsp = 7
msg_code end_scan_req = 8
msg_code end_scan_rsp = 9
msg_code finish_scan_req = 10
msg_code finish_scan_rsp = 11
msg_code config_sta_req = 12
msg_code config_sta_rsp = 13
msg_code delete_sta_req = 14
msg_code delete_sta_rsp = 15
msg_code config_bss_req = 16
msg_code config_bss_rsp = 17
msg_code delete_bss_req = 18
msg_code delete_bss_rsp = 19
msg_code join_req = 20
msg_code join_rsp = 21
msg_code post_assoc_req = 22
msg_code post_assoc_rsp = 23
msg_code set_bsskey_req = 24
msg_code set_bsskey_rsp = 25
msg_code set_stakey_req = 26
msg_code set_stakey_rsp = 27
msg_code rmv_bsskey_req = 28
msg_code rmv_bsskey_rsp = 29
msg_code rmv_stakey_req = 30
msg_code rmv_stakey_rsp = 31
msg_code add_ts_req = 32
msg_code add_ts_rsp = 33
msg_code del_ts_req = 34
msg_code del_ts_rsp = 35
msg_code upd_edca_params_req = 36
msg_code upd_edca_params_rsp = 37
msg_code add_ba_req = 38
msg_code add_ba_rsp = 39
msg_code del_ba_req = 40
msg_code del_ba_rsp = 41
msg_code ch_switch_req = 42
msg_code ch_switch_rsp = 43
msg_code set_link_st_req = 44
msg_code set_link_st_rsp = 45
msg_code get_stats_req = 46
msg_code get_stats_rsp = 47
msg_code update_cfg_req = 48
msg_code update_cfg_rsp = 49
msg_code missed_beacon_ind = 50
msg_code unknown_addr2_frame_rx_ind = 51
msg_code mic_failure_ind = 52
msg_code fatal_error_ind = 53
msg_code set_keydone_msg = 54
msg_code download_nv_req = 55
msg_code download_nv_rsp = 56
msg_code add_ba_session_req = 57
msg_code add_ba_session_rsp = 58
msg_code trigger_ba_req = 59
msg_code trigger_ba_rsp = 60
msg_code update_beacon_req = 61
msg_code update_beacon_rsp = 62
msg_code send_beacon_req = 63
msg_code send_beacon_rsp = 64
msg_code set_bcastkey_req = 65
msg_code set_bcastkey_rsp = 66
msg_code delete_sta_context_ind = 67
msg_code update_probe_rsp_template_req = 68
msg_code update_probe_rsp_template_rsp = 69
msg_code process_ptt_req = 70
msg_code process_ptt_rsp = 71
msg_code signal_btamp_event_req = 72
msg_code signal_btamp_event_rsp = 73
msg_code tl_hal_flush_ac_req = 74
msg_code tl_hal_flush_ac_rsp = 75
msg_code enter_imps_req = 76
msg_code exit_imps_req = 77
msg_code enter_bmps_req = 78
msg_code exit_bmps_req = 79
msg_code enter_uapsd_req = 80
msg_code exit_uapsd_req = 81
msg_code update_uapsd_param_req = 82
msg_code configure_rxp_filter_req = 83
msg_code add_bcn_filter_req = 84
msg_code rem_bcn_filter_req = 85
msg_code add_wowl_bcast_ptrn = 86
msg_code del_wowl_bcast_ptrn = 87
msg_code enter_wowl_req = 88
msg_code exit_wowl_req = 89
msg_code host_offload_req = 90
msg_code set_rssi_thresh_req = 91
msg_code get_rssi_req = 92
msg_code set_uapsd_ac_params_req = 93
msg_code configure_apps_cpu_wakeup_state_req = 94
msg_code enter_imps_rsp = 95
msg_code exit_imps_rsp = 96
msg_code enter_bmps_rsp = 97
msg_code exit_bmps_rsp = 98
msg_code enter_uapsd_rsp = 99
msg_code exit_uapsd_rsp = 100
msg_code set_uapsd_ac_params_rsp = 101
msg_code update_uapsd_param_rsp = 102
msg_code configure_rxp_filter_rsp = 103
msg_code add_bcn_filter_rsp = 104
msg_code rem_bcn_filter_rsp = 105
msg_code set_rssi_thresh_rsp = 106
msg_code host_offload_rsp = 107
msg_code add_wowl_bcast_ptrn_rsp = 108
msg_code del_wowl_bcast_ptrn_rsp = 109
msg_code enter_wowl_rsp = 110
msg_code exit_wowl_rsp = 111
msg_code rssi_notification_ind = 112
msg_code get_rssi_rsp = 113
msg_code configure_apps_cpu_wakeup_state_rsp = 114
msg_code set_max_tx_power_req = 115
msg_code set_max_tx_power_rsp = 116
msg_code aggr_add_ts_req = 117
msg_code aggr_add_ts_rsp = 118
msg_code set_p2p_gonoa_req = 119
msg_code set_p2p_gonoa_rsp = 120
msg_code dump_command_req = 121
msg_code dump_command_rsp = 122
msg_code start_oem_data_req = 123
msg_code start_oem_data_rsp = 124
msg_code add_sta_self_req = 125
msg_code add_sta_self_rsp = 126
msg_code del_sta_self_req = 127
msg_code del_sta_self_rsp = 128
msg_code coex_ind = 129
msg_code ota_tx_compl_ind = 130
msg_code host_suspend_ind = 131
msg_code host_resume_req = 132
msg_code host_resume_rsp = 133
msg_code set_tx_power_req = 134
msg_code set_tx_power_rsp = 135
msg_code get_tx_power_req = 136
msg_code get_tx_power_rsp = 137
msg_code p2p_noa_attr_ind = 138
msg_code enable_radar_detect_req = 139
msg_code enable_radar_detect_rsp = 140
msg_code get_tpc_report_req = 141
msg_code get_tpc_report_rsp = 142
msg_code radar_detect_ind = 143
msg_code radar_detect_intr_ind = 144
msg_code keep_alive_req = 145
msg_code keep_alive_rsp = 146
msg_code set_pref_network_req = 147
msg_code set_pref_network_rsp = 148
msg_code set_rssi_filter_req = 149
msg_code set_rssi_filter_rsp = 150
msg_code update_scan_param_req = 151
msg_code update_scan_param_rsp = 152
msg_code pref_netw_found_ind = 153
msg_code set_tx_per_tracking_req = 154
msg_code set_tx_per_tracking_rsp = 155
msg_code tx_per_hit_ind = 156
msg_code multicast_list_req_8023 = 157
msg_code multicast_list_rsp_8023 = 158
msg_code set_packet_filter_req = 159
msg_code set_packet_filter_rsp = 160
msg_code packet_filter_match_count_req = 161
msg_code packet_filter_match_count_rsp = 162
msg_code clear_packet_filter_req = 163
msg_code clear_packet_filter_rsp = 164
msg_code init_scan_con_req = 165
msg_code set_power_params_req = 166
msg_code set_power_params_rsp = 167
msg_code tsm_stats_req = 168
msg_code tsm_stats_rsp = 169
msg_code wake_reason_ind = 170
msg_code gtk_offload_req = 171
msg_code gtk_offload_rsp = 172
msg_code gtk_offload_getinfo_req = 173
msg_code gtk_offload_getinfo_rsp = 174
msg_code feature_caps_exchange_req = 175
msg_code feature_caps_exchange_rsp = 176
msg_code exclude_unencrypted_ind = 177
msg_code set_thermal_mitigation_req = 178
msg_code set_thermal_mitigation_rsp = 179
msg_code update_vht_op_mode_req = 182
msg_code update_vht_op_mode_rsp = 183
msg_code p2p_noa_start_ind = 184
msg_code get_roam_rssi_req = 185
msg_code get_roam_rssi_rsp = 186
msg_code class_b_stats_ind = 187
msg_code del_ba_ind = 188
msg_code dhcp_start_ind = 189
msg_code dhcp_stop_ind = 190
