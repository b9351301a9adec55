-- ===== src/Smd/Bss/Convert.antt =====
-- The conversion of `wcn36xx_smd_config_bss_v1` in smd.c.
use wcn36xx.Common.{take}
use wcn36xx.Smd.Sta.{convert_sta_to_v1}
use wcn36xx.Smd.Bss.{BssParams}

-- Of `ext_set_sta_key_param`, only `sizeof(acvo)` bytes are copied.
unfoldable pub convert_bss_to_v1 : BssParams → BssParams
unfolding convert_sta_to_v1
convert_bss_to_v1 orig = record {
  bssid = orig.bssid;
  self_mac_addr = orig.self_mac_addr;
  bss_type = orig.bss_type;
  oper_mode = orig.oper_mode;
  nw_type = orig.nw_type;
  short_slot_time_supported = orig.short_slot_time_supported;
  lla_coexist = orig.lla_coexist;
  llb_coexist = orig.llb_coexist;
  llg_coexist = orig.llg_coexist;
  ht20_coexist = orig.ht20_coexist;
  lln_non_gf_coexist = orig.lln_non_gf_coexist;
  lsig_tx_op_protection_full_support = orig.lsig_tx_op_protection_full_support;
  rifs_mode = orig.rifs_mode;
  beacon_interval = orig.beacon_interval;
  dtim_period = orig.dtim_period;
  tx_channel_width_set = orig.tx_channel_width_set;
  oper_channel = orig.oper_channel;
  ext_channel = orig.ext_channel;
  reserved = orig.reserved;
  sta = convert_sta_to_v1 orig.sta;
  ssid = orig.ssid;
  action = orig.action;
  rateset = orig.rateset;
  ht = orig.ht;
  obss_prot_enabled = orig.obss_prot_enabled;
  rmf = orig.rmf;
  ht_oper_mode = orig.ht_oper_mode;
  dual_cts_protection = orig.dual_cts_protection;
  max_probe_resp_retry_limit = orig.max_probe_resp_retry_limit;
  hidden_ssid = orig.hidden_ssid;
  proxy_probe_resp = orig.proxy_probe_resp;
  edca_params_valid = orig.edca_params_valid;
  acbe = orig.acbe;
  acbk = orig.acbk;
  acvi = orig.acvi;
  acvo = orig.acvo;
  ext_set_sta_key_param_valid = orig.ext_set_sta_key_param_valid;
  ext_set_sta_key_param = take 4 orig.ext_set_sta_key_param;
  hal_persona = orig.hal_persona;
  spectrum_mgt_enable = orig.spectrum_mgt_enable;
  tx_mgmt_power = orig.tx_mgmt_power;
  max_tx_power = orig.max_tx_power;
}
