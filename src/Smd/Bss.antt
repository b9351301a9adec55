-- ===== src/Smd/Bss.antt =====
-- The BSS parameters of hal.h in their two layouts.
pub mod Convert
pub mod Fill
pub mod Send
pub mod Layouts
pub mod Sample
mod Tests
use wcn36xx.Common.{ℕ, List, [], ◌++◌, length, take, u8, u16, u32, field}
use wcn36xx.Hal.Layout.{mac}
use wcn36xx.Smd.Sta.{
  StaParams, no_sta_params, sta_params_body, sta_params_v1_body, convert_sta_to_v1,
}

-- `struct wcn36xx_hal_config_bss_params`; `struct wcn36xx_hal_config_bss_params_v1` has the same
-- fields, with the station at the end.
pub record BssParams : Type 0 where
  pub bssid : List ℕ
  pub self_mac_addr : List ℕ
  pub bss_type : ℕ
  pub oper_mode : ℕ
  pub nw_type : ℕ
  pub short_slot_time_supported : ℕ
  pub lla_coexist : ℕ
  pub llb_coexist : ℕ
  pub llg_coexist : ℕ
  pub ht20_coexist : ℕ
  pub lln_non_gf_coexist : ℕ
  pub lsig_tx_op_protection_full_support : ℕ
  pub rifs_mode : ℕ
  pub beacon_interval : ℕ
  pub dtim_period : ℕ
  pub tx_channel_width_set : ℕ
  pub oper_channel : ℕ
  pub ext_channel : ℕ
  pub reserved : ℕ
  pub sta : StaParams
  pub ssid : List ℕ
  pub action : ℕ
  pub rateset : List ℕ
  pub ht : ℕ
  pub obss_prot_enabled : ℕ
  pub rmf : ℕ
  pub ht_oper_mode : ℕ
  pub dual_cts_protection : ℕ
  pub max_probe_resp_retry_limit : ℕ
  pub hidden_ssid : ℕ
  pub proxy_probe_resp : ℕ
  pub edca_params_valid : ℕ
  pub acbe : List ℕ
  pub acbk : List ℕ
  pub acvi : List ℕ
  pub acvo : List ℕ
  pub ext_set_sta_key_param_valid : ℕ
  pub ext_set_sta_key_param : List ℕ
  pub hal_persona : ℕ
  pub spectrum_mgt_enable : ℕ
  pub tx_mgmt_power : ℕ
  pub max_tx_power : ℕ

-- The struct after INIT_HAL_MSG.
abbrev pub no_bss_params : BssParams
no_bss_params = record {
  bssid = [];
  self_mac_addr = [];
  bss_type = 0;
  oper_mode = 0;
  nw_type = 0;
  short_slot_time_supported = 0;
  lla_coexist = 0;
  llb_coexist = 0;
  llg_coexist = 0;
  ht20_coexist = 0;
  lln_non_gf_coexist = 0;
  lsig_tx_op_protection_full_support = 0;
  rifs_mode = 0;
  beacon_interval = 0;
  dtim_period = 0;
  tx_channel_width_set = 0;
  oper_channel = 0;
  ext_channel = 0;
  reserved = 0;
  sta = no_sta_params;
  ssid = [];
  action = 0;
  rateset = [];
  ht = 0;
  obss_prot_enabled = 0;
  rmf = 0;
  ht_oper_mode = 0;
  dual_cts_protection = 0;
  max_probe_resp_retry_limit = 0;
  hidden_ssid = 0;
  proxy_probe_resp = 0;
  edca_params_valid = 0;
  acbe = [];
  acbk = [];
  acvi = [];
  acvo = [];
  ext_set_sta_key_param_valid = 0;
  ext_set_sta_key_param = [];
  hal_persona = 0;
  spectrum_mgt_enable = 0;
  tx_mgmt_power = 0;
  max_tx_power = 0;
}

-- `struct wcn36xx_hal_mac_ssid`
unfoldable pub mac_ssid : List ℕ → List ℕ
mac_ssid ssid = u8 (length ssid) ++ field 32 ssid

unfoldable pub bss_params_body : BssParams → List ℕ
unfolding mac_ssid sta_params_body
bss_params_body p =
    mac p.bssid
    ++ mac p.self_mac_addr
    ++ u32 p.bss_type
    ++ u8 p.oper_mode
    ++ u32 p.nw_type
    ++ u8 p.short_slot_time_supported
    ++ u8 p.lla_coexist
    ++ u8 p.llb_coexist
    ++ u8 p.llg_coexist
    ++ u8 p.ht20_coexist
    ++ u8 p.lln_non_gf_coexist
    ++ u8 p.lsig_tx_op_protection_full_support
    ++ u8 p.rifs_mode
    ++ u16 p.beacon_interval
    ++ u8 p.dtim_period
    ++ u8 p.tx_channel_width_set
    ++ u8 p.oper_channel
    ++ u8 p.ext_channel
    ++ u8 p.reserved
    ++ sta_params_body p.sta
    ++ mac_ssid p.ssid
    ++ u8 p.action
    ++ field 13 p.rateset
    ++ u8 p.ht
    ++ u8 p.obss_prot_enabled
    ++ u8 p.rmf
    ++ u32 p.ht_oper_mode
    ++ u8 p.dual_cts_protection
    ++ u8 p.max_probe_resp_retry_limit
    ++ u8 p.hidden_ssid
    ++ u8 p.proxy_probe_resp
    ++ u8 p.edca_params_valid
    ++ field 4 p.acbe
    ++ field 4 p.acbk
    ++ field 4 p.acvi
    ++ field 4 p.acvo
    ++ u8 p.ext_set_sta_key_param_valid
    ++ field 240 p.ext_set_sta_key_param
    ++ u8 p.hal_persona
    ++ u8 p.spectrum_mgt_enable
    ++ u8 p.tx_mgmt_power
    ++ u8 p.max_tx_power

unfoldable pub bss_params_v1_body : BssParams → List ℕ
unfolding mac_ssid sta_params_v1_body
bss_params_v1_body p =
    mac p.bssid
    ++ mac p.self_mac_addr
    ++ u32 p.bss_type
    ++ u8 p.oper_mode
    ++ u32 p.nw_type
    ++ u8 p.short_slot_time_supported
    ++ u8 p.lla_coexist
    ++ u8 p.llb_coexist
    ++ u8 p.llg_coexist
    ++ u8 p.ht20_coexist
    ++ u8 p.lln_non_gf_coexist
    ++ u8 p.lsig_tx_op_protection_full_support
    ++ u8 p.rifs_mode
    ++ u16 p.beacon_interval
    ++ u8 p.dtim_period
    ++ u8 p.tx_channel_width_set
    ++ u8 p.oper_channel
    ++ u8 p.ext_channel
    ++ u8 p.reserved
    ++ mac_ssid p.ssid
    ++ u8 p.action
    ++ field 13 p.rateset
    ++ u8 p.ht
    ++ u8 p.obss_prot_enabled
    ++ u8 p.rmf
    ++ u32 p.ht_oper_mode
    ++ u8 p.dual_cts_protection
    ++ u8 p.max_probe_resp_retry_limit
    ++ u8 p.hidden_ssid
    ++ u8 p.proxy_probe_resp
    ++ u8 p.edca_params_valid
    ++ field 4 p.acbe
    ++ field 4 p.acbk
    ++ field 4 p.acvi
    ++ field 4 p.acvo
    ++ u8 p.ext_set_sta_key_param_valid
    ++ field 240 p.ext_set_sta_key_param
    ++ u8 p.hal_persona
    ++ u8 p.spectrum_mgt_enable
    ++ u8 p.tx_mgmt_power
    ++ u8 p.max_tx_power
    ++ sta_params_v1_body p.sta
