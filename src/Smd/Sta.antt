-- ===== src/Smd/Sta.antt =====
-- The station parameters of hal.h in their two layouts, and `wcn36xx_smd_convert_sta_to_v1`.
pub mod Fill
pub mod Send
use wcn36xx.Common.{ℕ, List, [], ◌∷◌, ◌++◌, u8, u16, u32, field}
use wcn36xx.Hal.Enums.{EdType, ed_none, ed_code}
use wcn36xx.Hal.Layout.{mac}
use wcn36xx.Mac.Rates.{SupportedRates, no_rates}

-- `struct wcn36xx_hal_config_sta_params`; `struct wcn36xx_hal_config_sta_params_v1` has the same
-- fields and one that stays 0, in another order.
pub record StaParams : Type 0 where
  pub bssid : List ℕ
  pub aid : ℕ
  pub sta_type : ℕ
  pub short_preamble_supported : ℕ
  pub mac : List ℕ
  pub listen_interval : ℕ
  pub wmm_enabled : ℕ
  pub ht_capable : ℕ
  pub tx_channel_width_set : ℕ
  pub rifs_mode : ℕ
  pub lsig_txop_protection : ℕ
  pub max_ampdu_size : ℕ
  pub max_ampdu_density : ℕ
  pub max_amsdu_size : ℕ
  pub sgi_40mhz : ℕ
  pub sgi_20mhz : ℕ
  pub supported_rates : SupportedRates
  pub rmf : ℕ
  pub encrypt_type : EdType
  pub action : ℕ
  pub uapsd : ℕ
  pub max_sp_len : ℕ
  pub green_field_capable : ℕ
  pub mimo_ps : ℕ
  pub delayed_ba_support : ℕ
  pub max_ampdu_duration : ℕ
  pub dsss_cck_mode_40mhz : ℕ
  pub sta_index : ℕ
  pub bssid_index : ℕ
  pub p2p : ℕ

-- The struct after INIT_HAL_MSG.
abbrev pub no_sta_params : StaParams
no_sta_params = record {
  bssid = [];
  aid = 0;
  sta_type = 0;
  short_preamble_supported = 0;
  mac = [];
  listen_interval = 0;
  wmm_enabled = 0;
  ht_capable = 0;
  tx_channel_width_set = 0;
  rifs_mode = 0;
  lsig_txop_protection = 0;
  max_ampdu_size = 0;
  max_ampdu_density = 0;
  max_amsdu_size = 0;
  sgi_40mhz = 0;
  sgi_20mhz = 0;
  supported_rates = no_rates;
  rmf = 0;
  encrypt_type = ed_none;
  action = 0;
  uapsd = 0;
  max_sp_len = 0;
  green_field_capable = 0;
  mimo_ps = 0;
  delayed_ba_support = 0;
  max_ampdu_duration = 0;
  dsss_cck_mode_40mhz = 0;
  sta_index = 0;
  bssid_index = 0;
  p2p = 0;
}

-- An array of `u16`.
abbrev pub u16s : List ℕ → List ℕ
u16s [] = []
u16s (x ∷ xs) = u16 x ++ u16s xs

-- `struct wcn36xx_hal_supported_rates`
unfoldable pub supported_rates_body : SupportedRates → List ℕ
supported_rates_body r =
    u32 r.op_rate_mode
    ++ field 8 (u16s r.dsss_rates)
    ++ field 16 (u16s r.ofdm_rates)
    ++ field 6 (u16s r.legacy_rates)
    ++ u16 r.reserved
    ++ u32 r.enhanced_rate_bitmap
    ++ field 16 r.supported_mcs_set
    ++ u16 r.rx_highest_data_rate

unfoldable pub sta_params_body : StaParams → List ℕ
unfolding supported_rates_body
sta_params_body p =
    mac p.bssid
    ++ u16 p.aid
    ++ u8 p.sta_type
    ++ u8 p.short_preamble_supported
    ++ mac p.mac
    ++ u16 p.listen_interval
    ++ u8 p.wmm_enabled
    ++ u8 p.ht_capable
    ++ u8 p.tx_channel_width_set
    ++ u8 p.rifs_mode
    ++ u8 p.lsig_txop_protection
    ++ u8 p.max_ampdu_size
    ++ u8 p.max_ampdu_density
    ++ u8 p.max_amsdu_size
    ++ u8 p.sgi_40mhz
    ++ u8 p.sgi_20mhz
    ++ supported_rates_body p.supported_rates
    ++ u8 p.rmf
    ++ u32 (ed_code p.encrypt_type)
    ++ u8 p.action
    ++ u8 p.uapsd
    ++ u8 p.max_sp_len
    ++ u8 p.green_field_capable
    ++ u32 p.mimo_ps
    ++ u8 p.delayed_ba_support
    ++ u8 p.max_ampdu_duration
    ++ u8 p.dsss_cck_mode_40mhz
    ++ u8 p.sta_index
    ++ u8 p.bssid_index
    ++ u8 p.p2p

unfoldable pub sta_params_v1_body : StaParams → List ℕ
unfolding supported_rates_body
sta_params_v1_body p =
    mac p.bssid
    ++ u16 p.aid
    ++ u8 p.sta_type
    ++ u8 p.short_preamble_supported
    ++ mac p.mac
    ++ u16 p.listen_interval
    ++ u8 p.wmm_enabled
    ++ u8 p.ht_capable
    ++ u8 p.tx_channel_width_set
    ++ u8 p.rifs_mode
    ++ u8 p.lsig_txop_protection
    ++ u8 p.max_ampdu_size
    ++ u8 p.max_ampdu_density
    ++ u8 p.max_amsdu_size
    ++ u8 p.sgi_40mhz
    ++ u8 p.sgi_20mhz
    ++ u8 p.rmf
    ++ u32 (ed_code p.encrypt_type)
    ++ u8 p.action
    ++ u8 p.uapsd
    ++ u8 p.max_sp_len
    ++ u8 p.green_field_capable
    ++ u32 p.mimo_ps
    ++ u8 p.delayed_ba_support
    ++ u8 p.max_ampdu_duration
    ++ u8 p.dsss_cck_mode_40mhz
    ++ u8 p.sta_index
    ++ u8 p.bssid_index
    ++ u8 p.p2p
    ++ u8 0
    ++ supported_rates_body p.supported_rates

-- `max_amsdu_size` is not taken over, and stays 0.
unfoldable pub convert_sta_to_v1 : StaParams → StaParams
convert_sta_to_v1 orig = record no_sta_params {
  bssid = orig.bssid;
  aid = orig.aid;
  sta_type = orig.sta_type;
  short_preamble_supported = orig.short_preamble_supported;
  mac = orig.mac;
  listen_interval = orig.listen_interval;
  wmm_enabled = orig.wmm_enabled;
  ht_capable = orig.ht_capable;
  tx_channel_width_set = orig.tx_channel_width_set;
  rifs_mode = orig.rifs_mode;
  lsig_txop_protection = orig.lsig_txop_protection;
  max_ampdu_size = orig.max_ampdu_size;
  max_ampdu_density = orig.max_ampdu_density;
  sgi_40mhz = orig.sgi_40mhz;
  sgi_20mhz = orig.sgi_20mhz;
  supported_rates = orig.supported_rates;
  rmf = orig.rmf;
  encrypt_type = orig.encrypt_type;
  action = orig.action;
  uapsd = orig.uapsd;
  max_sp_len = orig.max_sp_len;
  green_field_capable = orig.green_field_capable;
  mimo_ps = orig.mimo_ps;
  delayed_ba_support = orig.delayed_ba_support;
  max_ampdu_duration = orig.max_ampdu_duration;
  dsss_cck_mode_40mhz = orig.dsss_cck_mode_40mhz;
  sta_index = orig.sta_index;
  bssid_index = orig.bssid_index;
  p2p = orig.p2p;
}
