-- ===== src/Smd/Bss/Layouts.antt =====
-- The two layouts of the station and BSS parameters.
use wcn36xx.Common.{ℕ, ◌≡◌, List, ◌++◌, append_assoc, length, u8, u16, u32}
use wcn36xx.Hal.Enums.{ed_code}
use wcn36xx.Hal.Layout.{mac}
use wcn36xx.Smd.Wire.{sizes}
use wcn36xx.Smd.Sta.{
  StaParams, sta_params_body, sta_params_v1_body, convert_sta_to_v1, supported_rates_body,
}
use wcn36xx.Smd.Bss.{BssParams, bss_params_body, bss_params_v1_body, mac_ssid}

pub sta_params_body-length : (p : StaParams) → length (sta_params_body p) ≡ 105
unfolding sta_params_body supported_rates_body
sta_params_body-length p = simp sizes

pub sta_params_v1_body-length : (p : StaParams) → length (sta_params_v1_body p) ≡ 106
unfolding sta_params_v1_body supported_rates_body
sta_params_v1_body-length p = simp sizes

pub bss_params_body-length : (p : BssParams) → length (bss_params_body p) ≡ 461
unfolding bss_params_body mac_ssid
bss_params_body-length p = simp sizes

pub bss_params_v1_body-length : (p : BssParams) → length (bss_params_v1_body p) ≡ 462
unfolding bss_params_v1_body mac_ssid
bss_params_v1_body-length p = simp sizes

-- In the first layout, `rates` stand between `front` and `back`; in the other they are at the end.
pub record SameFields (first second : List ℕ) : Type 0 where
  pub front : List ℕ
  pub rates : List ℕ
  pub back : List ℕ
  pub in_first : first ≡ front ++ (rates ++ back)
  pub in_second : second ≡ front ++ (back ++ (u8 0 ++ rates))
  pub front_size : length front ≡ 28
  pub rates_size : length rates ≡ 58

-- The station parameters in the layout that all firmware but 1.2.2.24 gets hold, byte for byte, what
-- firmware 1.2.2.24 gets for the same station without its A-MSDU size, with the 58 bytes of the rates
-- moved from behind the first 28 bytes to the end, behind a reserved 0.
pub convert_sta_to_v1-SameFields :
    (p : StaParams)
    → SameFields
        (sta_params_body (record p { max_amsdu_size = 0 }))
        (sta_params_v1_body (convert_sta_to_v1 p))
unfolding sta_params_body sta_params_v1_body convert_sta_to_v1 supported_rates_body
convert_sta_to_v1-SameFields p = record {
  front =
      mac p.bssid
      ++ u16 p.aid
      ++ u8 p.sta_type
      ++ u8 p.short_preamble_supported
      ++ mac p.mac
      ++ u16 p.listen_interval
      ++ u8 p.wmm_enabled
      ++ u8 p.ht_capable
      ++ u8 p.tx_channel_width_set
      ++ u8 p.rifs_mode
      ++ u8 p.lsig_txop_protection
      ++ u8 p.max_ampdu_size
      ++ u8 p.max_ampdu_density
      ++ u8 0
      ++ u8 p.sgi_40mhz
      ++ u8 p.sgi_20mhz;
  rates = supported_rates_body p.supported_rates;
  back =
      u8 p.rmf
      ++ u32 (ed_code p.encrypt_type)
      ++ u8 p.action
      ++ u8 p.uapsd
      ++ u8 p.max_sp_len
      ++ u8 p.green_field_capable
      ++ u32 p.mimo_ps
      ++ u8 p.delayed_ba_support
      ++ u8 p.max_ampdu_duration
      ++ u8 p.dsss_cck_mode_40mhz
      ++ u8 p.sta_index
      ++ u8 p.bssid_index
      ++ u8 p.p2p;
  in_first = simp append_assoc;
  in_second = simp append_assoc;
  front_size = simp sizes;
  rates_size = simp sizes;
}
