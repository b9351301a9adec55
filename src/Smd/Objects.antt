-- ===== src/Smd/Objects.antt =====
-- What smd.c reads of an interface, of a station and of the device to configure them, from the
-- structs of mac80211 and from `struct wcn36xx_vif` and `struct wcn36xx_sta`.
use wcn36xx.Common.{ℕ, Bool, List}
use wcn36xx.Hal.Enums.{EdType}
use wcn36xx.Mac.Rates.{Band, SupportedRates}
use wcn36xx.Smd.Config.{FwInfo}

pub data IfType : Type 0 where
  station ap adhoc mesh_point other_type : IfType

-- `vif->bss_conf`
pub record BssConf : Type 0 where
  pub use_short_slot : ℕ
  pub beacon_int : ℕ
  pub ht_operation_mode : ℕ
  pub hidden_ssid : ℕ

pub record Iface : Type 0 where
  pub kind : IfType
  pub addr : List ℕ
  pub conf : BssConf
  -- `struct wcn36xx_vif`
  pub dtim_period : ℕ
  pub encrypt_type : EdType
  pub is_joining : Bool
  pub sta_assoc : Bool
  pub ssid : List ℕ
  pub bss_index : ℕ
  pub self_sta_index : ℕ
  pub self_dpu_desc_index : ℕ
  pub self_ucast_dpu_sign : ℕ

-- `sta->ht_cap`
pub record HtCap : Type 0 where
  pub ht_supported : Bool
  pub cap : ℕ
  pub ampdu_factor : ℕ
  pub ampdu_density : ℕ

pub record Peer : Type 0 where
  pub addr : List ℕ
  pub wme : ℕ
  pub max_sp : ℕ
  pub rates_2ghz : ℕ
  pub ht_cap : HtCap
  -- `struct wcn36xx_sta`
  pub aid : ℕ
  pub tid : ℕ
  pub sta_index : ℕ
  pub dpu_desc_index : ℕ
  pub ucast_dpu_sign : ℕ
  pub bss_sta_index : ℕ
  pub bss_dpu_desc_index : ℕ
  pub is_data_encrypted : Bool
  pub supported_rates : SupportedRates

-- The configuration of the device, and the version of its firmware. `short_preamble` is that
-- IEEE80211_HW_2GHZ_SHORT_PREAMBLE_INCAPABLE is not among its flags.
pub record Radio : Type 0 where
  pub listen_interval : ℕ
  pub short_preamble : Bool
  pub band : Band
  pub channel : ℕ
  pub is_ht40_minus : Bool
  pub is_ht40_plus : Bool
  pub max_power : ℕ
  pub info : FwInfo
